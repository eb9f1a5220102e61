-- ===== src/Lib.antt =====
-- Models of C programs of a course on programming the Unix environment, and proofs about them.
--
-- The repository is a collection of small programs by lesson. Modelled are those that keep a state of
-- their own and guard it against failing calls, signals, other processes or other threads. They do not
-- call each other, but for the token bucket and its client. Each part has a parent module with the
-- definitions, children that prove, and a module of tests.
--
-- Pool: 36.项目实例/动态进程/server.c, a server that is meant to keep between 5 and 10 idle processes. The array of
-- struct server_st, idle_count and busy_count are the record Pool; add_1_server and del_1_server have their
-- own names, the two loops that resize the pool are shrink and grow, and control is the choice between
-- them, where no child stores meanwhile. Pool/Notify is main: its set-up, the mask and the signal by which
-- the children wake the parent, and scan_pool, the control and the printing, one read of a slot at a time
-- (advance), with the stores and signals of the children between any two steps. Pool/Child is server_job.
-- Pool/Drafts is what 36.项目实例/动态进程/server_test.c and 动态进程池/server_test.c do otherwise.
--
-- Timer: 30.信号专题/anytimer/anytimer.c, a table of jobs under one alarm a second. alrm_action,
-- get_free_pos, at_addjob, at_addjob_repeat, at_canceljob and at_waitjob have their own names; tick_job
-- is the body of the loop of alrm_action. A time is a 32-bit pattern, with its wrap-around.
--
-- Bucket: 31.线程专题/mytbf_thread_cond/mytbf.c, token buckets filled by a thread, and Bucket/Signal:
-- 30.信号专题/mytab/mytbf.c, the same under SIGALRM. The functions have the names of the source.
--
-- Bucket/Threads: 31.线程专题/mytfb_thread/mytbf_2.c and mytbf.c, the fetches and the filling thread one load
-- or store at a time, which Bucket takes as single steps.
--
-- Bucket/Rearm: 30.信号专题/mytfb_2/mytbf.c, where the handler of SIGALRM asks for the next alarm itself.
--
-- Copy: 26.系统调用IO/mycp_3.c and mycp_4.c, 30.信号专题/mycp_SysIO.c and mycat.c, with a list of answers
-- of the kernel for each call. Copy/Slow: 30.信号专题/slowcat.c and slowcat_2.c, and
-- 31.线程专题/mytbf_thread_cond/main.c, which fetches its tokens from the bucket of Bucket.
--
-- Copy/Plain: 26.系统调用IO/mycp_2.c, which does not try again after EINTR.
--
-- Getline: mygetline of 25.标准IO/getline_5.c and the loop of its main, over the documented fgets.
--
-- Primes: 31.线程专题/primer_1_pool_cond.c, a main thread that hands numbers to others through one variable
-- under a mutex and a condition variable, as a step relation that includes each waiting, the choice of
-- the thread that a signal wakes, and wakings for no reason.
--
-- Primes/Polling: 31.线程专题/primer_1_pool.c, which hands the numbers out by polling, over the same states.
--
-- Primes/Shares: 29.进程专题/primer0.c to primer3.c and 31.线程专题/primer_1.c, which search without a common
-- variable, a process or thread for each number or for each residue.
--
-- Semaphore: 31.线程专题/mysem/mysem.c and main.c, a counting semaphore and the program that starts its
-- threads under it, as a step relation too.
--
-- Cyclic: 31.线程专题/abcd_cond.c and abcd.c, threads that write letters in turn, under a condition variable
-- and under a ring of mutexes. Counter: 31.线程专题/conflict.c and mutex.c, 32.高级IO/add.c and
-- 34.进、线程通信专题/add_semarr.c, which add to a number in a file without a lock and under three kinds of
-- it. Both are step relations over any number of threads.
--
-- Getline/Earlier: mygetline of 25.标准IO/getline_3.c and getline_4.c.
--
-- Du: 28.目录和用户操作/mydu.c, over a tree of files, with the static variables passed on.
--
-- Pipe: 33.管道实例/mypipe/mypipe.c, a pipe within a process, with the `next` that the source lacks as a
-- parameter.
--
-- Service: 35.网络编程专题/静态进程池/server.c, a fixed number of processes that accept on one socket.
--
-- Stamp: the text with a time stamp that the servers of 35.网络编程专题/流式套接字 and 36.项目实例/动态进程 send, and
-- their client.c. Service/Serial and Service/Forking: server.c of 35.网络编程专题/流式套接字 and of 流式套接字_并发版,
-- which serve one connection after the other, or each in a child. The fuel of Stamp.digits is for 19 digits, as a
-- long long has.
--
-- Datagram: snder.c and rcver.c of 35.网络编程专题/报式套接字/变长的包体; Datagram/Fixed those of 固定的包体, and
-- Datagram/Queue those of 34.进、线程通信专题/msg. Masks: block.c, block_2.c, suspend.c and real_signal.c of
-- 30.信号专题. Copy/Stdio: 25.标准IO/mycp_1.c, and fread_1.c and fgets_1.c.
--
-- Timelog: 28.目录和用户操作/timelog.c.
--
-- Alarms: module_load and module_unload of 30.信号专题/anytimer/anytimer.c and mytab/mytbf.c.
--
-- Base holds Boolean tests, lists over native numbers, and the search for an empty entry.
--
-- Bounds and fuel. The loops that resize the pool run on fuel, the number of idle servers and the 5 of
-- MINSPARESERVER, more than which they cannot take, since the bound falls as the count rises. The wait of
-- at_waitjob runs on its turns, each with the alarms that come in it, and the fetch of Bucket/Signal on the
-- number of alarms: with too few of them the caller is still waiting. The calls of mygetline run on
-- fuel, one more than the file has lines; its own loop runs on the number of allocations that succeed. The copying loops run on the
-- kernel's answers: one that uses them up is blocked. The share of a process of Primes/Shares has fuel for
-- each number up to the last. Where a call waits for a condition or is retried, what it finds each time is a
-- list: it still waits where the list is used up. The step relations have no bound.
--
-- Not modelled: handlers and timers but for Alarms, and the creation of threads
-- and processes, since they are calls without logic; the text that a program prints for its user; the
-- programs that show one library call each; the earlier versions of modelled programs that differ in
-- library calls only; broadcast and multicast, which send the message of Datagram/Fixed; mypite_write, which
-- has no body. Sizes and rates are numbers from 0 on, and sums are taken to fit an int where no width is
-- written.
pub mod Base
pub mod Pool
pub mod Timer
pub mod Bucket
pub mod Copy
pub mod Getline
pub mod Primes
pub mod Semaphore
pub mod Cyclic
pub mod Counter
pub mod Du
pub mod Pipe
pub mod Service
pub mod Stamp
pub mod Masks
pub mod Datagram
pub mod Timelog
pub mod Alarms
