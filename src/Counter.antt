-- ===== src/Counter.antt =====
-- Threads or processes that each read a number from a file and write it back increased by one:
-- 31.线程专题/conflict.c without a lock, 31.线程专题/mutex.c under a mutex, 32.高级IO/add.c under a file
-- lock, and 34.进、线程通信专题/add_semarr.c under a System V semaphore. The file is its number. The
-- programs' library calls answer well, but for `semop`, whose answers are an argument.
pub mod Counts
pub mod Locked
pub mod Lost
mod Tests
use apue_li_huiqin.Base.{
  ℕ, zero, suc, ◌+◌, ◌-◌, ◌≡◌, Bool, true, false, not, ◌||◌, Option, none, some, List, [], ◌∷◌,
  ◌==◌, if◌then◌else◌, set, get_elem?, replicate,
}

-- What keeps the others out between `fgets` and `fclose`.
pub data Guard : Type 0 where
  no_guard mutex file_lock semaphore : Guard

-- A thread or process: before its lock, behind it, with the number that it has read, with the number
-- written, and at its end; `given_up` is the end of a process whose `semop` has failed.
pub data At : Type 0 where
  opened inside : At
  got : ℕ → At
  put finished given_up : At

pub record File : Type 0 where
  pub number : ℕ
  pub locked : Bool
  pub workers : List At

-- What `semop` answers: success, or -1 with an `errno`.
pub data Semop : Type 0 where
  done eintr eagain other : Semop

-- `errno != EINTR || errno != EAGAIN`
abbrev pub ne_eintr : Semop → Bool
ne_eintr eintr = false
ne_eintr done = true
ne_eintr eagain = true
ne_eintr other = true

abbrev pub ne_eagain : Semop → Bool
ne_eagain eagain = false
ne_eagain done = true
ne_eagain eintr = true
ne_eagain other = true

-- `P`: whether the process has the semaphore, or exits; `none` while `semop` has not answered yet.
unfoldable pub sem_p : List Semop → Option Bool
sem_p [] = none
sem_p (done ∷ answers) = some true
sem_p (a ∷ answers) =
    let again = sem_p answers in if ne_eintr a || ne_eagain a then some false else again

-- A process at its lock, where it is free; `p` is what `P` comes to.
unfoldable pub enter : Guard → ℕ → Option Bool → File → File
enter no_guard k p f = record f { workers = set f.workers k inside }
enter mutex k p f = record f { locked = true; workers = set f.workers k inside }
enter file_lock k p f = record f { locked = true; workers = set f.workers k inside }
enter semaphore k none f = f
enter semaphore k (some true) f = record f { locked = true; workers = set f.workers k inside }
enter semaphore k (some false) f = record f { workers = set f.workers k given_up }

-- `pthread_mutex_lock`, `lockf` or `P`: nothing happens where another holds it, but a `semop` may fail.
unfoldable pub at_guard : Guard → Bool → ℕ → Option Bool → File → File
unfolding enter
at_guard no_guard b k p f = enter no_guard k p f
at_guard mutex b k p f = if b then f else enter mutex k p f
at_guard file_lock b k p f = if b then f else enter file_lock k p f
at_guard semaphore true k (some false) f = enter semaphore k (some false) f
at_guard semaphore true k none f = f
at_guard semaphore true k (some true) f = f
at_guard semaphore false k p f = enter semaphore k p f

-- The unlocking.
unfoldable pub leave : Guard → ℕ → File → File
leave no_guard k f = record f { workers = set f.workers k finished }
leave mutex k f = record f { locked = false; workers = set f.workers k finished }
leave file_lock k f = record f { locked = false; workers = set f.workers k finished }
leave semaphore k f = record f { locked = false; workers = set f.workers k finished }

-- A step of worker `k`: the lock; `fgets`; `fprintf` of `atoi(linebuf) + 1`, with what brings it into the
-- file; the unlocking.
unfoldable pub func : Guard → ℕ → Option Bool → Option At → File → File
unfolding at_guard leave
func g k p (some opened) f = at_guard g f.locked k p f
func g k p (some inside) f = record f { workers = set f.workers k (got f.number) }
func g k p (some (got n)) f = record f { number = n + 1; workers = set f.workers k put }
func g k p (some put) f = leave g k f
func g k p (some finished) f = f
func g k p (some given_up) f = f
func g k p none f = f

-- `main` starts so many workers.
abbrev pub start : ℕ → ℕ → File
start workers number = record {
  number = number;
  locked = false;
  workers = replicate workers opened;
}

-- The states of a run.
pub data Reach (g : Guard) (workers number : ℕ) : File → Type 0 where
  begin : Reach g workers number (start workers number)
  next :
      {f : File} (k : ℕ) (answers : List Semop)
      → Reach g workers number f
      → Reach g workers number (func g k (sem_p answers) (get_elem? f.workers k) f)
