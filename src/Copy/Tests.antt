-- ===== src/Copy/Tests.antt =====
-- Runs of the copying programs (26.系统调用IO/mycp_3.c and mycp_4.c, 30.信号专题/mycat.c, mycp_SysIO.c,
-- slowcat.c and slowcat_2.c, 31.线程专题/mytbf_thread_cond/main.c), and the theorems about them at
-- concrete answers of the kernel.
use apue_li_huiqin.Copy.Stdio
use apue_li_huiqin.Copy.Stdio.Full.{concat, copy_full, copy_full_disk}
use apue_li_huiqin.Base.{replicate, false, ℕ, ◌≡◌, refl, true, List, [], ◌∷◌, ◌++◌, arith, length}
use apue_li_huiqin.Copy.{
  Answer, success, interrupted, failed, Kernel, eof, read_error, write_error, mycp_3, write_all,
  copy_loop, open_loop,
}
use apue_li_huiqin.Copy.Complete.{cp_4, cat, run, run-prefix, Serves, run_complete}
use apue_li_huiqin.Copy.Plain.{write_plain, copy_plain, open_once, mycp_2}
use apue_li_huiqin.Copy.Slow.{Round, tbf_main}
use apue_li_huiqin.Copy.Slow.Prefix.{IsLimited, tbf_main-IsLimited}

abbrev file : List ℕ
file = 104 ∷ 101 ∷ 108 ∷ 108 ∷ 111 ∷ []

-- Interruptions, and calls that move one or two bytes.
abbrev patient : Kernel
patient = record {
  sources = interrupted ∷ success 0 ∷ [];
  targets = interrupted ∷ interrupted ∷ success 0 ∷ [];
  reads = success 1 ∷ interrupted ∷ success 0 ∷ success 1 ∷ success 0 ∷ success 0 ∷ success 0 ∷ [];
  writes = success 0 ∷ interrupted ∷ success 0 ∷ success 4 ∷ success 0 ∷ success 0 ∷ success 0 ∷ [];
}

-- The same with a `write` that fails.
abbrev full_disk : Kernel
full_disk = record patient { writes = success 0 ∷ interrupted ∷ success 0 ∷ failed ∷ [] }

run-patient : mycp_3 3 patient file ≡ record { reason = eof; out = file }
unfolding mycp_3 open_loop copy_loop write_all
run-patient = refl

run-full_disk : mycp_3 3 full_disk file ≡ record { reason = write_error; out = 104 ∷ 101 ∷ [] }
unfolding mycp_3 open_loop copy_loop write_all
run-full_disk = refl

run-prefix_example : (lost : List ℕ) × ((run cat true 2 full_disk file).out ++ lost ≡ file)
run-prefix_example = run-prefix cat true 2 full_disk file

patient-Serves : Serves (length file) patient
patient-Serves = record {
  sources = (ground arith, omega arith);
  targets = (ground arith, omega arith);
  reads = (ground arith, omega arith);
  writes = (ground arith, omega arith);
}

run_complete_example : run cp_4 true 3 patient file ≡ record { reason = eof; out = file }
run_complete_example = run_complete cp_4 3 patient file (omega arith) patient-Serves

abbrev seconds : List Round
seconds =
    record { alarms = 1; reads = interrupted ∷ success 1 ∷ [] }
    ∷ record { alarms = 3; reads = success 9 ∷ [] }
    ∷ record { alarms = 0; reads = success 9 ∷ [] }
    ∷ []

abbrev writes : List Answer
writes = success 9 ∷ success 9 ∷ success 9 ∷ []

tbf_main-IsLimited_example :
    IsLimited seconds file (tbf_main true 2 (success 0 ∷ []) seconds writes file)
tbf_main-IsLimited_example = tbf_main-IsLimited true 2 (success 0 ∷ []) seconds writes file

-- mycp_2.c is interrupted in its second `read`.
abbrev impatient : Kernel
impatient = record patient {
  sources = success 0 ∷ [];
  targets = success 0 ∷ [];
  writes = success 3 ∷ [];
}

run-impatient : mycp_2 3 impatient file ≡ record { reason = read_error; out = 104 ∷ 101 ∷ [] }
unfolding mycp_2 open_once copy_plain write_plain
run-impatient = refl

-- A file of twelve bytes, and a disk that is full behind the fourth.
abbrev blocks : List (List ℕ)
blocks = (1 ∷ 2 ∷ 3 ∷ 4 ∷ 5 ∷ 6 ∷ 7 ∷ 8 ∷ 9 ∷ 10 ∷ []) ∷ (11 ∷ 12 ∷ []) ∷ []

copy_full_example :
    Stdio.copy (blocks ++ [] ∷ []) (replicate 12 3) ≡ record { out = concat blocks; exited = true }
copy_full_example = copy_full blocks (replicate 12 3) (omega arith) (omega arith) (omega arith)

copy_full_disk_example :
    Stdio.copy ((1 ∷ 2 ∷ 3 ∷ 4 ∷ 5 ∷ 6 ∷ []) ∷ []) (4 ∷ replicate 9 0)
    ≡ record { out = 1 ∷ 2 ∷ 3 ∷ 4 ∷ []; exited = false }
copy_full_disk_example = copy_full_disk (1 ∷ 2 ∷ 3 ∷ 4 ∷ 5 ∷ 6 ∷ []) [] 4 9 (omega arith)
