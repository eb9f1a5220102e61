-- ===== src/Copy.antt =====
-- The copying programs over `open`, `read` and `write`: 26.系统调用IO/mycp_3.c and mycp_4.c,
-- 30.信号专题/mycat.c and mycp_SysIO.c. What the kernel answers is an argument, a list of answers for
-- each of the calls: `success n` lets a call move up to n + 1 bytes, as many as it is asked for and,
-- for `read`, as the file still has; a `read` at the end of the file moves none. A list that is used up
-- leaves the program `blocked`.
pub mod Write
pub mod Whole
pub mod Complete
pub mod Slow
pub mod Plain
pub mod Stdio
mod Tests
use apue_li_huiqin.Base.{
  ℕ, zero, suc, ◌+◌, ◌-◌, min, Bool, true, false, Option, none, some, List, [], ◌∷◌, ◌++◌, ltb,
  ◌==◌, if◌then◌else◌, length, take, drop,
}

pub data Answer : Type 0 where
  success : ℕ → Answer
  interrupted : Answer  -- -1 with EINTR
  failed : Answer  -- -1 with another `errno`

-- Why a program ends.
pub data Reason : Type 0 where
  usage no_memory no_source no_target bad_size read_error write_error eof blocked : Reason

-- The argument of `exit`. (A program that is blocked has none.)
pub status : Reason → Option ℕ
status eof = some 0
status read_error = some 0
status blocked = none
status _ = some 1

-- The end of a run: why, and what was written.
pub record End : Type 0 where
  pub reason : Reason
  pub out : List ℕ

-- What the loop that writes a buffer leaves.
pub data Verdict : Type 0 where
  written broken waiting : Verdict

pub record Written : Type 0 where
  pub verdict : Verdict
  pub rest : List Answer
  pub out : List ℕ

-- `while (len > 0) { ret = write(dfd, buf + pos, len); … pos += ret; len -= ret; }`
pub write_all : List Answer → List ℕ → ℕ → ℕ → List ℕ → Written
write_all [] buf pos len out =
    if len == 0
    then record { verdict = written; rest = []; out = out }
    else record { verdict = waiting; rest = []; out = out }
write_all (success n ∷ ws) buf pos len out =
    let ret = min (suc n) len in
    let rest = write_all ws buf (pos + ret) (len - ret) (out ++ take ret (drop pos buf)) in
    if len == 0 then record { verdict = written; rest = success n ∷ ws; out = out } else rest
write_all (interrupted ∷ ws) buf pos len out =
    let rest = write_all ws buf pos len out in
    if len == 0 then record { verdict = written; rest = interrupted ∷ ws; out = out } else rest
write_all (failed ∷ ws) buf pos len out =
    if len == 0
    then record { verdict = written; rest = failed ∷ ws; out = out }
    else record { verdict = broken; rest = ws; out = out }

-- What follows the loop that writes the buffer: the next round, or the end of the program.
abbrev pub resume : Verdict → List ℕ → End → End
resume written out next = next
resume broken out next = record { reason = write_error; out = out }
resume waiting out next = record { reason = blocked; out = out }

-- The endless loop of reading and writing, with a buffer of `size` bytes and what the file still has.
pub copy_loop : ℕ → List Answer → List Answer → List ℕ → List ℕ → End
copy_loop size [] ws input out = record { reason = blocked; out = out }
copy_loop size (success n ∷ rs) ws input out =
    let buf = take (min (suc n) size) input in
    let w = write_all ws buf 0 (length buf) out in
    let next = copy_loop size rs w.rest (drop (min (suc n) size) input) w.out in
    let end = resume w.verdict w.out next in
    if length buf == 0 then record { reason = eof; out = out } else end
copy_loop size (interrupted ∷ rs) ws input out = copy_loop size rs ws input out
copy_loop size (failed ∷ rs) ws input out = record { reason = read_error; out = out }

-- `do … while (fd < 0)`: another try after EINTR; `none` while all tries are interrupted.
pub open_loop : List Answer → Option Bool
open_loop [] = none
open_loop (success n ∷ os) = some true
open_loop (interrupted ∷ os) = open_loop os
open_loop (failed ∷ os) = some false

-- The answers of the kernel to a whole run.
pub record Kernel : Type 0 where
  pub sources : List Answer
  pub targets : List Answer
  pub reads : List Answer
  pub writes : List Answer

abbrev pub bufsize : ℕ
bufsize = 1024

abbrev pub stop : Reason → End
stop r = record { reason = r; out = [] }

-- A call that opens a file, with what comes after it.
abbrev pub opened : Option Bool → Reason → End → End
opened none r next = stop blocked
opened (some true) r next = next
opened (some false) r next = stop r

-- `main` of mycp_3.c.
pub mycp_3 : ℕ → Kernel → List ℕ → End
mycp_3 argc k input =
    if ltb argc 3
    then stop usage
    else opened (open_loop k.sources) no_source
        (opened (open_loop k.targets) no_target (copy_loop bufsize k.reads k.writes input []))

-- `main` of mycp_4.c; the `Bool` is what `malloc` answers.
pub mycp_4 : Bool → ℕ → Kernel → List ℕ → End
mycp_4 memory argc k input =
    if ltb argc 3
    then stop usage
    else if memory
    then opened (open_loop k.sources) no_source
        (opened (open_loop k.targets) no_target (copy_loop bufsize k.reads k.writes input []))
    else stop no_memory

-- `main` of mycp_SysIO.c.
pub mycp_sys_io : ℕ → Kernel → List ℕ → End
mycp_sys_io argc k input =
    if ltb argc 3
    then stop usage
    else opened (open_loop k.sources) no_source
        (opened (open_loop k.targets) no_target (copy_loop bufsize k.reads k.writes input []))

-- `main` of mycat.c, which writes to the standard output.
pub mycat : ℕ → Kernel → List ℕ → End
mycat argc k input =
    if ltb argc 2
    then stop usage
    else opened (open_loop k.sources) no_source (copy_loop bufsize k.reads k.writes input [])
