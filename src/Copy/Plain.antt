-- ===== src/Copy/Plain.antt =====
-- 26.系统调用IO/mycp_2.c, which takes an interrupted call for a failed one, with a buffer of 10 bytes.
pub mod Retries
use apue_li_huiqin.Base.{
  ℕ, zero, suc, ◌+◌, ◌-◌, min, Bool, true, false, Option, none, some, List, [], ◌∷◌, ◌++◌, ltb,
  ◌==◌, if◌then◌else◌, length, take, drop,
}
use apue_li_huiqin.Copy.{
  Answer, success, interrupted, failed, usage, no_source, no_target, read_error, eof, blocked, End,
  written, broken, waiting, Written, resume, Kernel, opened, stop,
}

-- `while(readnum > 0) { wrnum = write(des_fd, buf + position, readnum); … }`
unfoldable pub write_plain : List Answer → List ℕ → ℕ → ℕ → List ℕ → Written
write_plain [] buf position readnum out =
    if readnum == 0
    then record { verdict = written; rest = []; out = out }
    else record { verdict = waiting; rest = []; out = out }
write_plain (success n ∷ ws) buf position readnum out =
    let wrnum = min (suc n) readnum in
    let rest =
      write_plain ws buf (position + wrnum) (readnum - wrnum)
        (out ++ take wrnum (drop position buf)) in
    if readnum == 0 then record { verdict = written; rest = success n ∷ ws; out = out } else rest
write_plain (interrupted ∷ ws) buf position readnum out =
    if readnum == 0
    then record { verdict = written; rest = interrupted ∷ ws; out = out }
    else record { verdict = broken; rest = ws; out = out }
write_plain (failed ∷ ws) buf position readnum out =
    if readnum == 0
    then record { verdict = written; rest = failed ∷ ws; out = out }
    else record { verdict = broken; rest = ws; out = out }

-- The endless loop.
unfoldable pub copy_plain : ℕ → List Answer → List Answer → List ℕ → List ℕ → End
unfolding write_plain
copy_plain size [] ws input out = record { reason = blocked; out = out }
copy_plain size (success n ∷ rs) ws input out =
    let buf = take (min (suc n) size) input in
    let w = write_plain ws buf 0 (length buf) out in
    let next = copy_plain size rs w.rest (drop (min (suc n) size) input) w.out in
    let end = resume w.verdict w.out next in
    if length buf == 0 then record { reason = eof; out = out } else end
copy_plain size (interrupted ∷ rs) ws input out = record { reason = read_error; out = out }
copy_plain size (failed ∷ rs) ws input out = record { reason = read_error; out = out }

-- `open`, tried once.
unfoldable pub open_once : List Answer → Option Bool
open_once [] = none
open_once (success n ∷ os) = some true
open_once (interrupted ∷ os) = some false
open_once (failed ∷ os) = some false

abbrev pub plain_bufsize : ℕ
plain_bufsize = 10

-- `main` of mycp_2.c.
unfoldable pub mycp_2 : ℕ → Kernel → List ℕ → End
unfolding copy_plain open_once
mycp_2 argc k input =
    if ltb argc 3
    then stop usage
    else opened (open_once k.sources) no_source (
        opened (open_once k.targets) no_target (copy_plain plain_bufsize k.reads k.writes input []))
