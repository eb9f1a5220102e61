-- ===== src/Copy/Plain/Retries.antt =====
-- 26.系统调用IO/mycp_2.c against the programs that try again after EINTR.
use apue_li_huiqin.Base.{
  ℕ, suc, ◌+◌, ◌-◌, ◌≤◌, ◌≡◌, refl, ap, ◌∙◌, min, Bool, true, false, List, [], ◌∷◌, ◌++◌, arith,
  ltb, ◌==◌, if◌then◌else◌, length, take, drop, map, Bool-cases, inl, inr,
}
use apue_li_huiqin.Copy.{
  Answer, success, interrupted, failed, no_source, no_target, End, Written, write_all, copy_loop,
  open_loop, Kernel, opened,
}
use apue_li_huiqin.Copy.Whole.{Copied, copy_loop-Copied}
use apue_li_huiqin.Copy.Complete.{opened-Copied}
use apue_li_huiqin.Copy.Plain.{write_plain, copy_plain, open_once, plain_bufsize, mycp_2}

-- An answer as mycp_2.c takes it.
abbrev pub not_retried : Answer → Answer
not_retried (success n) = success n
not_retried interrupted = failed
not_retried failed = failed

abbrev after : Written → Written
after w = record w { rest = map not_retried w.rest }

after-if :
    (b : Bool) (v w : Written) → after (if b then v else w) ≡ (if b then after v else after w)
after-if true v w = refl
after-if false v w = refl

write_plain-write_all :
    (ws : List Answer) (buf : List ℕ) (pos len : ℕ) (out : List ℕ)
    → write_all (map not_retried ws) buf pos len out ≡ after (write_plain ws buf pos len out)
unfolding write_all write_plain
write_plain-write_all [] buf pos len out = elim (Bool-cases (len == 0)) [
  | inl e ↦ rw e refl
  | inr e ↦ rw e refl
]
write_plain-write_all (success n ∷ ws) buf pos len out =
    let m : ℕ = min (suc n) len in
    elim (Bool-cases (len == 0)) [
      | inl e ↦ rw e refl
      | inr e ↦
          rw e (write_plain-write_all ws buf (pos + m) (len - m) (out ++ take m (drop pos buf)))
    ]
write_plain-write_all (interrupted ∷ ws) buf pos len out = elim (Bool-cases (len == 0)) [
  | inl e ↦ rw e refl
  | inr e ↦ rw e refl
]
write_plain-write_all (failed ∷ ws) buf pos len out = elim (Bool-cases (len == 0)) [
  | inl e ↦ rw e refl
  | inr e ↦ rw e refl
]

copy_plain-copy_loop :
    (size : ℕ) (rs ws : List Answer) (input out : List ℕ)
    → copy_plain size rs ws input out
      ≡ copy_loop size (map not_retried rs) (map not_retried ws) input out
unfolding copy_plain copy_loop
copy_plain-copy_loop size [] ws input out = refl
copy_plain-copy_loop size (interrupted ∷ rs) ws input out = refl
copy_plain-copy_loop size (failed ∷ rs) ws input out = refl
copy_plain-copy_loop size (success n ∷ rs) ws input out =
    let m : ℕ = min (suc n) size in
    let buf : List ℕ = take m input in
    let w : Written = write_plain ws buf 0 (length buf) out in
    let same = write_plain-write_all ws buf 0 (length buf) out in
    let next = copy_plain-copy_loop size rs w.rest (drop m input) w.out in
    elim (Bool-cases (length buf == 0)) [ inl e ↦ rw e refl | inr e ↦ rw (e, same, next) refl ]

open_once-open_loop : (os : List Answer) → open_once os ≡ open_loop (map not_retried os)
unfolding open_once open_loop
open_once-open_loop [] = refl
open_once-open_loop (success n ∷ os) = refl
open_once-open_loop (interrupted ∷ os) = refl
open_once-open_loop (failed ∷ os) = refl

-- The kernel as mycp_2.c takes it: each interruption is an error of another kind.
abbrev pub without_retries : Kernel → Kernel
without_retries k = record {
  sources = map not_retried k.sources;
  targets = map not_retried k.targets;
  reads = map not_retried k.reads;
  writes = map not_retried k.writes;
}

-- The loops of mycp_3.c with a buffer of 10 bytes.
abbrev pub with_retries : Kernel → List ℕ → End
with_retries k input =
    opened (open_loop k.sources) no_source
      (opened (open_loop k.targets) no_target (copy_loop plain_bufsize k.reads k.writes input []))

with_retries-Copied : (k : Kernel) (input : List ℕ) → Copied input [] (with_retries k input)
with_retries-Copied k input =
    opened-Copied (open_loop k.sources) no_source input _ (λ e. cc)
      (opened-Copied (open_loop k.targets) no_target input _ (λ e. cc)
        (copy_loop-Copied plain_bufsize k.reads k.writes input [] (omega arith)))

-- mycp_2.c, with its file names, does what the loops of mycp_3.c do with a buffer of 10 bytes where each
-- interruption is an error of another kind; and whatever the kernel answers, what it has written is a
-- beginning of the file.
pub mycp_2-with_retries :
    (argc : ℕ) (k : Kernel) (input : List ℕ)
    → 3 ≤ argc
    → (mycp_2 argc k input ≡ with_retries (without_retries k) input)
      × ((lost : List ℕ) × ((mycp_2 argc k input).out ++ lost ≡ input))
unfolding mycp_2
mycp_2-with_retries argc k input enough =
    let e : ltb argc 3 ≡ false = ground arith in
    let same : mycp_2 argc k input ≡ with_retries (without_retries k) input =
      rw
        (
          e,
          open_once-open_loop k.sources,
          open_once-open_loop k.targets,
          copy_plain-copy_loop plain_bufsize k.reads k.writes input [],
        )
        refl in
    let c = with_retries-Copied (without_retries k) input in
    (same, (c.lost, ap (λ r. r.out ++ c.lost) same ∙ c.whole))
