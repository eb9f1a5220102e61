-- ===== src/Copy/Complete.antt =====
-- The copying programs as wholes: what each has written when it stops, and that each copies the whole
-- file where the kernel lets it.
use apue_li_huiqin.Base.{
  ℕ, suc, ◌≤◌, ◌<◌, ◌≡◌, refl, sym, ◌∙◌, ap, min, Bool, true, false, Option, some, none, List, [],
  ◌∷◌, ◌++◌, arith, ◌==◌, ltb, length, take, drop, length-drop, length-take, All, Bool-cases, inl,
  inr,
}
use mathlib.Core.List.{append-nil}
use apue_li_huiqin.Copy.{
  Answer, success, interrupted, failed, Written, write_all, Reason, usage, no_memory, no_source,
  no_target, eof, blocked, End, copy_loop, open_loop, Kernel, bufsize, opened, stop, mycp_3, mycp_4,
  mycp_sys_io, mycat,
}
use apue_li_huiqin.Copy.Write.{IsHealthy, successes, write_all-Finished}
use apue_li_huiqin.Copy.Whole.{Copied, copy_loop-Copied}

-- The loop reaches the end of the file, where no call fails, `read` succeeds once more than the file
-- has bytes, and `write` as often as it has bytes.
copy_loop-eof :
    (size : ℕ) (rs ws : List Answer) (input out : List ℕ)
    → 0 < size
    → All IsHealthy rs
    → All IsHealthy ws
    → length input < successes rs
    → length input ≤ successes ws
    → (copy_loop size rs ws input out).reason ≡ eof
unfolding copy_loop
copy_loop-eof size [] ws input out h hr hw er ew = absurd (omega arith)
copy_loop-eof size (success n ∷ rs) ws input out h hr hw er ew =
    let m : ℕ = min (suc n) size in
    let buf : List ℕ = take m input in
    let w : Written = write_all ws buf 0 (length buf) out in
    let t = length-take m input in
    let f = write_all-Finished ws buf 0 (length buf) out hw (omega (arith, t)) in
    elim (Bool-cases (length buf == 0)) [
      | inl e ↦ rw e
      | inr e ↦
          let some_read : 0 < length buf = ground arith in
          let d = length-drop m input in
          rw (e, f.done)
            (copy_loop-eof size rs w.rest (drop m input) w.out h hr.1 f.healthy
              (omega (arith, t, d)) (omega (arith, t, d, f.used)))
    ]
copy_loop-eof size (interrupted ∷ rs) ws input out h hr hw er ew =
    copy_loop-eof size rs ws input out h hr.1 hw (omega arith) ew
copy_loop-eof size (failed ∷ rs) ws input out h hr hw er ew = absurd (hr.0)

open_loop-success :
    (os : List Answer) → All IsHealthy os → 0 < successes os → open_loop os ≡ some true
unfolding open_loop
open_loop-success [] h e = absurd (omega arith)
open_loop-success (success n ∷ os) h e = refl
open_loop-success (interrupted ∷ os) h e = open_loop-success os h.1 (omega arith)
open_loop-success (failed ∷ os) h e = absurd (h.0)

-- The programs that this module is about.
pub data Program : Type 0 where
  cp_3 cp_4 cp_sys_io cat : Program

-- The memory answer is for the one program that asks.
abbrev pub run : Program → Bool → ℕ → Kernel → List ℕ → End
run cp_3 memory argc k input = mycp_3 argc k input
run cp_4 memory argc k input = mycp_4 memory argc k input
run cp_sys_io memory argc k input = mycp_sys_io argc k input
run cat memory argc k input = mycat argc k input

pub stop-Copied : (input : List ℕ) (r : Reason) → (r ≡ eof → ⊥) → Copied input [] (stop r)
stop-Copied input r h = record { lost = input; whole = refl; all = λ e. absurd (h e) }

pub opened-Copied :
    (o : Option Bool) (r : Reason) (input : List ℕ) (next : End)
    → (r ≡ eof → ⊥)
    → Copied input [] next
    → Copied input [] (opened o r next)
opened-Copied none r input next h c = stop-Copied input blocked (λ e. cc)
opened-Copied (some true) r input next h c = c
opened-Copied (some false) r input next h c = stop-Copied input r h

-- Both files opened, then the loop.
both-Copied :
    (k : Kernel) (input : List ℕ)
    → Copied input [] (
        opened
          (open_loop k.sources)
          no_source
          (opened (open_loop k.targets) no_target (copy_loop bufsize k.reads k.writes input [])))
both-Copied k input =
    opened-Copied (open_loop k.sources) no_source input _ (λ e. cc)
      (opened-Copied (open_loop k.targets) no_target input _ (λ e. cc)
        (copy_loop-Copied bufsize k.reads k.writes input [] (omega arith)))

run-Copied :
    (p : Program) (memory : Bool) (argc : ℕ) (k : Kernel) (input : List ℕ)
    → Copied input [] (run p memory argc k input)
unfolding mycp_3 mycp_4 mycp_sys_io mycat
run-Copied cp_3 memory argc k input = elim (Bool-cases (ltb argc 3)) [
  | inl e ↦ rw e (stop-Copied input usage (λ e. cc))
  | inr e ↦ rw e (both-Copied k input)
]
run-Copied cp_4 true argc k input = elim (Bool-cases (ltb argc 3)) [
  | inl e ↦ rw e (stop-Copied input usage (λ e. cc))
  | inr e ↦ rw e (both-Copied k input)
]
run-Copied cp_4 false argc k input = elim (Bool-cases (ltb argc 3)) [
  | inl e ↦ rw e (stop-Copied input usage (λ e. cc))
  | inr e ↦ rw e (stop-Copied input no_memory (λ e. cc))
]
run-Copied cp_sys_io memory argc k input = elim (Bool-cases (ltb argc 3)) [
  | inl e ↦ rw e (stop-Copied input usage (λ e. cc))
  | inr e ↦ rw e (both-Copied k input)
]
run-Copied cat memory argc k input = elim (Bool-cases (ltb argc 2)) [
  | inl e ↦ rw e (stop-Copied input usage (λ e. cc))
  | inr e ↦ rw e (
      opened-Copied (open_loop k.sources) no_source input _ (λ e. cc)
        (copy_loop-Copied bufsize k.reads k.writes input [] (omega arith)))
]

-- Whatever the kernel answers and wherever a program stops, what it has written is a beginning of the
-- file: the bytes in order, without gap and without repetition.
pub run-prefix :
    (p : Program) (memory : Bool) (argc : ℕ) (k : Kernel) (input : List ℕ)
    → (lost : List ℕ) × ((run p memory argc k input).out ++ lost ≡ input)
run-prefix p memory argc k input = let c = run-Copied p memory argc k input in (c.lost, c.whole)

-- A kernel that fails no call, opens each file at last, and answers `read` and `write` often enough for
-- a file of `n` bytes.
pub record Serves (n : ℕ) (k : Kernel) : Type 0 where
  pub sources : All IsHealthy k.sources × (0 < successes k.sources)
  pub targets : All IsHealthy k.targets × (0 < successes k.targets)
  pub reads : All IsHealthy k.reads × (n < successes k.reads)
  pub writes : All IsHealthy k.writes × (n ≤ successes k.writes)

run-eof :
    (p : Program) (argc : ℕ) (k : Kernel) (input : List ℕ)
    → 3 ≤ argc
    → Serves (length input) k
    → (run p true argc k input).reason ≡ eof
unfolding mycp_3 mycp_4 mycp_sys_io mycat
run-eof p argc k input h s =
    let a = open_loop-success k.sources s.sources.0 s.sources.1 in
    let b = open_loop-success k.targets s.targets.0 s.targets.1 in
    let c =
      copy_loop-eof bufsize k.reads k.writes input [] (omega arith) s.reads.0 s.writes.0 s.reads.1
        s.writes.1 in
    ground (arith, a, b, c)

-- Where the kernel fails no call, interrupts as it likes and moves at least a byte in each `read` and
-- `write` that succeeds, each program ends at the end of the file and has written exactly the file.
pub run_complete :
    (p : Program) (argc : ℕ) (k : Kernel) (input : List ℕ)
    → 3 ≤ argc
    → Serves (length input) k
    → run p true argc k input ≡ record { reason = eof; out = input }
run_complete p argc k input h s =
    let e = run-eof p argc k input h s in
    let c = run-Copied p true argc k input in
    let w : (run p true argc k input).out ≡ input =
      sym (append-nil (run p true argc k input).out)
      ∙ ap (λ l. (run p true argc k input).out ++ l) (sym (c.all e))
      ∙ c.whole in
    λ i. record { reason = e i; out = w i }
