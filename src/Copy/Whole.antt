-- ===== src/Copy/Whole.antt =====
-- What the copying programs have written when they stop, whatever the kernel answers.
use apue_li_huiqin.Base.{
  ℕ, suc, ◌<◌, ◌≡◌, refl, sym, ◌∙◌, ap, min, true, List, [], ◌∷◌, ◌++◌, arith, ◌==◌, length, take,
  drop, length-take, take-append-drop, Bool-cases, inl, inr, length-zero,
}
use mathlib.Core.List.{append-nil, append_assoc}
use apue_li_huiqin.Copy.{
  Answer, success, interrupted, failed, Verdict, written, broken, waiting, Written, write_all,
  Reason, eof, read_error, blocked, End, resume, copy_loop,
}
use apue_li_huiqin.Copy.Write.{Wrote, write_all-Wrote}

-- What a run has written is a beginning of `todo` behind `out`, and `lost` is the rest; at the end of
-- the file nothing is lost.
pub record Copied (todo out : List ℕ) (e : End) : Type 0 where
  pub lost : List ℕ
  pub whole : e.out ++ lost ≡ out ++ todo
  pub all : e.reason ≡ eof → lost ≡ []

-- After a buffer `buf` out of `buf ++ more` the run goes on as `resume` says.
resume-Copied :
    (buf more out : List ℕ) (w : Written) (next : End)
    → Wrote buf out w
    → Copied more w.out next
    → (v : Verdict) → w.verdict ≡ v
    → Copied (buf ++ more) out (resume v w.out next)
resume-Copied buf more out w next o c written e = record {
  lost = c.lost;
  whole =
      c.whole
      ∙ ap (λ l. l ++ more)
          (sym (append-nil w.out) ∙ ap (λ l. w.out ++ l) (sym (o.all e)) ∙ o.whole)
      ∙ append_assoc out buf more;
  all = c.all;
}
resume-Copied buf more out w next o c broken e = record {
  lost = o.lost ++ more;
  whole =
      sym (append_assoc w.out o.lost more)
      ∙ ap (λ l. l ++ more) o.whole
      ∙ append_assoc out buf more;
  all = λ r. cc;
}
resume-Copied buf more out w next o c waiting e = record {
  lost = o.lost ++ more;
  whole =
      sym (append_assoc w.out o.lost more)
      ∙ ap (λ l. l ++ more) o.whole
      ∙ append_assoc out buf more;
  all = λ r. cc;
}

nothing-Copied :
    (todo out : List ℕ) (r : Reason)
    → (r ≡ eof → todo ≡ [])
    → Copied todo out (record { reason = r; out = out })
nothing-Copied todo out r h = record { lost = todo; whole = refl; all = h }

-- A `read` of a positive size that moves nothing has met the end of the file.
take-empty : (m : ℕ) (xs : List ℕ) → 0 < m → (length (take m xs) == 0) ≡ true → xs ≡ []
take-empty m xs h e = length-zero xs (ground (arith, length-take m xs))

-- The loop of reading and writing writes the file in order, without gap and without repetition, and
-- the whole of it if it stops at the end of the file.
pub copy_loop-Copied :
    (size : ℕ) (rs ws : List Answer) (input out : List ℕ)
    → 0 < size
    → Copied input out (copy_loop size rs ws input out)
unfolding copy_loop
copy_loop-Copied size [] ws input out h = nothing-Copied input out blocked (λ e. cc)
copy_loop-Copied size (success n ∷ rs) ws input out h =
    let m : ℕ = min (suc n) size in
    let buf : List ℕ = take m input in
    let w : Written = write_all ws buf 0 (length buf) out in
    elim (Bool-cases (length buf == 0)) [
      | inl e ↦ rw e (nothing-Copied input out eof (λ r. take-empty m input (omega arith) e))
      | inr e ↦ rw e (
          rw (take-append-drop m input) at (
            resume-Copied buf (drop m input) out w (copy_loop size rs w.rest (drop m input) w.out)
              (write_all-Wrote ws buf 0 (length buf) out refl)
              (copy_loop-Copied size rs w.rest (drop m input) w.out h) w.verdict refl))
    ]
copy_loop-Copied size (interrupted ∷ rs) ws input out h = copy_loop-Copied size rs ws input out h
copy_loop-Copied size (failed ∷ rs) ws input out h = nothing-Copied input out read_error (λ e. cc)
