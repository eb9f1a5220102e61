-- ===== src/Copy/Slow/Prefix.antt =====
-- What 30.信号专题/slowcat.c and slowcat_2.c and 31.线程专题/mytbf_thread_cond/main.c write: the file in
-- order, and never more of it than their rate allows.
use mathlib.Core.List.{append-nil, append_assoc}
use apue_li_huiqin.Base.{
  ℕ, suc, ◌-◌, ◌*◌, ◌≤◌, ◌≡◌, refl, sym, ◌∙◌, ap, min, Bool, true, false, not, ◌||◌, Option, none,
  some, List, [], ◌∷◌, ◌++◌, ◌==◌, ltb, length, take, drop, take-append-drop, Bool-cases, inl, inr,
}
use apue_li_huiqin.Bucket.{Mytbf, mytbf_fetchtoken}
use apue_li_huiqin.Copy.{
  Reason, no_source, Answer, Verdict, written, broken, waiting, Written, write_all, End, resume,
  open_loop, opened,
}
use apue_li_huiqin.Copy.Write.{Wrote, write_all-Wrote}
use apue_li_huiqin.Copy.Slow.{
  Round, Reading, moved, broken_off, pending, read_loop, Rest, after_read, cps, burst, bufsize,
  slowcat_loop, slowcat, arrive, slowcat_2_loop, slowcat_2, refills, give_back, Fetched, got,
  refused, sleeping, fetched, after_fetch, tbf_loop, tbf_main,
}
use apue_li_huiqin.Copy.Slow.Rate.{alarms, slowcat-rate, slowcat_2-rate}
use apue_li_huiqin.Copy.Slow.Bucket.{tbf_main-rate}

-- What a run has written behind `out` is a beginning of `todo`.
abbrev pub Begins : List ℕ → List ℕ → End → Type 0
Begins todo out e = (lost : List ℕ) × (e.out ++ lost ≡ out ++ todo)

resume-Begins :
    (buf more out : List ℕ) (w : Written) (next : End)
    → Wrote buf out w
    → Begins more w.out next
    → (v : Verdict) → w.verdict ≡ v
    → Begins (buf ++ more) out (resume v w.out next)
resume-Begins buf more out w next o (lost, whole) written e = (
  lost,
  whole
      ∙ ap (λ l. l ++ more)
          (sym (append-nil w.out) ∙ ap (λ l. w.out ++ l) (sym (o.all e)) ∙ o.whole)
      ∙ append_assoc out buf more,
)
resume-Begins buf more out w next o c broken e = (
  o.lost ++ more,
  sym (append_assoc w.out o.lost more) ∙ ap (λ l. l ++ more) o.whole ∙ append_assoc out buf more,
)
resume-Begins buf more out w next o c waiting e = (
  o.lost ++ more,
  sym (append_assoc w.out o.lost more) ∙ ap (λ l. l ++ more) o.whole ∙ append_assoc out buf more,
)

after_read-Begins :
    (size : ℕ) (r : Reading) (ws : List Answer) (input out : List ℕ) (k : Rest)
    → ((len : ℕ) (ws' : List Answer) (i o : List ℕ) → Begins i o (k len ws' i o))
    → Begins input out (after_read size r ws input out k)
unfolding after_read
after_read-Begins size pending ws input out k h = (input, refl)
after_read-Begins size broken_off ws input out k h = (input, refl)
after_read-Begins size (moved n) ws input out k h =
    let m : ℕ = min (suc n) size in
    let buf : List ℕ = take m input in
    let w : Written = write_all ws buf 0 (length buf) out in
    elim (Bool-cases (length buf == 0)) [
      | inl e ↦ rw e (input, refl)
      | inr e ↦ rw e (
          rw (take-append-drop m input) at (
            resume-Begins buf (drop m input) out w (k (length buf) w.rest (drop m input) w.out)
              (write_all-Wrote ws buf 0 (length buf) out refl)
              (h (length buf) w.rest (drop m input) w.out) w.verdict refl))
    ]

slowcat_loop-Begins :
    (rs : List Round) (loop : Bool) (ws : List Answer) (input out : List ℕ)
    → Begins input out (slowcat_loop rs loop ws input out)
unfolding slowcat_loop
slowcat_loop-Begins [] loop ws input out = (input, refl)
slowcat_loop-Begins (r ∷ rs) loop ws input out = elim (Bool-cases (loop || not (r.alarms == 0))) [
  | inl go ↦ rw go (
      after_read-Begins cps (read_loop r.reads) ws input out (λ len. slowcat_loop rs false)
        (λ len. slowcat_loop-Begins rs false))
  | inr still ↦ rw still (input, refl)
]

slowcat_2_loop-Begins :
    (rs : List Round) (token : ℕ) (ws : List Answer) (input out : List ℕ)
    → Begins input out (slowcat_2_loop rs token ws input out)
unfolding slowcat_2_loop
slowcat_2_loop-Begins [] token ws input out = (input, refl)
slowcat_2_loop-Begins (r ∷ rs) token ws input out =
    let t : ℕ = arrive r.alarms token in
    elim (Bool-cases (t == 0)) [
      | inl none_left ↦ rw none_left (input, refl)
      | inr go ↦ rw go (
          after_read-Begins cps (read_loop r.reads) ws input out (λ len. slowcat_2_loop rs (t - 1))
            (λ len. slowcat_2_loop-Begins rs (t - 1)))
    ]

after_fetch-Begins :
    (rs : List Round) (f : Fetched) (reads ws : List Answer) (input out : List ℕ)
    → ((me : Mytbf) (ws' : List Answer) (i o : List ℕ) → Begins i o (tbf_loop rs me ws' i o))
    → Begins input out (after_fetch f reads ws input out (tbf_loop rs))
unfolding after_fetch
after_fetch-Begins rs sleeping reads ws input out h = (input, refl)
after_fetch-Begins rs refused reads ws input out h = (input, refl)
after_fetch-Begins rs (got left size) reads ws input out h =
    after_read-Begins size (read_loop reads) ws input out
      (λ len. tbf_loop rs (give_back size len left)) (λ len. h (give_back size len left))

tbf_loop-Begins :
    (rs : List Round) (me : Mytbf) (ws : List Answer) (input out : List ℕ)
    → Begins input out (tbf_loop rs me ws input out)
unfolding tbf_loop
tbf_loop-Begins [] me ws input out = (input, refl)
tbf_loop-Begins (r ∷ rs) me ws input out =
    after_fetch-Begins rs (fetched (mytbf_fetchtoken [] bufsize (refills r.alarms me))) r.reads ws
      input out (tbf_loop-Begins rs)

opened-Begins :
    (input : List ℕ) (o : Option Bool) (r : Reason) (e : End)
    → Begins input [] e
    → Begins input [] (opened o r e)
opened-Begins input none r e h = (input, refl)
opened-Begins input (some true) r e h = h
opened-Begins input (some false) r e h = (input, refl)

tbf_main-Begins :
    (bucket : Bool) (argc : ℕ) (sources : List Answer) (rounds : List Round) (ws : List Answer)
    (input : List ℕ)
    → Begins input [] (tbf_main bucket argc sources rounds ws input)
unfolding tbf_main
tbf_main-Begins false argc sources rounds ws input = elim (Bool-cases (ltb argc 2)) [
  | inl e ↦ rw e (input, refl)
  | inr e ↦ rw e (input, refl)
]
tbf_main-Begins true argc sources rounds ws input =
    let me : Mytbf = record { cps = cps; burst = burst; token = 0; pos = 0 } in
    elim (Bool-cases (ltb argc 2)) [
      | inl e ↦ rw e (input, refl)
      | inr e ↦ rw e (
          opened-Begins input (open_loop sources) no_source (tbf_loop rounds me ws input [])
            (tbf_loop-Begins rounds me ws input []))
    ]

-- What a program has written is a beginning of the file, with at most 10 bytes for each alarm.
abbrev pub IsLimited : List Round → List ℕ → End → Type 0
IsLimited rounds input e = Begins input [] e × (length e.out ≤ 10 * alarms rounds)

-- Whatever the kernel answers and wherever slowcat.c stops, what it has written is a beginning of the
-- file, with at most 10 bytes for each alarm.
slowcat-IsLimited :
    (argc : ℕ) (sources : List Answer) (rounds : List Round) (ws : List Answer) (input : List ℕ)
    → IsLimited rounds input (slowcat argc sources rounds ws input)
unfolding slowcat
slowcat-IsLimited argc sources rounds ws input =
    let begins : Begins input [] (slowcat argc sources rounds ws input) =
      elim (Bool-cases (ltb argc 2)) [
        | inl e ↦ rw e (input, refl)
        | inr e ↦ rw e (
            opened-Begins input (open_loop sources) no_source
              (slowcat_loop rounds false ws input [])
              (slowcat_loop-Begins rounds false ws input []))
      ] in
    (begins, slowcat-rate argc sources rounds ws input)

-- Whatever the kernel answers and wherever slowcat_2.c stops, what it has written is a beginning of the
-- file, with at most 10 bytes for each alarm, whatever it has saved up.
slowcat_2-IsLimited :
    (argc : ℕ) (sources : List Answer) (rounds : List Round) (ws : List Answer) (input : List ℕ)
    → IsLimited rounds input (slowcat_2 argc sources rounds ws input)
unfolding slowcat_2
slowcat_2-IsLimited argc sources rounds ws input =
    let begins : Begins input [] (slowcat_2 argc sources rounds ws input) =
      elim (Bool-cases (ltb argc 2)) [
        | inl e ↦ rw e (input, refl)
        | inr e ↦ rw e (
            opened-Begins input (open_loop sources) no_source (slowcat_2_loop rounds 0 ws input [])
              (slowcat_2_loop-Begins rounds 0 ws input []))
      ] in
    (begins, slowcat_2-rate argc sources rounds ws input)

-- Whatever the kernel answers and wherever main.c of the token bucket stops, what it has written is a
-- beginning of the file, with at most 10 bytes for each round of the filling thread.
pub tbf_main-IsLimited :
    (bucket : Bool) (argc : ℕ) (sources : List Answer) (rounds : List Round) (ws : List Answer)
    (input : List ℕ)
    → IsLimited rounds input (tbf_main bucket argc sources rounds ws input)
unfolding tbf_main
tbf_main-IsLimited bucket argc sources rounds ws input = (
  tbf_main-Begins bucket argc sources rounds ws input,
  tbf_main-rate bucket argc sources rounds ws input,
)
