-- ===== src/Copy/Slow/Rate.antt =====
-- How much the slow programs write: never more than their rate allows for the alarms so far.
use apue_li_huiqin.Base.{
  ℕ, zero, suc, ◌+◌, ◌-◌, ◌*◌, ◌≤◌, refl, ap, min, Bool, true, false, not, ◌||◌, Option, none, some,
  List, [], ◌∷◌, arith, ◌==◌, ltb, length, take, drop, length-append, length-take, Bool-cases, inl,
  inr,
}
use apue_li_huiqin.Copy.{
  Reason, no_source, Answer, Verdict, written, broken, waiting, Written, write_all, End, resume,
  open_loop, opened,
}
use apue_li_huiqin.Copy.Write.{write_all-Wrote}
use apue_li_huiqin.Copy.Slow.{
  Round, Reading, moved, broken_off, pending, read_loop, Rest, after_read, cps, slowcat_loop,
  slowcat, alrm_handler, arrive, slowcat_2_loop, slowcat_2,
}

-- A run adds at most `n` bytes to `out`.
abbrev pub Adds : ℕ → List ℕ → End → Type 0
Adds n out e = length e.out ≤ length out + n

length-write_all :
    (ws : List Answer) (buf out : List ℕ)
    → length (write_all ws buf 0 (length buf) out).out ≤ length out + length buf
length-write_all ws buf out =
    let w = write_all-Wrote ws buf 0 (length buf) out refl in
    omega (
      arith,
      ap length w.whole,
      length-append (write_all ws buf 0 (length buf) out).out w.lost,
      length-append out buf,
    )

resume-Adds :
    (n m : ℕ) (out mid : List ℕ) (v : Verdict) (next : End)
    → length mid ≤ length out + m
    → Adds n mid next
    → Adds (m + n) out (resume v mid next)
resume-Adds n m out mid written next h k = omega arith
resume-Adds n m out mid broken next h k = omega arith
resume-Adds n m out mid waiting next h k = omega arith

-- A turn with a `read` of at most `size` bytes adds at most `total`, if what follows a `read` of `len`
-- bytes adds at most `total - len`.
pub after_read-Adds :
    (size total : ℕ) (r : Reading) (ws : List Answer) (input out : List ℕ) (k : Rest)
    → ((len : ℕ)
        → len ≤ size
        → (ws' : List Answer) (i o : List ℕ) → Adds (total - len) o (k len ws' i o))
    → size ≤ total
    → Adds total out (after_read size r ws input out k)
unfolding after_read
after_read-Adds size total pending ws input out k h le = omega arith
after_read-Adds size total broken_off ws input out k h le = omega arith
after_read-Adds size total (moved n) ws input out k h le =
    let m : ℕ = min (suc n) size in
    let buf : List ℕ = take m input in
    let w : Written = write_all ws buf 0 (length buf) out in
    let t = length-take m input in
    elim (Bool-cases (length buf == 0)) [
      | inl e ↦ rw e (omega arith)
      | inr e ↦
          let r =
            resume-Adds (total - length buf) (length buf) out w.out w.verdict
              (k (length buf) w.rest (drop m input) w.out) (length-write_all ws buf out)
              (h (length buf) (omega (arith, t)) w.rest (drop m input) w.out) in
          rw e (omega (arith, r, t))
    ]

-- The alarms of a run.
abbrev pub alarms : List Round → ℕ
alarms [] = 0
alarms (r ∷ rs) = r.alarms + alarms rs

abbrev flag : Bool → ℕ
flag true = 1
flag false = 0

slowcat_loop-Adds :
    (rs : List Round) (loop : Bool) (ws : List Answer) (input out : List ℕ)
    → Adds (cps * (flag loop + alarms rs)) out (slowcat_loop rs loop ws input out)
unfolding slowcat_loop
slowcat_loop-Adds [] loop ws input out = omega arith
slowcat_loop-Adds (r ∷ rs) loop ws input out = elim (Bool-cases (loop || not (r.alarms == 0))) [
  | inl go ↦
      let enough : 1 ≤ flag loop + r.alarms = ground arith in
      rw go (
        after_read-Adds cps (cps * (flag loop + (r.alarms + alarms rs))) (read_loop r.reads) ws
          input out (λ len. slowcat_loop rs false)
          (λ len le ws' i o. omega (arith, slowcat_loop-Adds rs false ws' i o)) (omega arith))
  | inr still ↦ rw still (omega arith)
]

pub opened-Adds :
    (n : ℕ) (o : Option Bool) (r : Reason) (e : End) → Adds n [] e → Adds n [] (opened o r e)
opened-Adds n none r e h = omega arith
opened-Adds n (some true) r e h = h
opened-Adds n (some false) r e h = omega arith

-- slowcat.c writes at most 10 bytes for each alarm.
pub slowcat-rate :
    (argc : ℕ) (sources : List Answer) (rounds : List Round) (ws : List Answer) (input : List ℕ)
    → length (slowcat argc sources rounds ws input).out ≤ 10 * alarms rounds
unfolding slowcat
slowcat-rate argc sources rounds ws input = elim (Bool-cases (ltb argc 2)) [
  | inl e ↦ rw e (omega arith)
  | inr e ↦ rw e (
      omega (
        arith,
        opened-Adds (10 * alarms rounds) (open_loop sources) no_source
            (slowcat_loop rounds false ws input [])
            (omega (arith, slowcat_loop-Adds rounds false ws input [])),
      ))
]

arrive-le : (n token : ℕ) → arrive n token ≤ token + n
unfolding arrive
arrive-le zero token = omega arith
arrive-le (suc n) token = ground (arith, arrive-le n (alrm_handler token))

slowcat_2_loop-Adds :
    (rs : List Round) (token : ℕ) (ws : List Answer) (input out : List ℕ)
    → Adds (cps * (token + alarms rs)) out (slowcat_2_loop rs token ws input out)
unfolding slowcat_2_loop
slowcat_2_loop-Adds [] token ws input out = omega arith
slowcat_2_loop-Adds (r ∷ rs) token ws input out =
    let a = arrive-le r.alarms token in
    elim (Bool-cases (arrive r.alarms token == 0)) [
      | inl none_left ↦ rw none_left (omega arith)
      | inr go ↦
          let enough : 1 ≤ arrive r.alarms token = ground arith in
          rw go (
            after_read-Adds cps (cps * (token + (r.alarms + alarms rs))) (read_loop r.reads) ws
              input out (λ len. slowcat_2_loop rs (arrive r.alarms token - 1))
              (λ len le ws' i o.
                omega (arith, slowcat_2_loop-Adds rs (arrive r.alarms token - 1) ws' i o))
              (omega arith))
    ]

-- slowcat_2.c writes at most 10 bytes for each alarm, whatever it has saved up.
pub slowcat_2-rate :
    (argc : ℕ) (sources : List Answer) (rounds : List Round) (ws : List Answer) (input : List ℕ)
    → length (slowcat_2 argc sources rounds ws input).out ≤ 10 * alarms rounds
unfolding slowcat_2
slowcat_2-rate argc sources rounds ws input = elim (Bool-cases (ltb argc 2)) [
  | inl e ↦ rw e (omega arith)
  | inr e ↦ rw e (
      omega (
        arith,
        opened-Adds (10 * alarms rounds) (open_loop sources) no_source
            (slowcat_2_loop rounds 0 ws input [])
            (omega (arith, slowcat_2_loop-Adds rounds 0 ws input [])),
      ))
]
