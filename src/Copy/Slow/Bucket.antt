-- ===== src/Copy/Slow/Bucket.antt =====
-- How much 31.线程专题/mytbf_thread_cond/main.c writes: never more than the rate of its token bucket
-- allows for the rounds of the filling thread so far.
use apue_li_huiqin.Base.{
  ℕ, zero, suc, ◌+◌, ◌-◌, ◌*◌, ◌≤◌, ◌≡◌, refl, ◌∙◌, Bool, true, false, Option, none, some, List, [],
  ◌∷◌, arith, ltb, length, Bool-cases, inl, inr,
}
use apue_li_huiqin.Bucket.{Mytbf, Code, ret, einval, undefined, refill, mytbf_fetchtoken}
use apue_li_huiqin.Bucket.Traffic.{
  Spends, mytbf_fetchtoken-Spends, Gains, refill-Gains, mytbf_returntoken-Gains,
}
use apue_li_huiqin.Copy.{Answer, no_source, open_loop}
use apue_li_huiqin.Copy.Slow.{
  Round, read_loop, cps, burst, bufsize, refills, give_back, Fetched, got, refused, sleeping,
  fetched, after_fetch, tbf_loop, tbf_main,
}
use apue_li_huiqin.Copy.Slow.Rate.{Adds, after_read-Adds, alarms, opened-Adds}

-- At the rate of the program.
refills-Gains : (n : ℕ) (me : Mytbf) → me.cps ≡ 10 → Gains (10 * n) me (refills n me)
unfolding refills
refills-Gains zero me e = record { rate = refl; most = omega arith }
refills-Gains (suc n) me e =
    let g = refill-Gains me in
    let h = refills-Gains n (refill me) (g.rate ∙ e) in
    record { rate = h.rate ∙ g.rate; most = omega (arith, g.most, h.most, e) }

give_back-Gains : (size len : ℕ) (me : Mytbf) → Gains (size - len) me (give_back size len me)
unfolding give_back
give_back-Gains size len me = elim (Bool-cases (ltb len size)) [
  | inl e ↦ rw e (mytbf_returntoken-Gains (size - len) me)
  | inr e ↦ rw e (record { rate = refl; most = omega arith })
]

-- What a fetch hands to the turn.
abbrev Handed : Mytbf → Fetched → Type 0
Handed me (got left n) = (left.token + n ≡ me.token) × (left.cps ≡ me.cps)
Handed me refused = Unit
Handed me sleeping = Unit

fetched-Handed : (me : Mytbf) (o : Option (Mytbf × Code)) → Spends me o → Handed me (fetched o)
unfolding fetched
fetched-Handed me none h = tt
fetched-Handed me (some (left, ret n)) h = h
fetched-Handed me (some (left, einval)) h = tt
fetched-Handed me (some (left, undefined)) h = tt

-- What the loop with the rounds `rs` adds, for every bucket that it begins with.
abbrev LoopAdds : List Round → Type 0
LoopAdds rs =
    (me : Mytbf) (ws : List Answer) (input out : List ℕ)
    → me.cps ≡ 10
    → Adds (me.token + 10 * alarms rs) out (tbf_loop rs me ws input out)

after_fetch-Adds :
    (rs : List Round) (me : Mytbf) (f : Fetched) (reads ws : List Answer) (input out : List ℕ)
    → LoopAdds rs
    → me.cps ≡ 10
    → Handed me f
    → Adds (me.token + 10 * alarms rs) out (after_fetch f reads ws input out (tbf_loop rs))
unfolding after_fetch
after_fetch-Adds rs me sleeping reads ws input out loop e h = omega arith
after_fetch-Adds rs me refused reads ws input out loop e h = omega arith
after_fetch-Adds rs me (got left size) reads ws input out loop e h =
    after_read-Adds size (me.token + 10 * alarms rs) (read_loop reads) ws input out
      (λ len. tbf_loop rs (give_back size len left))
      (λ len le ws' i o.
        let g = give_back-Gains size len left in
        omega (arith, h.0, g.most, loop (give_back size len left) ws' i o (g.rate ∙ h.1 ∙ e)))
      (omega (arith, h.0))

tbf_loop-Adds : (rs : List Round) → LoopAdds rs
unfolding tbf_loop
tbf_loop-Adds [] me ws input out e = omega arith
tbf_loop-Adds (r ∷ rs) me ws input out e =
    let full : Mytbf = refills r.alarms me in
    let g = refills-Gains r.alarms me e in
    let t =
      after_fetch-Adds rs full (fetched (mytbf_fetchtoken [] bufsize full)) r.reads ws input out
        (tbf_loop-Adds rs) (g.rate ∙ e)
        (fetched-Handed full (mytbf_fetchtoken [] bufsize full)
          (mytbf_fetchtoken-Spends bufsize full)) in
    omega (arith, g.most, t)

-- main.c writes at most 10 bytes for each round of the filling thread.
pub tbf_main-rate :
    (bucket : Bool) (argc : ℕ) (sources : List Answer) (rounds : List Round) (ws : List Answer)
    (input : List ℕ)
    → length (tbf_main bucket argc sources rounds ws input).out ≤ 10 * alarms rounds
unfolding tbf_main
tbf_main-rate false argc sources rounds ws input = elim (Bool-cases (ltb argc 2)) [
  | inl e ↦ rw e (omega arith)
  | inr e ↦ rw e (omega arith)
]
tbf_main-rate true argc sources rounds ws input =
    let me : Mytbf = record { cps = cps; burst = burst; token = 0; pos = 0 } in
    elim (Bool-cases (ltb argc 2)) [
      | inl e ↦ rw e (omega arith)
      | inr e ↦ rw e (
          omega (
            arith,
            opened-Adds (10 * alarms rounds) (open_loop sources) no_source
                (tbf_loop rounds me ws input [])
                (omega (arith, tbf_loop-Adds rounds me ws input [] refl)),
          ))
    ]
