-- ===== src/Primes/Shares/Short.antt =====
-- The loop of 29.进程专题/primer2.c and primer3.c, which stops before the half, and that of primer0.c.
use native.Mathlib.Nat.{mod-eq-sub-mod, mod-eq_of_lt}
use apue_li_huiqin.Base.{
  ℕ, zero, suc, ◌+◌, ◌-◌, ◌/◌, ◌%◌, ◌<◌, ◌≡◌, ◌≢◌, refl, sym, ap, ◌∙◌, true, false, arith, ltb,
  ◌==◌, Bool-cases, inl, inr,
}
use apue_li_huiqin.Primes.{trial, primer_flag}
use apue_li_huiqin.Primes.Shares.{short_flag}

-- A last candidate that does not divide makes no difference.
trial-last : (n j i : ℕ) → (i % (j + n) == 0) ≡ false → trial (suc n) j i ≡ trial n j i
unfolding trial
trial-last zero j i h =
    let e : (i % j == 0) ≡ false = ap (λ (k : ℕ). i % k == 0) (omega arith) ∙ h in
    rw (trial, e) refl
trial-last (suc n) j i h =
    let e : (i % (j + 1 + n) == 0) ≡ false = ap (λ (k : ℕ). i % k == 0) (omega arith) ∙ h in
    let r = trial-last n (j + 1) i e in
    elim (Bool-cases (i % j == 0)) [ inl a ↦ rw a refl | inr b ↦ rw b r ]

-- The half of an odd number from 5 on does not divide it.
half_of_odd : (i : ℕ) → 4 < i → i % 2 ≢ 0 → i % (i / 2) ≡ 1
half_of_odd i h odd =
    let a : i % (i / 2) ≡ (i - i / 2) % (i / 2) = mod-eq-sub-mod (omega arith) in
    let b : (i - i / 2) % (i / 2) ≡ (i - i / 2 - i / 2) % (i / 2) = mod-eq-sub-mod (omega arith) in
    let one : i - i / 2 - i / 2 ≡ 1 = omega (arith, odd) in
    let c : 1 % (i / 2) ≡ 1 = mod-eq_of_lt (omega arith) in
    a ∙ b ∙ ap (λ (k : ℕ). k % (i / 2)) one ∙ c

trial-even : (n i : ℕ) → (i % 2 == 0) ≡ true → trial (suc n) 2 i ≡ false
unfolding trial
trial-even n i e = rw e refl

-- The loop that stops before the half gives the same answer, but for 4.
pub short_flag-primer_flag : (i : ℕ) → i ≢ 4 → short_flag i ≡ primer_flag i
unfolding short_flag primer_flag
short_flag-primer_flag i h = elim (Bool-cases (ltb 4 i)) [
  | inl big ↦
      let large : 4 < i = ground arith in
      elim (Bool-cases (i % 2 == 0)) [
        | inl e ↦
            let a : i / 2 - 2 ≡ suc (i / 2 - 3) = ground arith in
            let b : i / 2 - 1 ≡ suc (i / 2 - 2) = ground arith in
            rw (a, b) (trial-even (i / 2 - 3) i e ∙ sym (trial-even (i / 2 - 2) i e))
        | inr o ↦
            let b : i / 2 - 1 ≡ suc (i / 2 - 2) = ground arith in
            let half : 2 + (i / 2 - 2) ≡ i / 2 = ground arith in
            let m = half_of_odd i large (ground arith) in
            let n : (i % (2 + (i / 2 - 2)) == 0) ≡ false = rw (half, m) refl in
            rw b (sym (trial-last (i / 2 - 2) 2 i n))
      ]
  | inr small ↦ let a : i / 2 - 2 ≡ i / 2 - 1 = ground arith in ap (λ (k : ℕ). trial k 2 i) a
]
