-- ===== src/Primes/Trial.antt =====
-- The trial division of `func` in 31.线程专题/primer_1_pool_cond.c finds exactly the numbers without a
-- divisor between 1 and themselves.
use mathlib.Core.Path.{subst}
use native.Mathlib.Nat.{mod-eq-sub-mod, mod-eq_of_lt}
use apue_li_huiqin.Base.{
  refl, sym, one_if, count_by, count_by-append, ==_iff, [], ◌∷◌, ℕ, zero, suc, ◌+◌, ◌-◌, ◌/◌, ◌%◌,
  ◌≤◌, ◌<◌, ◌≡◌, ◌≢◌, ap, ◌∙◌, Bool, true, false, arith, ◌==◌, ltb, Bool-cases, inl, inr,
}
use apue_li_huiqin.Primes.{trial, primer_flag}
use apue_li_huiqin.Primes.Held.{numbers}

-- Both answers of the loop, for the candidates from `j` on.
Tried : ℕ → ℕ → ℕ → Bool → Type 0
Tried n j i true = (k : ℕ) → j ≤ k → k < j + n → i % k ≢ 0
Tried n j i false = (k : ℕ) × (j ≤ k) × (k < j + n) × (i % k ≡ 0)

Tried-suc :
    (n j i : ℕ) (b : Bool) → (i % j == 0) ≡ false → Tried n (j + 1) i b → Tried (suc n) j i b
unfolding Tried
Tried-suc n j i true e h = λ k a b z. elim (Bool-cases (j == k)) [
  | inl s ↦ let same : j ≡ k = ground arith in let w = ap (λ m. i % m) same in ground (arith, w)
  | inr s ↦ h k (ground arith) (omega arith) z
]
Tried-suc n j i false e (k, a, b, z) = (k, omega arith, omega arith, z)

trial-Tried : (n j i : ℕ) → Tried n j i (trial n j i)
unfolding trial Tried
trial-Tried zero j i = λ k a b. absurd (omega arith)
trial-Tried (suc n) j i = elim (Bool-cases (i % j == 0)) [
  | inl e ↦ rw (trial, e) (j, omega arith, omega arith, ground arith)
  | inr e ↦ rw (trial, e) (Tried-suc n j i (trial n (j + 1) i) e (trial-Tried n (j + 1) i))
]

-- No number above the half divides.
mod-ne_of_half : (i j : ℕ) → i / 2 < j → j < i → i % j ≢ 0
mod-ne_of_half i j h k =
    let e : i % j ≡ i - j = mod-eq-sub-mod (omega arith) ∙ mod-eq_of_lt (omega arith) in
    omega (arith, e)

-- A number that passes is divided by none between 1 and itself.
primer_flag-passed : (i k : ℕ) → primer_flag i ≡ true → 2 ≤ k → k < i → i % k ≢ 0
unfolding primer_flag Tried
primer_flag-passed i k h le lt = elim (Bool-cases (ltb (i / 2) k)) [
  | inl e ↦ mod-ne_of_half i k (ground arith) lt
  | inr e ↦
      let t : Tried (i / 2 - 1) 2 i true =
        subst (λ b. Tried (i / 2 - 1) 2 i b) h (trial-Tried (i / 2 - 1) 2 i) in
      t k le (ground arith)
]

-- A number that fails is divided by one between 1 and itself.
primer_flag-failed : (i : ℕ) → primer_flag i ≡ false → (k : ℕ) × (2 ≤ k) × (k < i) × (i % k ≡ 0)
unfolding primer_flag Tried
primer_flag-failed i h =
    let (k, a, b, z) = subst (λ b. Tried (i / 2 - 1) 2 i b) h (trial-Tried (i / 2 - 1) 2 i) in
    (k, a, omega arith, z)

count-none :
    (p : ℕ → Bool) (first n : ℕ)
    → ((k : ℕ) → first ≤ k → k < first + n → p k ≡ false)
    → count_by p (numbers first n) ≡ 0
count-none p first zero h = refl
count-none p first (suc n) h = omega (
  arith,
  count_by-append p (numbers first n) ((first + n) ∷ []),
  count-none p first n (λ k a b. h k a (omega arith)),
  ap one_if (h (first + n) (omega arith) (omega arith)),
)

count-some :
    (p : ℕ → Bool) (first n k : ℕ)
    → first ≤ k
    → k < first + n
    → p k ≡ true
    → 0 < count_by p (numbers first n)
count-some p first zero k a b h = absurd (omega arith)
count-some p first (suc n) k a b h =
    let split = count_by-append p (numbers first n) ((first + n) ∷ []) in
    elim (Bool-cases (k == first + n)) [
      | inl e ↦
          let last : k ≡ first + n = (==_iff k (first + n)).0 e in
          let hit : one_if (p (first + n)) ≡ 1 =
            ap (λ (j : ℕ). one_if (p j)) (sym last) ∙ ap one_if h in
          omega (arith, split, hit)
      | inr e ↦ omega (arith, split, count-some p first n k a (ground (arith, e)) h)
    ]

-- The trial division by the numbers up to the half finds out whether any number between 1 and the tested
-- one divides it.
pub primer_flag-divisors :
    (i : ℕ) → primer_flag i ≡ (count_by (λ k. i % k == 0) (numbers 2 (i - 2)) == 0)
primer_flag-divisors i = elim (Bool-cases (primer_flag i)) [
  | inl e ↦
      let none_divides =
        count-none (λ k. i % k == 0) 2 (i - 2)
          (λ k a b. let d = primer_flag-passed i k e a (omega arith) in ground (arith, d)) in
      rw (e, none_divides) refl
  | inr e ↦
      let (k, a, b, z) = primer_flag-failed i e in
      let one_divides =
        count-some (λ k. i % k == 0) 2 (i - 2) k a (omega (arith, a, b)) (ground (arith, z)) in
      rw e (ground (arith, one_divides))
]
