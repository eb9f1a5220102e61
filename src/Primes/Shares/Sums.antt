-- ===== src/Primes/Shares/Sums.antt =====
-- The numbers of the shares of 29.进程专题/primer3.c together are those of the interval.
use apue_li_huiqin.Base.{
  ℕ, zero, suc, ◌+◌, ◌-◌, ◌≤◌, ◌<◌, ◌≡◌, refl, ap, ◌∙◌, Bool, true, false, List, [], ◌++◌, arith,
  leb, count_by, count_by-append, Bool-cases, inl, inr,
}
use apue_li_huiqin.Primes.Shares.{short_flag, print_primer, search, share}

-- How many of what the children from `i` on print `q` counts, if all are started.
abbrev pub counts : (ℕ → Bool) → (ℕ → List ℕ) → ℕ → ℕ → ℕ
counts q child zero i = 0
counts q child (suc n) i = count_by q (child i) + counts q child n (i + 1)

counts-last :
    (q : ℕ → Bool) (child : ℕ → List ℕ) (n i : ℕ)
    → counts q child (suc n) i ≡ counts q child n i + count_by q (child (i + n))
counts-last q child zero i = let same : i + 0 ≡ i = omega arith in rw same (omega arith)
counts-last q child (suc n) i =
    let same : i + 1 + n ≡ i + suc n = omega arith in
    omega (arith, counts-last q child n (i + 1), ap (λ (k : ℕ). count_by q (child k)) same)

pub counts-shift :
    (q : ℕ → Bool) (child : ℕ → List ℕ) (first n i : ℕ)
    → counts q (λ k. child (first + k)) n i ≡ counts q child n (first + i)
counts-shift q child first zero i = refl
counts-shift q child first (suc n) i =
    let same : first + (i + 1) ≡ first + i + 1 = omega arith in
    omega (arith, counts-shift q child first n (i + 1), ap (λ (k : ℕ). counts q child n k) same)

module _ (step last : ℕ) (pos : 0 < step) where
  share-fuel : (f g a : ℕ) → last < f + a → last < g + a → share f step last a ≡ share g step last a
  unfolding share
  share-fuel zero zero a h k = refl
  share-fuel zero (suc g) a h k = let e : leb a last ≡ false = ground arith in rw e refl
  share-fuel (suc f) zero a h k = let e : leb a last ≡ false = ground arith in rw e refl
  share-fuel (suc f) (suc g) a h k = elim (Bool-cases (leb a last)) [
    | inl e ↦ rw e (
        ap (λ l. print_primer short_flag a ++ l)
          (share-fuel f g (a + step) (omega arith) (omega arith)))
    | inr e ↦ rw e refl
  ]

  abbrev pub whole : ℕ → List ℕ
  whole a = share (last + 1) step last a

  whole-next : (a : ℕ) → a ≤ last → whole a ≡ print_primer short_flag a ++ whole (a + step)
  unfolding share
  whole-next a h =
      let e : leb a last ≡ true = ground arith in
      share-fuel (last + 1) (suc (last + 1)) a (omega arith) (omega arith) ∙ (rw e refl)

  whole-over : (a : ℕ) → last < a → whole a ≡ []
  unfolding share
  whole-over a h = share-fuel (last + 1) zero a (omega arith) (omega arith)

  counts-over : (q : ℕ → Bool) (n a : ℕ) → last < a → counts q whole n a ≡ 0
  counts-over q zero a h = refl
  counts-over q (suc n) a h =
      omega (arith, counts-over q n (a + 1) (omega arith), ap (count_by q) (whole-over a h))

  -- The shares that begin at so many numbers in a row as there are processes.
  pub counts-search :
      (q : ℕ → Bool) (d a : ℕ)
      → a + d ≡ last + 1
      → counts q whole step a ≡ count_by q (search short_flag d a)
  unfolding search
  counts-search q zero a h = counts-over q step a (omega arith)
  counts-search q (suc d) a h =
      let r = counts-search q d (a + 1) (omega arith) in
      let front = counts-last q whole (step - 1) (a + 1) in
      let size : suc (step - 1) ≡ step = omega arith in
      let at : a + 1 + (step - 1) ≡ a + step = omega arith in
      let head = ap (count_by q) (whole-next a (omega arith)) in
      omega (
        arith,
        r,
        front,
        head,
        count_by-append q (print_primer short_flag a) (whole (a + step)),
        count_by-append q (print_primer short_flag a) (search short_flag d (a + 1)),
        ap (λ (k : ℕ). counts q whole k (a + 1)) size,
        ap (λ (k : ℕ). counts q whole k a) size,
        ap (λ (k : ℕ). count_by q (whole k)) at,
      )
