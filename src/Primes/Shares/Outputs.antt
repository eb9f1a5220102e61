-- ===== src/Primes/Shares/Outputs.antt =====
-- What the processes of 29.进程专题/primer1.c, primer2.c and primer3.c print together.
use native.Mathlib.Nat.{mod-eq-sub-mod, mod-eq_of_lt}
use apue_li_huiqin.Base.{
  ℕ, zero, suc, ◌+◌, ◌-◌, ◌%◌, ◌≤◌, ◌<◌, ◌≡◌, refl, ap, ◌∙◌, Bool, true, false, ◌&&◌, some, List,
  [], ◌∷◌, ◌++◌, arith, leb, if◌then◌else◌, count_by, count_by-append, count_by_mono, Bool-cases,
  inl, inr, set, get_elem?,
}
use apue_li_huiqin.Primes.{primer_flag}
use apue_li_huiqin.Primes.Shares.{
  short_flag, print_primer, search, primer0, spawn, primer1, primer2, share, primer3, Prints, begin,
  line,
}
use apue_li_huiqin.Primes.Shares.Sums.{counts, counts-shift, counts-search, whole}
use apue_li_huiqin.Primes.Shares.Short.{short_flag-primer_flag}

-- How many of the numbers in the lists `p` counts.
abbrev pub total : (ℕ → Bool) → List (List ℕ) → ℕ
total p [] = 0
total p (xs ∷ xss) = count_by p xs + total p xss

total-set :
    (p : ℕ → Bool) (xss : List (List ℕ)) (k : ℕ) (v w : List ℕ)
    → get_elem? xss k ≡ some v
    → total p (set xss k w) + count_by p v ≡ total p xss + count_by p w
total-set p [] k v w h = absurd (cc)
total-set p (xs ∷ xss) zero v w h = let same : xs ≡ v = cc in omega (arith, ap (count_by p) same)
total-set p (xs ∷ xss) (suc k) v w h = omega (arith, total-set p xss k v w h)

Prints-total :
    {children left : List (List ℕ)} {out : List ℕ} (p : ℕ → Bool)
    → Prints children left out
    → count_by p out + total p left ≡ total p children
Prints-total p begin = omega arith
Prints-total p (line {left = left} {out = out} k x xs r e) =
    omega
      (arith, Prints-total p r, total-set p left k (x ∷ xs) xs e, count_by-append p out (x ∷ []))

-- `q` counts of each child that is started what `p` counts, and nothing of the others.
total-spawn :
    (p q : ℕ → Bool) (forks : ℕ → Bool) (child : ℕ → List ℕ) (n i : ℕ)
    → ((k : ℕ)
        → i ≤ k
        → k < i + n
        → count_by q (child k) ≡ (if forks k then count_by p (child k) else 0))
    → total p (spawn forks child n i) ≡ counts q child n i
unfolding spawn
total-spawn p q forks child zero i h = refl
total-spawn p q forks child (suc n) i h =
    let r = total-spawn p q forks child n (i + 1) (λ k a b. h k (omega arith) (omega arith)) in
    let own = h i (omega arith) (omega arith) in
    elim (Bool-cases (forks i)) [
      | inl e ↦
          let one : count_by q (child i) ≡ count_by p (child i) = own ∙ rw e refl in
          rw e (omega (arith, r, one))
      | inr e ↦
          let nothing : count_by q (child i) ≡ 0 = own ∙ rw e refl in
          rw e (omega (arith, r, nothing))
    ]

-- The numbers that `p` counts and whose child is started.
abbrev pub started : (ℕ → Bool) → (ℕ → Bool) → ℕ → Bool
started p forks i = forks i && p i

print_primer-started :
    (flag p forks : ℕ → Bool) (i : ℕ)
    → count_by (started p forks) (print_primer flag i)
      ≡ (if forks i then count_by p (print_primer flag i) else 0)
unfolding print_primer
print_primer-started flag p forks i = elim (Bool-cases (flag i)) [
  | inl e ↦ elim (Bool-cases (forks i)) [ inl f ↦ rw (e, f) refl | inr f ↦ rw (e, f) refl ]
  | inr e ↦ elim (Bool-cases (forks i)) [ inl f ↦ rw (e, f) refl | inr f ↦ rw (e, f) refl ]
]

counts-print_primer :
    (flag q : ℕ → Bool) (n i : ℕ) → counts q (print_primer flag) n i ≡ count_by q (search flag n i)
unfolding search
counts-print_primer flag q zero i = refl
counts-print_primer flag q (suc n) i = omega (
  arith,
  counts-print_primer flag q n (i + 1),
  count_by-append q (print_primer flag i) (search flag n (i + 1)),
)

-- Behind 4 the shorter loop finds the same numbers.
search-short_flag : (n i : ℕ) → 4 < i → search short_flag n i ≡ search primer_flag n i
unfolding search print_primer
search-short_flag zero i h = refl
search-short_flag (suc n) i h =
    rw (short_flag-primer_flag i (omega arith), search-short_flag n (i + 1) (omega arith)) refl

-- How much is still to be printed.
abbrev pub unprinted : List (List ℕ) → ℕ
unprinted xss = total (λ i. true) xss

total-le-unprinted : (p : ℕ → Bool) (xss : List (List ℕ)) → total p xss ≤ unprinted xss
total-le-unprinted p [] = omega arith
total-le-unprinted p (xs ∷ xss) =
    omega (arith, total-le-unprinted p xss, count_by_mono p (λ i. true) (λ i. ground arith) xs)

-- At the end the output has what the children have.
Prints-ended :
    {children left : List (List ℕ)} {out : List ℕ} (p : ℕ → Bool)
    → Prints children left out
    → unprinted left ≡ 0
    → count_by p out ≡ total p children
Prints-ended {left = left} p r ended =
    omega (arith, Prints-total p r, total-le-unprinted p left, ended)

-- The children of primer1.c and primer2.c, with the loop that they have.
total-print_primer :
    (flag p forks : ℕ → Bool) (n i : ℕ)
    → total p (spawn forks (print_primer flag) n i) ≡ count_by (started p forks) (search flag n i)
total-print_primer flag p forks n i =
    total-spawn p (started p forks) forks (print_primer flag) n i
      (λ k a b. print_primer-started flag p forks k)
    ∙ counts-print_primer flag (started p forks) n i

-- Whatever forks fail and however the processes are scheduled: when all have printed what they find, the
-- output of primer1.c is that of primer0.c without the numbers whose `fork` has failed, in some order.
Prints-primer1 :
    {left : List (List ℕ)} {out : List ℕ} (p forks : ℕ → Bool) (first last : ℕ)
    → Prints (primer1 forks first last) left out
    → unprinted left ≡ 0
    → count_by p out ≡ count_by (λ i. forks i && p i) (primer0 first last)
unfolding primer1 primer0
Prints-primer1 p forks first last r ended =
    Prints-ended p r ended ∙ total-print_primer primer_flag p forks (last + 1 - first) first

-- The same of primer2.c, for an interval behind 4.
pub Prints-primer2 :
    {left : List (List ℕ)} {out : List ℕ} (p forks : ℕ → Bool) (first last : ℕ)
    → 4 < first
    → Prints (primer2 forks first last) left out
    → unprinted left ≡ 0
    → count_by p out ≡ count_by (λ i. forks i && p i) (primer0 first last)
unfolding primer2 primer0
Prints-primer2 p forks first last behind r ended =
    Prints-ended p r ended
    ∙ total-print_primer short_flag p forks (last + 1 - first) first
    ∙ ap (count_by (started p forks)) (search-short_flag (last + 1 - first) first behind)

-- Which process of primer3.c a number belongs to.
abbrev pub process : ℕ → ℕ → ℕ → ℕ
process procs first i = (i - first) % procs

process-step :
    (procs first a : ℕ) → first ≤ a → process procs first (a + procs) ≡ process procs first a
process-step procs first a h =
    mod-eq-sub-mod (omega arith) ∙ ap (λ (k : ℕ). k % procs) (omega arith)

append-started :
    (p q : ℕ → Bool) (b : Bool) (xs ys : List ℕ)
    → count_by q xs ≡ (if b then count_by p xs else 0)
    → count_by q ys ≡ (if b then count_by p ys else 0)
    → count_by q (xs ++ ys) ≡ (if b then count_by p (xs ++ ys) else 0)
append-started p q true xs ys g h =
    omega (arith, g, h, count_by-append p xs ys, count_by-append q xs ys)
append-started p q false xs ys g h = omega (arith, g, h, count_by-append q xs ys)

nothing-started : (b : Bool) → zero ≡ (if b then zero else zero)
nothing-started true = refl
nothing-started false = refl

share-started :
    (p forks : ℕ → Bool) (procs last first fuel a n : ℕ)
    → first ≤ a
    → process procs first a ≡ n
    → count_by (λ i. forks (process procs first i) && p i) (share fuel procs last a)
      ≡ (if forks n then count_by p (share fuel procs last a) else 0)
unfolding share
share-started p forks procs last first zero a n h e = nothing-started (forks n)
share-started p forks procs last first (suc fuel) a n h e =
    let q : ℕ → Bool = λ i. forks (process procs first i) && p i in
    let others =
      share-started p forks procs last first fuel (a + procs) n (omega arith)
        (process-step procs first a h ∙ e) in
    let own =
      print_primer-started short_flag p (λ i. forks (process procs first i)) a
      ∙ ap (λ b. if b then count_by p (print_primer short_flag a) else 0) (ap forks e) in
    elim (Bool-cases (leb a last)) [
      | inl le ↦ rw le (
          append-started p q (forks n) (print_primer short_flag a)
            (share fuel procs last (a + procs)) own others)
      | inr gt ↦ rw gt (nothing-started (forks n))
    ]

-- Whatever forks fail and however the processes are scheduled: when all have printed what they find, the
-- output of primer3.c, for an interval behind 4, is that of primer0.c without the numbers of the processes
-- whose `fork` has failed, in some order.
pub Prints-primer3 :
    {left : List (List ℕ)} {out : List ℕ} (p forks : ℕ → Bool) (procs first last : ℕ)
    → 0 < procs
    → 4 < first
    → first ≤ last
    → Prints (primer3 procs forks first last) left out
    → unprinted left ≡ 0
    → count_by p out ≡ count_by (λ i. forks (process procs first i) && p i) (primer0 first last)
unfolding primer3 primer0
Prints-primer3 p forks procs first last pos behind le r ended =
    let q : ℕ → Bool = λ i. forks (process procs first i) && p i in
    let child : ℕ → List ℕ = λ n. share (last + 1) procs last (first + n) in
    let start : first + 0 ≡ first = omega arith in
    let belongs : (n : ℕ) → n < procs → process procs first (first + n) ≡ n =
      λ n less. ap (λ (k : ℕ). k % procs) (omega arith) ∙ mod-eq_of_lt less in
    Prints-ended p r ended
    ∙ total-spawn p q forks child procs 0 (λ n a b.
      share-started p forks procs last first (last + 1) (first + n) n (omega arith)
        (belongs n (omega arith)))
    ∙ counts-shift q (whole procs last pos) first procs 0
    ∙ ap (λ (k : ℕ). counts q (whole procs last pos) procs k) start
    ∙ counts-search procs last pos q (last + 1 - first) first (omega arith)
    ∙ ap (count_by q) (search-short_flag (last + 1 - first) first behind)
