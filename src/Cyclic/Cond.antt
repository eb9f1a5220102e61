-- ===== src/Cyclic/Cond.antt =====
-- 31.线程专题/abcd_cond.c writes the letters in turn, and the thread whose turn it is never waits.
use native.Mathlib.Nat.{mod-lt}
use apue_li_huiqin.Base.{
  ℕ, zero, suc, ◌+◌, ◌%◌, ◌<◌, ◌≡◌, ◌≢◌, refl, sym, ◌∙◌, ap, some, List, [], ◌∷◌, ◌++◌, arith, ◌==◌,
  length, length-replicate, get_elem?-replicate, length-map, true, length-set, set, get_elem?,
  get_elem?-set_self, get_elem?-set_ne, map, Bool-cases, inl, inr, ==_iff,
}
use apue_li_huiqin.Cyclic.{
  next, letter, Status, awake, asleep, woken, Shared, func_cond, turn, wake_up, CondReach, begin,
  after,
}
use apue_li_huiqin.Cyclic.Letters.{letters, length-letters, next-mod}

-- A state of the program with `m` letters written.
record Shows (n m : ℕ) (s : Shared) : Type 0 where
  pub num_is : s.num ≡ m % n
  pub all_there : length s.threads ≡ n
  pub next_awake : get_elem? s.threads s.num ≡ some awake
  pub written : s.out ≡ letters n m

-- All threads woken: whoever is next is awake.
woken-awake : (ts : List Status) (i : ℕ) → i < length ts → get_elem? (map woken ts) i ≡ some awake
woken-awake [] i h = absurd (omega arith)
woken-awake (t ∷ ts) zero h = refl
woken-awake (t ∷ ts) (suc i) h = woken-awake ts i (omega arith)

set-awake :
    (ts : List Status) (i k : ℕ) (v : Status)
    → get_elem? ts i ≡ some awake
    → i < length ts
    → (k ≡ i → v ≡ awake)
    → get_elem? (set ts k v) i ≡ some awake
set-awake ts i k v h lt e = elim (Bool-cases (k == i)) [
  | inl s ↦
      let same : k ≡ i = (==_iff k i).0 s in
      ap (λ j. get_elem? (set ts j v) i) same ∙ get_elem?-set_self ts i v lt ∙ ap some (e same)
  | inr d ↦ let other : k ≢ i = ground arith in get_elem?-set_ne ts k i v other ∙ h
]

turn-Shows :
    (n m k : ℕ) (s : Shared) → 0 < n → Shows n m s → (m' : ℕ) × Shows n m' (func_cond n k s)
unfolding func_cond letter
turn-Shows n m k s pos h = elim (Bool-cases (s.num == k)) [
  | inl e ↦
      let same : s.num ≡ k = (==_iff s.num k).0 e in
      let counted : next n s.num ≡ suc m % n = ap (next n) h.num_is ∙ next-mod n m pos in
      let in_range : next n s.num < length s.threads =
        omega (arith, counted, mod-lt (suc m) pos, h.all_there) in
      let w : s.out ++ (b'a' + k) ∷ [] ≡ letters n (suc m) =
        ap (λ o. o ++ (b'a' + k) ∷ []) h.written
        ∙ ap (λ (j : ℕ). letters n m ++ (b'a' + j) ∷ []) (sym same ∙ h.num_is) in
      (
        suc m,
        rw (func_cond, e)
            (record {
              num_is = counted;
              all_there = length-map woken s.threads ∙ h.all_there;
              next_awake = woken-awake s.threads (next n s.num) in_range;
              written = w;
            }),
      )
  | inr e ↦
      let lt : s.num < length s.threads = omega (arith, h.num_is, mod-lt m pos, h.all_there) in
      (
        m,
        rw (func_cond, e)
            (record {
              num_is = h.num_is;
              all_there = length-set s.threads k asleep ∙ h.all_there;
              next_awake =
                  set-awake s.threads s.num k asleep h.next_awake lt
                    (λ same. absurd (ground (arith, e, same)));
              written = h.written;
            }),
      )
]

Reach-Shows : {n : ℕ} {s : Shared} → 0 < n → CondReach n s → (m : ℕ) × Shows n m s
Reach-Shows {n = n} pos begin = (
  0,
  record {
    num_is = grind arith;
    all_there = length-replicate n awake;
    next_awake = get_elem?-replicate n 0 awake pos;
    written = refl;
  },
)
Reach-Shows pos (after r (turn k e)) = let (m, h) = Reach-Shows pos r in turn-Shows _ m k _ pos h
Reach-Shows {n = n} pos (after {s = s} r (wake_up k)) =
    let (m, h) = Reach-Shows pos r in
    let lt : s.num < length s.threads = omega (arith, h.num_is, mod-lt m pos, h.all_there) in
    (
      m,
      record {
        num_is = h.num_is;
        all_there = length-set s.threads k awake ∙ h.all_there;
        next_awake = set-awake s.threads s.num k awake h.next_awake lt (λ e. refl);
        written = h.written;
      },
    )

-- However the threads are scheduled and woken, what abcd_cond.c has written in a state that it can reach
-- are the letters of the threads in turn.
pub CondReach-letters :
    {n : ℕ} {s : Shared} → 0 < n → CondReach n s → s.out ≡ letters n (length s.out)
CondReach-letters {n = n} pos r =
    let (m, h) = Reach-Shows pos r in
    h.written ∙ ap (letters n) (sym (length-letters n m) ∙ ap length (sym h.written))

-- In each state that abcd_cond.c can reach, the thread whose turn it is can run, and its turn writes the
-- next letter.
pub CondReach-goes_on :
    {n : ℕ} {s : Shared}
    → 0 < n
    → CondReach n s
    → (get_elem? s.threads s.num ≡ some awake)
      × ((func_cond n s.num s).out ≡ s.out ++ (b'a' + length s.out % n) ∷ [])
unfolding func_cond letter
CondReach-goes_on {n = n} {s = s} pos r =
    let (m, h) = Reach-Shows pos r in
    let count : length s.out ≡ m = ap length h.written ∙ length-letters n m in
    let own : s.num ≡ length s.out % n = h.num_is ∙ ap (λ (k : ℕ). k % n) (sym count) in
    let self : (s.num == s.num) ≡ true = ground arith in
    (h.next_awake, rw (func_cond, self) (ap (λ (k : ℕ). s.out ++ (b'a' + k) ∷ []) own))
