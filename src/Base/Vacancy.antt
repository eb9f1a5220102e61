-- ===== src/Base/Vacancy.antt =====
-- A static table of pointers: the search for the first entry that is NULL (`none`), and stores.
use Prim.Native.Nat.{ℕ, zero, suc, ◌+◌}
use mathlib.Core.Path.{◌≡◌, refl, ap}
use mathlib.Core.Logic.{◌≢◌}
use mathlib.Core.List.{List, [], ◌∷◌}
use mathlib.Core.Option.{Option, none, some}
use native.Mathlib.Omega.{arith}
use apue_li_huiqin.Base.Lists.{get_elem?, set, All}

-- `for (i = 0; i < MAX; i++) if (job[i] == NULL) return i;` from `i` on; `none` is the -1 at the end.
unfoldable pub first_none {ℓ} : {A : Type ℓ} → List (Option A) → ℕ → Option ℕ
first_none [] i = none
first_none (none ∷ ss) i = some i
first_none (some a ∷ ss) i = first_none ss (i + 1)

module _ {ℓ} {A : Type ℓ} where
  abbrev pub IsTaken : Option A → Type ℓ
  IsTaken s = s ≢ none

  first_none-shift :
      (ss : List (Option A)) (base : ℕ) {pos : ℕ}
      → first_none ss base ≡ some pos
      → (index : ℕ) × (pos ≡ base + index) × (get_elem? ss index ≡ some none)
  unfolding first_none
  first_none-shift [] base h = cc
  first_none-shift (none ∷ ss) base h = (0, ground arith, refl)
  first_none-shift (some a ∷ ss) base h =
      let (index, at, vacant) = first_none-shift ss (base + 1) h in
      (suc index, omega (arith, at), vacant)

  -- The entry that is found is empty.
  pub first_none-vacant :
      (ss : List (Option A)) {pos : ℕ} → first_none ss 0 ≡ some pos → get_elem? ss pos ≡ some none
  first_none-vacant ss {pos} h =
      let (index, at, vacant) = first_none-shift ss 0 h in
      let e : pos ≡ index = omega (arith, at) in rw e vacant

  -- An entry is found if one is empty.
  pub first_none-ne_none :
      (ss : List (Option A)) (base i : ℕ) → get_elem? ss i ≡ some none → first_none ss base ≢ none
  unfolding first_none
  first_none-ne_none [] base i h = cc
  first_none-ne_none (none ∷ ss) base i h = λ e. cc
  first_none-ne_none (some a ∷ ss) base zero h = cc
  first_none-ne_none (some a ∷ ss) base (suc i) h = first_none-ne_none ss (base + 1) i h

  -- None is found if all are taken.
  pub first_none-full :
      (ss : List (Option A)) (base : ℕ) → All IsTaken ss → first_none ss base ≡ none
  unfolding first_none
  first_none-full [] base h = refl
  first_none-full (none ∷ ss) base h = absurd (h.0 refl)
  first_none-full (some a ∷ ss) base h = first_none-full ss (base + 1) h.1

module _ {ℓ} {A : Type ℓ} where
  pub set-set : (xs : List A) (i : ℕ) (v w : A) → set (set xs i v) i w ≡ set xs i w
  set-set [] i v w = refl
  set-set (x ∷ xs) zero v w = refl
  set-set (x ∷ xs) (suc i) v w = ap (λ l. x ∷ l) (set-set xs i v w)

  pub set_same : (xs : List A) (i : ℕ) (v : A) → get_elem? xs i ≡ some v → set xs i v ≡ xs
  set_same [] i v h = refl
  set_same (x ∷ xs) zero v h = cc
  set_same (x ∷ xs) (suc i) v h = ap (λ l. x ∷ l) (set_same xs i v h)
