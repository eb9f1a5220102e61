-- ===== src/Base/Lists.antt =====
-- Lists measured and indexed by native numbers, under the library's names, and counting by a test.
use Prim.Native.Nat.{ℕ, zero, suc, ◌+◌, ◌-◌, ◌≤◌, ◌<◌, min}
use mathlib.Core.Path.{subst, ◌≡◌, refl, ap, sym, ◌∙◌}
use mathlib.Core.Logic.{◌≢◌}
use mathlib.Core.Bool.{Bool, false}
use mathlib.Core.List.{List, [], ◌∷◌, ◌++◌, map}
use mathlib.Core.Option.{Option, none, some}
use native.Mathlib.Nat.{suc-add, zero-sub, sub-zero}
use native.Mathlib.Omega.{arith}
use apue_li_huiqin.Base.Tests.{if◌then◌else◌, eq_of_some}

module _ {ℓ} {A : Type ℓ} where
  abbrev pub length : List A → ℕ
  length [] = 0
  length (x ∷ xs) = suc (length xs)

  abbrev pub get_elem? : List A → ℕ → Option A
  get_elem? [] i = none
  get_elem? (x ∷ xs) zero = some x
  get_elem? (x ∷ xs) (suc i) = get_elem? xs i

  -- A write out of bounds changes nothing.
  abbrev pub set : List A → ℕ → A → List A
  set [] i v = []
  set (x ∷ xs) zero v = v ∷ xs
  set (x ∷ xs) (suc i) v = x ∷ set xs i v

  abbrev pub take : ℕ → List A → List A
  take zero xs = []
  take (suc n) [] = []
  take (suc n) (x ∷ xs) = x ∷ take n xs

  abbrev pub drop : ℕ → List A → List A
  drop zero xs = xs
  drop (suc n) [] = []
  drop (suc n) (x ∷ xs) = drop n xs

  abbrev pub replicate : ℕ → A → List A
  replicate zero a = []
  replicate (suc n) a = a ∷ replicate n a

  -- How many elements pass a test.
  abbrev pub count_by : (A → Bool) → List A → ℕ
  count_by p [] = 0
  count_by p (x ∷ xs) = (if p x then 1 else 0) + count_by p xs

  abbrev pub All {κ} : (A → Type κ) → List A → Type κ
  All P [] = Unit
  All P (x ∷ xs) = P x × All P xs

module _ {ℓ} {A : Type ℓ} where
  pub length-append : (xs ys : List A) → length (xs ++ ys) ≡ length xs + length ys
  length-append [] ys = omega arith
  length-append (x ∷ xs) ys = omega (arith, length-append xs ys)

  pub length-set : (xs : List A) (i : ℕ) (v : A) → length (set xs i v) ≡ length xs
  length-set [] i v = refl
  length-set (x ∷ xs) zero v = refl
  length-set (x ∷ xs) (suc i) v = ap suc (length-set xs i v)

  pub get_elem?-set_self :
      (xs : List A) (i : ℕ) (v : A) → i < length xs → get_elem? (set xs i v) i ≡ some v
  get_elem?-set_self [] i v h = elim h [ ]
  get_elem?-set_self (x ∷ xs) zero v h = refl
  get_elem?-set_self (x ∷ xs) (suc i) v h = get_elem?-set_self xs i v (omega arith)

  pub get_elem?-set_ne :
      (xs : List A) (i j : ℕ) (v : A) → i ≢ j → get_elem? (set xs i v) j ≡ get_elem? xs j
  get_elem?-set_ne [] i j v h = refl
  get_elem?-set_ne (x ∷ xs) zero zero v h = absurd (h refl)
  get_elem?-set_ne (x ∷ xs) zero (suc j) v h = refl
  get_elem?-set_ne (x ∷ xs) (suc i) zero v h = refl
  get_elem?-set_ne (x ∷ xs) (suc i) (suc j) v h = get_elem?-set_ne xs i j v (λ e. h (ap suc e))

  pub lt-length_of_get_elem? :
      (xs : List A) (i : ℕ) {v : A} → get_elem? xs i ≡ some v → i < length xs
  lt-length_of_get_elem? [] i h = cc
  lt-length_of_get_elem? (x ∷ xs) zero h = omega arith
  lt-length_of_get_elem? (x ∷ xs) (suc i) h = omega (arith, lt-length_of_get_elem? xs i h)

  pub get_elem?-map {κ} :
      {B : Type κ} (f : A → B) (xs : List A) (i : ℕ) {v : A}
      → get_elem? xs i ≡ some v
      → get_elem? (map f xs) i ≡ some (f v)
  get_elem?-map f [] i h = cc
  get_elem?-map f (x ∷ xs) zero h = cc
  get_elem?-map f (x ∷ xs) (suc i) h = get_elem?-map f xs i h

  pub length-map {κ} : {B : Type κ} (f : A → B) (xs : List A) → length (map f xs) ≡ length xs
  length-map f [] = refl
  length-map f (x ∷ xs) = ap suc (length-map f xs)

  pub take-append-drop : (n : ℕ) (xs : List A) → take n xs ++ drop n xs ≡ xs
  take-append-drop zero xs = refl
  take-append-drop (suc n) [] = refl
  take-append-drop (suc n) (x ∷ xs) = ap (λ l. x ∷ l) (take-append-drop n xs)

  pub length-drop : (n : ℕ) (xs : List A) → length (drop n xs) ≡ length xs - n
  length-drop zero xs = omega arith
  length-drop (suc n) [] = omega arith
  length-drop (suc n) (x ∷ xs) = omega (arith, length-drop n xs)

  pub count_by-le-length : (p : A → Bool) (xs : List A) → count_by p xs ≤ length xs
  count_by-le-length p [] = omega arith
  count_by-le-length p (x ∷ xs) = ground (arith, count_by-le-length p xs)

  pub drop-nil : (n : ℕ) → drop {A = A} n [] ≡ []
  drop-nil zero = refl
  drop-nil (suc n) = refl

  pub drop-add : (n m : ℕ) (xs : List A) → drop (n + m) xs ≡ drop m (drop n xs)
  drop-add zero m xs = ap (λ (k : ℕ). drop k xs) (omega arith)
  drop-add (suc n) m [] = drop-nil (suc n + m) ∙ sym (drop-nil m)
  drop-add (suc n) m (x ∷ xs) = ap (λ (k : ℕ). drop k (x ∷ xs)) (suc-add n m) ∙ drop-add n m xs

  pub length-zero : (xs : List A) → length xs ≡ 0 → xs ≡ []
  length-zero [] h = refl
  length-zero (x ∷ xs) h = absurd (omega arith)

  pub length-take : (n : ℕ) (xs : List A) → length (take n xs) ≡ min n (length xs)
  length-take zero xs = omega arith
  length-take (suc n) [] = omega arith
  length-take (suc n) (x ∷ xs) = omega (arith, length-take n xs)

  pub take-append :
      (k : ℕ) (xs ys : List A) → take k (xs ++ ys) ≡ take k xs ++ take (k - length xs) ys
  take-append zero xs ys = rw zero-sub refl
  take-append (suc k) [] ys = rw sub-zero refl
  take-append (suc k) (x ∷ xs) ys =
      let less : suc k - suc (length xs) ≡ k - length xs = omega arith in
      rw less (ap (λ l. x ∷ l) (take-append k xs ys))

  pub take_all : (k : ℕ) (xs : List A) → length xs ≤ k → take k xs ≡ xs
  take_all zero [] h = refl
  take_all (suc k) [] h = refl
  take_all zero (x ∷ xs) h = absurd (omega arith)
  take_all (suc k) (x ∷ xs) h = ap (λ l. x ∷ l) (take_all k xs (omega arith))

  pub drop-append : (xs ys : List A) → drop (length xs) (xs ++ ys) ≡ ys
  drop-append [] ys = refl
  drop-append (x ∷ xs) ys = drop-append xs ys

-- How much an element counts.
abbrev pub one_if : Bool → ℕ
one_if b = if b then 1 else 0

-- One element changed: its own test is counted instead of the old one's.
pub count_by-set {ℓ} :
    {A : Type ℓ} (p : A → Bool) (xs : List A) (k : ℕ) (v w : A)
    → get_elem? xs k ≡ some v
    → count_by p (set xs k w) + one_if (p v) ≡ count_by p xs + one_if (p w)
count_by-set p [] k v w h = absurd (cc)
count_by-set p (x ∷ xs) zero v w h = omega (arith, ap (λ u. one_if (p u)) (eq_of_some h))
count_by-set p (x ∷ xs) (suc k) v w h = omega (arith, count_by-set p xs k v w h)

pub count_by-append {ℓ} :
    {A : Type ℓ} (p : A → Bool) (xs ys : List A)
    → count_by p (xs ++ ys) ≡ count_by p xs + count_by p ys
count_by-append p [] ys = omega arith
count_by-append p (x ∷ xs) ys = omega (arith, count_by-append p xs ys)

pub length-replicate {ℓ} : {A : Type ℓ} (n : ℕ) (a : A) → length (replicate n a) ≡ n
length-replicate zero a = refl
length-replicate (suc n) a = ap suc (length-replicate n a)

pub get_elem?-replicate {ℓ} :
    {A : Type ℓ} (n i : ℕ) (a : A) → i < n → get_elem? (replicate n a) i ≡ some a
get_elem?-replicate zero i a h = absurd (omega arith)
get_elem?-replicate (suc n) zero a h = refl
get_elem?-replicate (suc n) (suc i) a h = get_elem?-replicate n i a (omega arith)

-- What passes one test passes another.
pub count_by_mono {ℓ} :
    {A : Type ℓ} (p q : A → Bool)
    → ((a : A) → one_if (p a) ≤ one_if (q a))
    → (xs : List A) → count_by p xs ≤ count_by q xs
count_by_mono p q h [] = omega arith
count_by_mono p q h (x ∷ xs) = omega (arith, h x, count_by_mono p q h xs)

pub count_by-replicate {ℓ} :
    {A : Type ℓ} (p : A → Bool) (n : ℕ) (a : A) → p a ≡ false → count_by p (replicate n a) ≡ 0
count_by-replicate p zero a h = refl
count_by-replicate p (suc n) a h = omega (arith, ap one_if h, count_by-replicate p n a h)

pub All-get_elem? {ℓ κ} :
    {A : Type ℓ} (P : A → Type κ) (xs : List A) (k : ℕ) (v : A)
    → get_elem? xs k ≡ some v
    → All P xs
    → P v
All-get_elem? P [] k v e h = absurd (cc)
All-get_elem? P (x ∷ xs) zero v e h = subst P (eq_of_some e) h.0
All-get_elem? P (x ∷ xs) (suc k) v e h = All-get_elem? P xs k v e h.1

pub All-set {ℓ κ} :
    {A : Type ℓ} (P : A → Type κ) (xs : List A) (k : ℕ) (v : A)
    → P v
    → All P xs
    → All P (set xs k v)
All-set P [] k v p h = h
All-set P (x ∷ xs) zero v p h = (p, h.1)
All-set P (x ∷ xs) (suc k) v p h = (h.0, All-set P xs k v p h.1)

pub All-mono {ℓ κ} :
    {A : Type ℓ} (P Q : A → Type κ) (xs : List A) → ((a : A) → P a → Q a) → All P xs → All Q xs
All-mono P Q [] f h = h
All-mono P Q (x ∷ xs) f h = (f x h.0, All-mono P Q xs f h.1)

pub All-replicate {ℓ κ} :
    {A : Type ℓ} (P : A → Type κ) (n : ℕ) (a : A) → P a → All P (replicate n a)
All-replicate P zero a p = tt
All-replicate P (suc n) a p = (p, All-replicate P n a p)

pub All-append {ℓ κ} :
    {A : Type ℓ} (P : A → Type κ) (xs ys : List A) → All P xs → All P ys → All P (xs ++ ys)
All-append P [] ys h k = k
All-append P (x ∷ xs) ys h k = (h.0, All-append P xs ys h.1 k)
