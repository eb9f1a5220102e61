-- ===== src/Bucket/Threads/Inside.antt =====
-- The threads of a bucket by their places: who has the mutex, and whose place does not fit the tokens.
use apue_li_huiqin.Base.{
  ℕ, ◌≤◌, ◌≡◌, refl, ap, Bool, true, false, not, ◌||◌, some, List, [], ◌∷◌, arith, ltb, ◌==◌,
  one_if, count_by, count_by-set, count_by_mono, set, get_elem?, get_elem?-map, map,
}
use apue_li_huiqin.Bucket.Threads.{
  At, outside, fetch_lock, fetch_test, fetch_wait, fetch_unlock, fetch_yield, fetch_min, fetch_load,
  fetch_store, fetch_leave, add_lock, add_load, add_cap, add_leave, add_store, woken,
}

-- Between the locking and the unlocking.
abbrev pub is_inside : At → Bool
is_inside outside = false
is_inside (fetch_lock size) = false
is_inside (fetch_test size) = true
is_inside (fetch_wait size) = false
is_inside (fetch_unlock size) = true
is_inside (fetch_yield size) = true
is_inside (fetch_min size) = true
is_inside (fetch_load n) = true
is_inside (fetch_store n loaded) = true
is_inside fetch_leave = true
is_inside (add_lock a n) = false
is_inside (add_load a n) = true
is_inside (add_cap a n) = true
is_inside (add_leave a n) = true
is_inside (add_store a n loaded) = true

-- A thread whose place does not fit the tokens, or that the condition variable does not lead to.
abbrev pub is_stale : ℕ → At → Bool
is_stale token outside = false
is_stale token (fetch_lock size) = false
is_stale token (fetch_test size) = false
is_stale token (fetch_wait size) = false
is_stale token (fetch_unlock size) = true
is_stale token (fetch_yield size) = true
is_stale token (fetch_min size) = token == 0
is_stale token (fetch_load n) = ltb token n
is_stale token (fetch_store n loaded) = not (loaded == token) || ltb loaded n
is_stale token fetch_leave = false
is_stale token (add_lock a n) = false
is_stale token (add_load a n) = false
is_stale token (add_cap a n) = false
is_stale token (add_leave a n) = false
is_stale token (add_store a n loaded) = not (loaded == token)

stale-le-inside : (token : ℕ) (a : At) → one_if (is_stale token a) ≤ one_if (is_inside a)
stale-le-inside token outside = omega arith
stale-le-inside token (fetch_lock size) = omega arith
stale-le-inside token (fetch_test size) = omega arith
stale-le-inside token (fetch_wait size) = omega arith
stale-le-inside token (fetch_unlock size) = omega arith
stale-le-inside token (fetch_yield size) = omega arith
stale-le-inside token (fetch_min size) = ground arith
stale-le-inside token (fetch_load n) = ground arith
stale-le-inside token (fetch_store n loaded) = ground arith
stale-le-inside token fetch_leave = omega arith
stale-le-inside token (add_lock a n) = omega arith
stale-le-inside token (add_load a n) = omega arith
stale-le-inside token (add_cap a n) = omega arith
stale-le-inside token (add_leave a n) = omega arith
stale-le-inside token (add_store a n loaded) = ground arith

-- Where thread `k` is the one inside, no other is stale, whatever the tokens are.
pub others-fresh :
    (token : ℕ) (xs : List At) (k : ℕ) (v w : At)
    → get_elem? xs k ≡ some v
    → is_inside v ≡ true
    → count_by is_inside xs ≤ 1
    → is_stale token w ≡ false
    → count_by (is_stale token) (set xs k w) ≡ 0
others-fresh token xs k v w e inside one fresh =
    let a = count_by-set is_inside xs k v outside e in
    let b = count_by-set (is_stale token) xs k v outside e in
    let c = count_by-set (is_stale token) xs k v w e in
    let d = count_by_mono (is_stale token) is_inside (stale-le-inside token) (set xs k outside) in
    omega (arith, a, b, c, d, one, ap one_if inside, ap one_if fresh)

pub count_by-woken :
    (p : At → Bool)
    → ((a : At) → p (woken a) ≡ p a)
    → (xs : List At) → count_by p (map woken xs) ≡ count_by p xs
count_by-woken p h [] = refl
count_by-woken p h (x ∷ xs) = omega (arith, count_by-woken p h xs, ap one_if (h x))

pub inside-woken : (a : At) → is_inside (woken a) ≡ is_inside a
inside-woken a = elim a as (λ b. is_inside (woken b) ≡ is_inside b) [
  | fetch_wait size ↦ refl
  | _ ↦ refl
]

pub stale-woken : (token : ℕ) (a : At) → is_stale token (woken a) ≡ is_stale token a
stale-woken token a = elim a as (λ b. is_stale token (woken b) ≡ is_stale token b) [
  | fetch_wait size ↦ refl
  | _ ↦ refl
]

pub get_elem?-woken :
    (xs : List At) (k : ℕ) (v : At)
    → get_elem? xs k ≡ some v
    → get_elem? (map woken xs) k ≡ some (woken v)
get_elem?-woken xs k v e = get_elem?-map woken xs k e
