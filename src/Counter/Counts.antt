-- ===== src/Counter/Counts.antt =====
-- The workers of 31.线程专题/mutex.c and its kin by what they have done.
use apue_li_huiqin.Base.{
  ℕ, ◌+◌, ◌≤◌, Bool, true, false, not, List, [], ◌∷◌, arith, ◌==◌, length, one_if, count_by,
}
use apue_li_huiqin.Counter.{At, opened, inside, got, put, finished, given_up}

-- Behind the lock and before the unlocking; with a number that is not that of the file; with the number
-- written; at the end.
abbrev pub is_within : At → Bool
is_within opened = false
is_within inside = true
is_within (got n) = true
is_within put = true
is_within finished = false
is_within given_up = false

abbrev pub is_got : At → Bool
is_got opened = false
is_got inside = false
is_got (got n) = true
is_got put = false
is_got finished = false
is_got given_up = false

abbrev pub is_stale : ℕ → At → Bool
is_stale m opened = false
is_stale m inside = false
is_stale m (got n) = not (n == m)
is_stale m put = false
is_stale m finished = false
is_stale m given_up = false

abbrev pub has_put : At → Bool
has_put opened = false
has_put inside = false
has_put (got n) = false
has_put put = true
has_put finished = true
has_put given_up = false

abbrev pub has_given_up : At → Bool
has_given_up opened = false
has_given_up inside = false
has_given_up (got n) = false
has_given_up put = false
has_given_up finished = false
has_given_up given_up = true

abbrev pub is_over : At → Bool
is_over opened = false
is_over inside = false
is_over (got n) = false
is_over put = false
is_over finished = true
is_over given_up = true

pub stale-le-got : (m : ℕ) (w : At) → one_if (is_stale m w) ≤ one_if (is_got w)
stale-le-got m opened = omega arith
stale-le-got m inside = omega arith
stale-le-got m (got n) = ground arith
stale-le-got m put = omega arith
stale-le-got m finished = omega arith
stale-le-got m given_up = omega arith

pub got-le-within : (w : At) → one_if (is_got w) ≤ one_if (is_within w)
got-le-within opened = omega arith
got-le-within inside = omega arith
got-le-within (got n) = omega arith
got-le-within put = omega arith
got-le-within finished = omega arith
got-le-within given_up = omega arith

-- A worker at its end has put its number or given up, and none has done both.
pub over-parts :
    (ws : List At) → count_by is_over ws ≤ count_by has_put ws + count_by has_given_up ws
over-parts [] = omega arith
over-parts (opened ∷ ws) = omega (arith, over-parts ws)
over-parts (inside ∷ ws) = omega (arith, over-parts ws)
over-parts (got n ∷ ws) = omega (arith, over-parts ws)
over-parts (put ∷ ws) = omega (arith, over-parts ws)
over-parts (finished ∷ ws) = omega (arith, over-parts ws)
over-parts (given_up ∷ ws) = omega (arith, over-parts ws)

pub parts-le-length : (ws : List At) → count_by has_put ws + count_by has_given_up ws ≤ length ws
parts-le-length [] = omega arith
parts-le-length (opened ∷ ws) = omega (arith, parts-le-length ws)
parts-le-length (inside ∷ ws) = omega (arith, parts-le-length ws)
parts-le-length (got n ∷ ws) = omega (arith, parts-le-length ws)
parts-le-length (put ∷ ws) = omega (arith, parts-le-length ws)
parts-le-length (finished ∷ ws) = omega (arith, parts-le-length ws)
parts-le-length (given_up ∷ ws) = omega (arith, parts-le-length ws)
