-- ===== src/Cyclic/Letters.antt =====
-- What 31.线程专题/abcd_cond.c and abcd.c promise: the letters in their order, again and again.
use native.Mathlib.Nat.{suc-mod, mod_self, mod-lt, mod-eq_of_lt}
use apue_li_huiqin.Base.{
  ℕ, zero, suc, ◌+◌, ◌%◌, ◌<◌, ◌≡◌, refl, sym, ◌∙◌, ap, List, [], ◌∷◌, ◌++◌, arith, ◌==◌, length,
  length-append, Bool-cases, inl, inr,
}
use apue_li_huiqin.Cyclic.{next}

-- The first `m` letters that `n` threads write in turn.
abbrev pub letters : ℕ → ℕ → List ℕ
letters n zero = []
letters n (suc m) = letters n m ++ (b'a' + m % n) ∷ []

pub length-letters : (n m : ℕ) → length (letters n m) ≡ m
length-letters n zero = refl
length-letters n (suc m) =
    omega (arith, length-append (letters n m) ((b'a' + m % n) ∷ []), length-letters n m)

-- `next` counts modulo the number of threads.
pub next-mod : (n m : ℕ) → 0 < n → next n (m % n) ≡ suc m % n
unfolding next
next-mod n m pos = elim (Bool-cases (m % n + 1 == n)) [
  | inl e ↦
      let last : suc (m % n) ≡ n = ground arith in
      rw (next, e) (sym (suc-mod m n ∙ ap (λ (k : ℕ). k % n) last ∙ mod_self n))
  | inr e ↦
      let more : suc (m % n) < n = ground (arith, mod-lt m pos) in
      rw (next, e) (sym (suc-mod m n ∙ mod-eq_of_lt more ∙ omega arith))
]
