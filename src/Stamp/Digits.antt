-- ===== src/Stamp/Digits.antt =====
-- The digits that `sprintf` of 35.网络编程专题/流式套接字/server.c prints, and what `read_digits` makes of
-- a beginning of them.
use mathlib.Core.List.{append_assoc}
use native.Mathlib.Nat.{div-div-eq-div-mul}
use native.Mathlib.Omega.{pow_step}
use native.Mathlib.Decide.{dec_lt}
use apue_li_huiqin.Base.{
  ℕ, zero, suc, ◌+◌, ◌-◌, ◌*◌, ◌/◌, ◌%◌, ◌^◌, ◌<◌, ◌≤◌, ◌≡◌, refl, ap, ◌∙◌, sym, Bool, true, false,
  List, [], ◌∷◌, ◌++◌, inl, inr, arith, ltb, length, take, Bool-cases, length-append, take_all,
}
use apue_li_huiqin.Stamp.{digits, read_digits, is_digit}

-- The text begins with a digit.
abbrev pub begins : List ℕ → Bool
begins [] = false
begins (c ∷ cs) = is_digit c

read_digits-digit :
    (value d next : ℕ) (rest : List ℕ)
    → d < 10
    → value * 10 + d ≡ next
    → read_digits value ((48 + d) ∷ rest) ≡ read_digits next rest
unfolding read_digits is_digit
read_digits-digit value d next rest h e = ground arith

-- The digits of a whole number are read as that number.
read_digits-digits :
    (fuel n : ℕ) (rest : List ℕ)
    → n < 10 ^ suc fuel
    → read_digits 0 (digits fuel n ++ rest) ≡ read_digits n rest
unfolding digits
read_digits-digits zero n rest h = read_digits-digit 0 n n rest (omega arith) (omega arith)
read_digits-digits (suc fuel) n rest h = elim (Bool-cases (ltb n 10)) [
  | inl small ↦ rw small (read_digits-digit 0 n n rest (ground arith) (omega arith))
  | inr large ↦
      rw (large, append_assoc)
        (read_digits-digits fuel (n / 10) ((48 + n % 10) ∷ rest) (omega arith)
          ∙ read_digits-digit (n / 10) (n % 10) n rest (omega arith) (omega arith))
]

pub digits-pos : (fuel n : ℕ) → 0 < length (digits fuel n)
unfolding digits
digits-pos zero n = omega arith
digits-pos (suc fuel) n = elim (Bool-cases (ltb n 10)) [
  | inl small ↦ rw small (omega arith)
  | inr large ↦ rw large (omega (arith, length-append (digits fuel (n / 10)) ((48 + n % 10) ∷ [])))
]

pub length-digits : (fuel n : ℕ) → length (digits fuel n) ≤ suc fuel
unfolding digits
length-digits zero n = omega arith
length-digits (suc fuel) n = elim (Bool-cases (ltb n 10)) [
  | inl small ↦ rw small (omega arith)
  | inr large ↦ rw large (
      omega (
        arith,
        length-append (digits fuel (n / 10)) ((48 + n % 10) ∷ []),
        length-digits fuel (n / 10),
      ))
]

take-snoc {ℓ} :
    {A : Type ℓ} (k : ℕ) (xs : List A) (x : A) → k ≤ length xs → take k (xs ++ x ∷ []) ≡ take k xs
take-snoc zero xs x h = refl
take-snoc (suc k) [] x h = absurd (omega arith)
take-snoc (suc k) (y ∷ xs) x h = ap (λ l. y ∷ l) (take-snoc k xs x (omega arith))

div-pow_suc : (n m k : ℕ) → k ≤ m → n / 10 / 10 ^ (m - k) ≡ n / 10 ^ (m + 1 - k)
div-pow_suc n m k h =
    let next : m + 1 - k ≡ suc (m - k) = omega arith in
    div-div-eq-div-mul n 10 (10 ^ (m - k))
    ∙ rw next (ap (λ (p : ℕ). n / p) (sym (pow_step 10 (m - k))))

div-pow_none : (n l k : ℕ) → l ≤ k → n ≡ n / 10 ^ (l - k)
div-pow_none n l k h = let none_left : l - k ≡ 0 = omega arith in rw none_left (omega arith)

-- A beginning of the digits is read as the number without its other digits.
pub read_digits-take :
    (fuel n k : ℕ) (rest : List ℕ)
    → n < 10 ^ suc fuel
    → 0 < k
    → read_digits 0 (take k (digits fuel n) ++ rest)
      ≡ read_digits (n / 10 ^ (length (digits fuel n) - k)) rest
unfolding digits
read_digits-take fuel n zero rest h p = absurd (omega arith)
read_digits-take zero n (suc k) rest h p = rw (take_all {A = ℕ} k [] (omega arith)) (
    read_digits-digit 0 n (n / 10 ^ (1 - suc k)) rest (omega arith)
      (omega (arith, div-pow_none n 1 (suc k) (omega arith))))
read_digits-take (suc fuel) n (suc k) rest h p = elim (Bool-cases (ltb n 10)) [
  | inl small ↦
      rw (small, take_all {A = ℕ} k [] (omega arith))
        (read_digits-digit 0 n (n / 10 ^ (1 - suc k)) rest (ground arith)
          (omega (arith, div-pow_none n 1 (suc k) (omega arith))))
  | inr large ↦
      let ds : List ℕ = digits fuel (n / 10) in
      let last : List ℕ = (48 + n % 10) ∷ [] in
      let more : length (ds ++ last) ≡ length ds + 1 = length-append ds last in
      rw (large, more)
        (elim (dec_lt (length ds) (suc k)) [
          | yes q ↦
              rw (take_all (suc k) (ds ++ last) (omega arith), append_assoc)
                (read_digits-digits fuel (n / 10) ((48 + n % 10) ∷ rest) (omega arith)
                  ∙ read_digits-digit (n / 10) (n % 10) (n / 10 ^ (length ds + 1 - suc k)) rest
                      (omega arith)
                      (omega (arith, div-pow_none n (length ds + 1) (suc k) (omega arith))))
          | no q ↦ rw (take-snoc (suc k) ds (48 + n % 10) (omega arith)) (
              read_digits-take fuel (n / 10) (suc k) rest (omega arith) p
              ∙ ap (λ v. read_digits v rest) (div-pow_suc n (length ds) (suc k) (omega arith)))
        ])
]

append-begins : (xs ys : List ℕ) → begins xs ≡ true → begins (xs ++ ys) ≡ true
append-begins [] ys h = cc
append-begins (x ∷ xs) ys h = h

take-begins : (k : ℕ) (xs : List ℕ) → 0 < k → begins xs ≡ true → begins (take k xs) ≡ true
take-begins zero xs p h = absurd (omega arith)
take-begins (suc k) [] p h = h
take-begins (suc k) (x ∷ xs) p h = h

whole-begins : (fuel n : ℕ) → n < 10 ^ suc fuel → begins (digits fuel n) ≡ true
unfolding digits is_digit
whole-begins zero n h = ground arith
whole-begins (suc fuel) n h = elim (Bool-cases (ltb n 10)) [
  | inl small ↦ rw small (ground arith)
  | inr large ↦ rw large (
      append-begins (digits fuel (n / 10)) ((48 + n % 10) ∷ [])
        (whole-begins fuel (n / 10) (omega arith)))
]

pub digits-begins :
    (fuel n k : ℕ) (rest : List ℕ)
    → n < 10 ^ suc fuel
    → 0 < k
    → begins (take k (digits fuel n) ++ rest) ≡ true
digits-begins fuel n k rest h p =
    append-begins (take k (digits fuel n)) rest
      (take-begins k (digits fuel n) p (whole-begins fuel n h))
