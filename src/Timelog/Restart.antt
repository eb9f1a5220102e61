-- ===== src/Timelog/Restart.antt =====
-- 28.目录和用户操作/timelog.c goes on with its own file.
use mathlib.Core.List.{append_assoc}
use apue_li_huiqin.Base.{
  ℕ, zero, suc, ◌+◌, ◌-◌, ◌≤◌, ◌<◌, ◌≡◌, refl, ap, ◌∙◌, sym, ◌||◌, some, List, [], ◌∷◌, ◌++◌, ◌==◌,
  if◌then◌else◌, length, replicate, eq_of_some, length-append, length-replicate, arith, All,
  All-append, All-replicate, ltb, ◌/◌, ◌%◌, Bool-cases, inl, inr,
}
use apue_li_huiqin.Stamp.{digits}
use apue_li_huiqin.Stamp.Digits.{length-digits}
use apue_li_huiqin.Timelog.{buffsize, Tm, count_from, decimal, padded, field, entry, log, main}

-- The bytes in the buffer at the end of the file: none where it is empty or ends with its line.
unfoldable pub used_at_end : ℕ → List ℕ → ℕ
used_at_end used [] = used
used_at_end used (c ∷ cs) =
    let next = used_at_end 0 cs in
    let same = used_at_end (used + 1) cs in
    if (c == 10) || (used + 2 == buffsize) then next else same

count_from-append :
    (used : ℕ) (xs ys : List ℕ)
    → used_at_end used xs ≡ 0
    → count_from used (xs ++ ys) ≡ count_from used xs + count_from 0 ys
unfolding count_from used_at_end
count_from-append used [] ys h = ground arith
count_from-append used (c ∷ cs) ys h =
    ground (arith, count_from-append 0 cs ys, count_from-append (used + 1) cs ys)

used_at_end-append :
    (used : ℕ) (xs ys : List ℕ)
    → used_at_end used xs ≡ 0
    → used_at_end used (xs ++ ys) ≡ used_at_end 0 ys
unfolding used_at_end
used_at_end-append used [] ys h = ground arith
used_at_end-append used (c ∷ cs) ys h =
    ground (arith, used_at_end-append 0 cs ys, used_at_end-append (used + 1) cs ys)

-- No newline, nor a character before it.
abbrev Printed : ℕ → Type 0
Printed c = 10 < c

-- A line with no other newline in it that the buffer has room for.
line-counts :
    (used : ℕ) (line : List ℕ)
    → All Printed line
    → used + length line + 2 < buffsize
    → (count_from used (line ++ 10 ∷ []) ≡ 1) × (used_at_end used (line ++ 10 ∷ []) ≡ 0)
unfolding count_from used_at_end
line-counts used [] h p = (refl, refl)
line-counts used (c ∷ cs) h p =
    let rest = line-counts (used + 1) cs h.1 (omega arith) in
    (ground (arith, h.0, rest.0), ground (arith, h.0, rest.1))

digits-All : (fuel n : ℕ) → All Printed (digits fuel n)
unfolding digits
digits-All zero n = omega arith
digits-All (suc fuel) n = elim (Bool-cases (ltb n 10)) [
  | inl small ↦ rw small (omega arith)
  | inr large ↦ rw large (
      All-append Printed (digits fuel (n / 10)) ((48 + n % 10) ∷ []) (digits-All fuel (n / 10))
        (omega arith))
]

-- The text of a number has no newline and at most ten characters.
record IsWord (most : ℕ) (text : List ℕ) : Type 0 where
  printed : All Printed text
  bounded : length text ≤ most

decimal-IsWord : (n : ℕ) → IsWord 10 (decimal n)
unfolding decimal
decimal-IsWord n = record { printed = digits-All 9 n; bounded = length-digits 9 n }

append-IsWord :
    (most more : ℕ) (xs ys : List ℕ)
    → IsWord most xs
    → IsWord more ys
    → IsWord (most + more) (xs ++ ys)
append-IsWord most more xs ys v w = record {
  printed = All-append Printed xs ys v.printed w.printed;
  bounded = omega (arith, v.bounded, w.bounded, length-append xs ys);
}

padded-IsWord : (n : ℕ) → IsWord 14 (padded n)
unfolding padded
padded-IsWord n =
    let spaces : List ℕ = replicate (4 - length (decimal n)) 32 in
    append-IsWord 10 4 (decimal n) spaces (decimal-IsWord n) (record {
      printed = All-replicate Printed (4 - length (decimal n)) 32 (omega arith);
      bounded = omega (arith, length-replicate {A = ℕ} (4 - length (decimal n)) 32);
    })

field-IsWord :
    (n separator most : ℕ) (rest : List ℕ)
    → 10 < separator
    → IsWord most rest
    → IsWord (10 + suc most) (field n separator rest)
unfolding field
field-IsWord n separator most rest h w =
    append-IsWord 10 (suc most) (decimal n) (separator ∷ rest) (decimal-IsWord n)
      (record { printed = (h, w.printed); bounded = omega (arith, w.bounded) })

-- An entry without its newline.
body : ℕ → Tm → List ℕ
body count mytm =
    let time = field mytm.tm_hour 58 (field mytm.tm_min 58 (decimal mytm.tm_sec)) in
    padded count
    ++ field (mytm.tm_year + 1900) 45 (field (mytm.tm_mon + 1) 45 (field mytm.tm_mday 32 time))

body-IsWord : (count : ℕ) (mytm : Tm) → IsWord 79 (body count mytm)
unfolding body
body-IsWord count mytm = append-IsWord 14 65 (padded count) _ (padded-IsWord count) (
    field-IsWord (mytm.tm_year + 1900) 45 54 _ (omega arith) (
      field-IsWord (mytm.tm_mon + 1) 45 43 _ (omega arith) (
        field-IsWord mytm.tm_mday 32 32 _ (omega arith) (
          field-IsWord mytm.tm_hour 58 21 _ (omega arith)
            (field-IsWord mytm.tm_min 58 10 _ (omega arith) (decimal-IsWord mytm.tm_sec))))))

entry-body : (count : ℕ) (mytm : Tm) → entry count mytm ≡ body count mytm ++ 10 ∷ []
unfolding entry body field
entry-body count mytm = simp append_assoc refl

-- The entry is counted by one call of `fgets`, and ends with it.
entry-counts :
    (count : ℕ) (mytm : Tm)
    → (count_from 0 (entry count mytm) ≡ 1) × (used_at_end 0 (entry count mytm) ≡ 0)
entry-counts count mytm =
    let w = body-IsWord count mytm in
    rw (entry-body count mytm)
      (line-counts 0 (body count mytm) w.printed (omega (arith, w.bounded)))

-- Behind so many lines written to a file that ends with a line.
log-counts :
    (count : ℕ) (times : List Tm) (file : List ℕ)
    → count_from 0 file ≡ count
    → used_at_end 0 file ≡ 0
    → (count_from 0 (log count times file) ≡ count + length times)
      × (used_at_end 0 (log count times file) ≡ 0)
unfolding log
log-counts count [] file h e = (omega (arith, h), e)
log-counts count (mytm ∷ times) file h e =
    let one = entry-counts (count + 1) mytm in
    let rest =
      log-counts (count + 1) times (file ++ entry (count + 1) mytm)
        (omega (arith, h, one.0, count_from-append 0 file (entry (count + 1) mytm) e))
        (used_at_end-append 0 file (entry (count + 1) mytm) e ∙ one.1) in
    (omega (arith, rest.0), rest.1)

log-append :
    (count : ℕ) (times more : List Tm) (file : List ℕ)
    → log count (times ++ more) file ≡ log (count + length times) more (log count times file)
unfolding log
log-append count [] more file = ap (λ n. log n more file) (omega arith)
log-append count (mytm ∷ times) more file =
    let shift : count + 1 + length times ≡ count + length (mytm ∷ times) = omega arith in
    log-append (count + 1) times more (file ++ entry (count + 1) mytm)
    ∙ ap (λ n. log n more (log (count + 1) times (file ++ entry (count + 1) mytm))) shift

-- A run that is started again on its own file goes on where the earlier one was stopped: two runs leave what
-- one run of all their seconds leaves, with the same numbers. At first the file is
-- empty, or it ends with a newline or, without one, where the buffer of `fgets` is full.
pub main-restart :
    (file : List ℕ) (times more : List Tm) (middle : List ℕ)
    → used_at_end 0 file ≡ 0
    → main (some file) times ≡ some middle
    → main (some middle) more ≡ main (some file) (times ++ more)
unfolding main
main-restart file times more middle h e =
    let counts = log-counts (count_from 0 file) times file refl h in
    let stopped : log (count_from 0 file) times file ≡ middle = eq_of_some e in
    rw (← stopped) (
      ap some (
        ap (λ n. log n more (log (count_from 0 file) times file)) counts.0
        ∙ sym (log-append (count_from 0 file) times more file)))
