-- ===== src/Getline/Tests.antt =====
-- Runs of `mygetline` (25.标准IO/getline_3.c, getline_4.c and getline_5.c), and the theorems about it at concrete files.
use mathlib.Core.Option
use apue_li_huiqin.Base.{
  inr, ℕ, ◌≡◌, refl, none, some, List, [], ◌∷◌, ◌++◌, arith, map, replicate, if◌then◌else◌,
}
use apue_li_huiqin.Getline.{Line, turn, finish, fgets, mygetline, read_lines}
use apue_li_huiqin.Getline.Earlier.{
  elsewhere, undefined, returned, turn_3, on_stack, first_size, mygetline_3,
}
use apue_li_huiqin.Getline.Earlier.Same.{does_fit, mygetline_3-mygetline}
use apue_li_huiqin.Getline.Last.{unlines, shown, read_lines-unlines, mygetline-loses}

abbrev short : List ℕ
short = 97 ∷ []

abbrev long : List ℕ
long = 98 ∷ 99 ∷ 100 ∷ 101 ∷ 102 ∷ 103 ∷ 104 ∷ []

abbrev lines : List (List ℕ)
lines = short ∷ [] ∷ long ∷ []

-- The buffer grows from 4 bytes to 16 for the third line.
run-read_lines :
    map {B = ℕ × ℕ} (λ line. (line.len, line.size)) (read_lines 9 50 none 0 (unlines lines))
    ≡ (2, 4) ∷ (1, 4) ∷ (8, 16) ∷ []
unfolding read_lines
run-read_lines = refl

-- With an array of 10 bytes on the stack, as `main` of getline_3.c has: a line of 7 bytes is read, one of
-- 10 makes `realloc` undefined.
abbrev zeros : List ℕ
zeros = replicate 10 0

run-mygetline_3 :
    (elim (mygetline_3 9 (elsewhere zeros) 10 (long ++ 10 ∷ [])) [
      | undefined ↦ none
      | returned o ↦ Option.map (λ (line : Line). line.len) o
    ]
      ≡ some 8)
    × (mygetline_3 9 (elsewhere zeros) 10 (long ++ (1 ∷ 2 ∷ 3 ∷ 10 ∷ [])) ≡ undefined)
unfolding mygetline_3 on_stack turn_3 finish first_size fgets
run-mygetline_3 = (refl, refl)

mygetline_3-mygetline_example : mygetline_3 9 (elsewhere zeros) 10 (unlines lines) ≡ (
    if does_fit (turn 0 10 zeros (unlines lines))
    then returned (mygetline 9 (some zeros) 10 (unlines lines))
    else undefined)
mygetline_3-mygetline_example =
    mygetline_3-mygetline 9 10 (elsewhere zeros) (unlines lines) (inr (omega arith))

read_lines-unlines_example :
    map shown (read_lines 9 50 none 0 (unlines lines)) ≡ map (λ l. l ++ 10 ∷ []) lines
read_lines-unlines_example =
    read_lines-unlines 9 50 0 none lines (ground arith) tt (omega arith) (omega arith)

mygetline-loses_example : mygetline 50 (some (0 ∷ 0 ∷ 0 ∷ 0 ∷ [])) 4 long ≡ none
mygetline-loses_example =
    mygetline-loses 1 50 4 (0 ∷ 0 ∷ 0 ∷ 0 ∷ []) long (ground arith) (omega arith) refl
