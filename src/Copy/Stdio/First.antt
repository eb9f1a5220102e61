-- ===== src/Copy/Stdio/First.antt =====
-- 25.标准IO/fread_1.c and fgets_1.c, which copy the beginning of a file to dest.txt. The prints of the buffer
-- are left out; dest.txt is taken to be opened, since its `fopen` is not looked at.
use apue_li_huiqin.Base.{
  ℕ, ◌<◌, ◌≡◌, refl, Option, none, some, List, [], ◌∷◌, ◌++◌, arith, length, take, drop, replicate,
}
use apue_li_huiqin.Datagram.{until_zero}

abbrev blocknum : ℕ
blocknum = 5

-- memset(buf, 'A', sizeof(buf)) of fread_1.c
abbrev fresh : List ℕ
fresh = replicate 10 65

-- fread(buf, 1, BLOCKNUM, fp)
unfoldable pub fread : List ℕ → List ℕ → List ℕ
fread file buf = take blocknum file ++ drop (length (take blocknum file)) buf

-- `main` of fread_1.c: the text of dest.txt, or `none` where there is no file.
unfoldable pub fread_main : Option (List ℕ) → Option (List ℕ)
unfolding fread
fread_main none = none
fread_main (some file) = some (take blocknum (fread file fresh))

-- fgets(buf, 2, fp), which leaves the buffer as it is at the end of the file.
unfoldable pub fgets : List ℕ → List ℕ → List ℕ
fgets [] buf = buf
fgets (c ∷ cs) buf = c ∷ 0 ∷ []

-- `main` of fgets_1.c; `beyond` is what the memory has behind the buffer.
unfoldable pub fgets_main : Option (List ℕ) → List ℕ → Option (List ℕ)
unfolding fgets until_zero
fgets_main none beyond = none
fgets_main (some file) beyond = some (until_zero (fgets file (65 ∷ 65 ∷ []) ++ beyond))

-- fread_1.c always writes five bytes: of a shorter file, all that it has, and then the letter A.
fread_main-take : (file : List ℕ) → fread_main (some file) ≡ some (take 5 (file ++ replicate 5 65))
unfolding fread_main fread
fread_main-take [] = refl
fread_main-take (a ∷ []) = refl
fread_main-take (a ∷ b ∷ []) = refl
fread_main-take (a ∷ b ∷ c ∷ []) = refl
fread_main-take (a ∷ b ∷ c ∷ d ∷ []) = refl
fread_main-take (a ∷ b ∷ c ∷ d ∷ e ∷ rest) = refl

-- fgets_1.c writes the first byte of a file; of an empty file, two letters A and what lies behind the buffer.
fgets_main-until_zero :
    (c : ℕ) (cs beyond : List ℕ)
    → 0 < c
    → (fgets_main (some (c ∷ cs)) beyond ≡ some (c ∷ []))
      × (fgets_main (some []) beyond ≡ some (65 ∷ 65 ∷ until_zero beyond))
unfolding fgets_main fgets until_zero
fgets_main-until_zero c cs beyond h = (ground arith, refl)
