-- ===== src/Getline/Text.antt =====
-- Turns of the loop of `mygetline` (25.标准IO/getline_5.c) within a line.
use mathlib.Core.List.{append_assoc}
use apue_li_huiqin.Base.{
  ℕ, zero, suc, ◌+◌, ◌-◌, ◌≤◌, ◌<◌, ◌≡◌, ◌≢◌, refl, sym, ◌∙◌, ap, false, Option, none, some, List,
  [], ◌∷◌, ◌++◌, arith, ◌==◌, length, take, drop, replicate, All, length-append, length-take,
  take-append-drop,
}
use apue_li_huiqin.Getline.{
  get_chunk, fgets, find_end, filled, found, full, ended, scan, after_fgets, turn,
}

-- A byte within a line: neither '\n' nor '\0'.
abbrev pub IsText : ℕ → Type 0
IsText c = (c ≢ 10) × (c ≢ 0)

-- A line that fits comes whole.
get_chunk-fits :
    (n : ℕ) (l rest : List ℕ)
    → All IsText l
    → length l < n
    → get_chunk n (l ++ 10 ∷ rest) ≡ l ++ 10 ∷ []
unfolding get_chunk
get_chunk-fits zero l rest h k = absurd (omega arith)
get_chunk-fits (suc n) [] rest h k = refl
get_chunk-fits (suc n) (c ∷ cs) rest h k =
    ground (arith, get_chunk-fits n cs rest h.1 (omega arith))

-- Of a longer one comes the beginning.
pub get_chunk-long :
    (n : ℕ) (l rest : List ℕ) → All IsText l → n ≤ length l → get_chunk n (l ++ rest) ≡ take n l
unfolding get_chunk
get_chunk-long zero l rest h k = refl
get_chunk-long (suc n) [] rest h k = absurd (omega arith)
get_chunk-long (suc n) (c ∷ cs) rest h k =
    ground (arith, get_chunk-long n cs rest h.1 (omega arith))

pub take-prefix : (n : ℕ) (xs ys : List ℕ) → length xs ≡ n → take n (xs ++ ys) ≡ xs
take-prefix zero [] ys e = refl
take-prefix zero (x ∷ xs) ys e = absurd (omega arith)
take-prefix (suc n) [] ys e = absurd (omega arith)
take-prefix (suc n) (x ∷ xs) ys e = ap (λ zs. x ∷ zs) (take-prefix n xs ys (omega arith))

pub drop-prefix : (n : ℕ) (xs ys : List ℕ) → length xs ≡ n → drop n (xs ++ ys) ≡ ys
drop-prefix zero [] ys e = refl
drop-prefix zero (x ∷ xs) ys e = absurd (omega arith)
drop-prefix (suc n) [] ys e = absurd (omega arith)
drop-prefix (suc n) (x ∷ xs) ys e = drop-prefix n xs ys (omega arith)

-- The search finds the newline behind text that the window shows, and nothing in text.
find_end-newline :
    (n : ℕ) (l more : List ℕ) (ii : ℕ)
    → All IsText l
    → length l < n
    → find_end (take n (l ++ 10 ∷ more)) ii ≡ some (ii + length l)
unfolding find_end
find_end-newline zero l more ii h k = absurd (omega arith)
find_end-newline (suc n) [] more ii h k = ap some (omega arith)
find_end-newline (suc n) (c ∷ cs) more ii h k =
    ground (arith, find_end-newline n cs more (ii + 1) h.1 (omega arith))

find_end-text : (l : List ℕ) (ii : ℕ) → All IsText l → find_end l ii ≡ none
unfolding find_end
find_end-text [] ii h = refl
find_end-text (c ∷ cs) ii h = ground (arith, find_end-text cs (ii + 1) h.1)

pub All-take : (n : ℕ) (l : List ℕ) → All IsText l → All IsText (take n l)
All-take zero l h = tt
All-take (suc n) [] h = tt
All-take (suc n) (c ∷ cs) h = (h.0, All-take n cs h.1)

pub All-drop : (n : ℕ) (l : List ℕ) → All IsText l → All IsText (drop n l)
All-drop zero l h = h
All-drop (suc n) [] h = tt
All-drop (suc n) (c ∷ cs) h = All-drop n cs h.1

fgets-some :
    (size : ℕ) (input got left : List ℕ)
    → get_chunk (size - 1) input ≡ got
    → 0 < length got
    → drop (length got) input ≡ left
    → fgets size input ≡ some (got, left)
unfolding fgets
fgets-some size input got left c pos d =
    let nonzero : (length got == 0) ≡ false = ground (arith, pos) in rw (c, nonzero, d)

module _ (begin end : ℕ) (buf done l rest : List ℕ) (e : take begin buf ≡ done)
    (len : length done ≡ begin) (text : All IsText l) where
  -- The buffer after a turn that has read `got`.
  abbrev after : List ℕ → List ℕ
  after got = done ++ (got ++ replicate (end - begin - length got) 0)

  after-drop :
      (got : List ℕ) → drop begin (after got) ≡ got ++ replicate (end - begin - length got) 0
  after-drop got = drop-prefix begin done (got ++ replicate (end - begin - length got) 0) len

  turn-fgets :
      (got left input : List ℕ)
      → fgets (end - begin) input ≡ some (got, left)
      → turn begin end buf input ≡ scan begin end (filled buf begin end got) left
  unfolding turn after_fgets
  turn-fgets got left input f = ap (after_fgets begin end buf) f

  -- `fgets` stores `got` and leaves `left`; the search of the window that shows it answers `o`.
  turn-ended :
      (got left input : List ℕ) (o : Option ℕ)
      → get_chunk (end - begin - 1) input ≡ got
      → 0 < length got
      → drop (length got) input ≡ left
      → find_end (take (end - 1 - begin) (got ++ replicate (end - begin - length got) 0)) begin ≡ o
      → turn begin end buf input ≡ ended (after got) left o
  unfolding scan ended filled
  turn-ended got left input o chunk pos d w =
      let f : fgets (end - begin) input ≡ some (got, left) =
        fgets-some (end - begin) input got left chunk pos d in
      turn-fgets got left input f
      ∙ ap (λ t. scan begin end (t ++ (got ++ replicate (end - begin - length got) 0)) left) e
      ∙ ap (λ b. ended (after got) left (find_end (take (end - 1 - begin) b) begin))
          (after-drop got)
      ∙ ap (ended (after got) left) w

  pub turn-short :
      length l < end - 1 - begin
      → turn begin end buf (l ++ 10 ∷ rest) ≡ found (after (l ++ 10 ∷ [])) rest (begin + length l)
  unfolding ended
  turn-short k =
      let got : List ℕ = l ++ 10 ∷ [] in
      let zeros : List ℕ = replicate (end - begin - length got) 0 in
      let c = get_chunk-fits (end - begin - 1) l rest text (omega (arith, k)) in
      let size : length got ≡ length l + 1 = length-append l (10 ∷ []) in
      let split = append_assoc l (10 ∷ []) rest in
      let left : drop (length got) (l ++ 10 ∷ rest) ≡ rest =
        ap (drop (length got)) (sym split) ∙ drop-prefix (length got) got rest refl in
      let window : find_end (take (end - 1 - begin) (got ++ zeros)) begin
          ≡ some (begin + length l) =
        ap (λ w. find_end (take (end - 1 - begin) w) begin) (append_assoc l (10 ∷ []) zeros)
        ∙ find_end-newline (end - 1 - begin) l zeros begin text k in
      turn-ended got rest (l ++ 10 ∷ rest) (some (begin + length l)) c (omega (arith, size)) left
        window

  pub turn-long :
      0 < end - 1 - begin
      → end - 1 - begin ≤ length l
      → turn begin end buf (l ++ rest)
        ≡ full (after (take (end - 1 - begin) l)) (drop (end - 1 - begin) l ++ rest)
  unfolding ended
  turn-long pos k =
      let n : ℕ = end - 1 - begin in
      let got : List ℕ = take n l in
      let zeros : List ℕ = replicate (end - begin - length got) 0 in
      let same : end - begin - 1 ≡ n = omega arith in
      let size : length got ≡ n = omega (arith, length-take n l) in
      let c : get_chunk (end - begin - 1) (l ++ rest) ≡ got =
        ap (λ m. get_chunk m (l ++ rest)) same ∙ get_chunk-long n l rest text k in
      let left : drop (length got) (l ++ rest) ≡ drop n l ++ rest =
        ap (λ t. drop (length got) (t ++ rest)) (sym (take-append-drop n l))
        ∙ ap (drop (length got)) (append_assoc got (drop n l) rest)
        ∙ drop-prefix (length got) got (drop n l ++ rest) refl in
      let window : find_end (take n (got ++ zeros)) begin ≡ none =
        ap (λ w. find_end w begin) (take-prefix n got zeros size)
        ∙ find_end-text got begin (All-take n l text) in
      turn-ended got (drop n l ++ rest) (l ++ rest) none c (omega (arith, size)) left window
