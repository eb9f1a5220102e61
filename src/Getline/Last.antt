-- ===== src/Getline/Last.antt =====
-- The calls of `mygetline` in 25.标准IO/getline_5.c over a whole file, and at its end.
use mathlib.Core.List.{append_assoc}
use apue_li_huiqin.Base.{
  ℕ, zero, suc, ◌+◌, ◌-◌, ◌*◌, ◌≤◌, ◌<◌, ◌≡◌, refl, sym, ◌∙◌, ap, false, Option, none, some, List,
  [], ◌∷◌, ◌++◌, arith, ltb, length, take, drop, replicate, All, map, length-zero, length-append,
  length-take, length-drop,
}
use apue_li_huiqin.Getline.{
  get_chunk, fgets, Line, over, full, after_fgets, turn, grow_loop, widen, mygetline,
}
use apue_li_huiqin.Getline.{read_lines}
use apue_li_huiqin.Getline.Text.{IsText, turn-long, take-prefix, All-drop}
use apue_li_huiqin.Getline.Newline.{HasRoom, mygetline-Got}

-- The file that has these lines, each with its newline.
abbrev pub unlines : List (List ℕ) → List ℕ
unlines [] = []
unlines (l ∷ ls) = l ++ 10 ∷ unlines ls

-- A number of allocations that is enough for these lines.
abbrev pub allocations : List (List ℕ) → ℕ
allocations [] = 0
allocations (l ∷ ls) = length l + 2 + allocations ls

-- What the caller finds in the buffer.
abbrev pub shown : Line → List ℕ
shown line = take line.len line.buf

get_chunk-nil : (n : ℕ) → get_chunk n [] ≡ []
unfolding get_chunk
get_chunk-nil zero = refl
get_chunk-nil (suc n) = refl

turn-nil : (begin end : ℕ) (buf : List ℕ) → turn begin end buf [] ≡ over
unfolding turn fgets after_fgets
turn-nil begin end buf = rw (turn, fgets, get_chunk-nil (end - begin - 1)) refl

-- At the end of the file the loop gets nothing.
grow_loop-nil :
    (grants bufsize begin end : ℕ) (buf : List ℕ) → grow_loop grants bufsize begin end buf [] ≡ none
unfolding grow_loop
grow_loop-nil zero bufsize begin end buf = rw (grow_loop, turn-nil begin end buf) refl
grow_loop-nil (suc grants) bufsize begin end buf = rw (grow_loop, turn-nil begin end buf) refl

widen-nil : (grants bufsize end : ℕ) (buf : List ℕ) → widen grants bufsize end buf [] ≡ none
unfolding widen
widen-nil zero bufsize end buf = ground (arith, grow_loop-nil zero bufsize 0 end buf)
widen-nil (suc grants) bufsize end buf = ground (
  arith,
  grow_loop-nil grants bufsize 0 (end * 2) buf,
  grow_loop-nil (suc grants) bufsize 0 end buf,
)

mygetline-nil : (grants bufsize : ℕ) (p : Option (List ℕ)) → mygetline grants p bufsize [] ≡ none
unfolding mygetline
mygetline-nil zero bufsize none = refl
mygetline-nil (suc grants) bufsize none = widen-nil grants bufsize 4 []
mygetline-nil zero bufsize (some buf) = ground (arith, widen-nil zero bufsize bufsize buf)
mygetline-nil (suc grants) bufsize (some buf) =
    ground (arith, widen-nil (suc grants) bufsize bufsize buf)

-- The calls of `mygetline` until it returns -1 return the lines of the file, whole and in order, where
-- every line ends with a newline, none has a NUL, the first buffer is NULL or has a byte, and for each
-- line two allocations more succeed than it has bytes before the newline; one call more than there are
-- lines is enough.
pub read_lines-unlines :
    (fuel grants bufsize : ℕ) (p : Option (List ℕ)) (ls : List (List ℕ))
    → All (All IsText) ls
    → HasRoom p bufsize
    → length ls < fuel
    → allocations ls ≤ grants
    → map shown (read_lines fuel grants p bufsize (unlines ls)) ≡ map (λ l. l ++ 10 ∷ []) ls
unfolding read_lines
read_lines-unlines zero grants bufsize p ls text h k g = absurd (omega arith)
read_lines-unlines (suc fuel) grants bufsize p [] text h k g =
    rw (read_lines, mygetline-nil grants bufsize p) refl
read_lines-unlines (suc fuel) grants bufsize p (l ∷ ls) text h k g =
    let r = mygetline-Got grants bufsize p l (unlines ls) text.0 h (omega arith) in
    let line : Line = r.line in
    let more =
      read_lines-unlines fuel line.grants line.size (some line.buf) ls text.1
        (omega (arith, r.fits)) (omega arith) (omega (arith, r.enough, g)) in
    rw (read_lines, r.is, r.left) (λ i. r.shown i ∷ more i)

-- `end` doubled so many times, as the loop does it.
abbrev pub doubled : ℕ → ℕ → ℕ
doubled end zero = end
doubled end (suc k) = doubled (end * 2) k

le-doubled : (end k : ℕ) → end ≤ doubled end k
le-doubled end zero = omega arith
le-doubled end (suc k) = omega (arith, le-doubled (end * 2) k)

append_nil : (l : List ℕ) → l ≡ l ++ []
append_nil [] = refl
append_nil (c ∷ cs) = ap (λ t. c ∷ t) (append_nil cs)

module _ (begin end : ℕ) (buf done l : List ℕ) (e : take begin buf ≡ done)
    (len : length done ≡ begin) (text : All IsText l) (k : begin + 1 < end)
    (fills : end - 1 - begin ≤ length l) where
  -- The buffer after a turn that fills it.
  abbrev filled_up : List ℕ
  filled_up =
      let got = take (end - 1 - begin) l in done ++ (got ++ replicate (end - begin - length got) 0)

  turn-fills : turn begin end buf l ≡ full filled_up (drop (end - 1 - begin) l)
  turn-fills =
      ap (turn begin end buf) (append_nil l)
      ∙ turn-long begin end buf done l [] e len text (omega arith) fills
      ∙ ap (full filled_up) (sym (append_nil (drop (end - 1 - begin) l)))

  take-filled_up : take (end - 1) filled_up ≡ done ++ take (end - 1 - begin) l
  take-filled_up =
      let got : List ℕ = take (end - 1 - begin) l in
      let zeros : List ℕ = replicate (end - begin - length got) 0 in
      ap (take (end - 1)) (sym (append_assoc done got zeros))
      ∙ take-prefix (end - 1) (done ++ got) zeros
          (omega (arith, length-append done got, length-take (end - 1 - begin) l, len))

-- The loop loses a last line without newline that fills the buffer after `k` doublings.
grow_loop-none :
    (k grants bufsize begin end : ℕ) (buf done l : List ℕ)
    → take begin buf ≡ done
    → length done ≡ begin
    → All IsText l
    → begin + 1 < end
    → length l + begin + 1 ≡ doubled end k
    → grow_loop grants bufsize begin end buf l ≡ none
unfolding grow_loop
grow_loop-none k zero bufsize begin end buf done l e len text w size =
    let d = le-doubled end k in
    rw (grow_loop, turn-fills begin end buf done l e len text w (omega (arith, d))) refl
grow_loop-none zero (suc grants) bufsize begin end buf done l e len text w size =
    let gone : drop (end - 1 - begin) l ≡ [] =
      length-zero (drop (end - 1 - begin) l)
        (omega (arith, length-drop (end - 1 - begin) l, size)) in
    rw (grow_loop, turn-fills begin end buf done l e len text w (omega arith), gone)
      (grow_loop-nil grants bufsize (end - 1) (end * 2) _)
grow_loop-none (suc k) (suc grants) bufsize begin end buf done l e len text w size =
    let d = le-doubled (end * 2) k in
    let fills : end - 1 - begin ≤ length l = omega (arith, d) in
    let n : ℕ = end - 1 - begin in
    rw (grow_loop, turn-fills begin end buf done l e len text w fills)
      (grow_loop-none k grants bufsize (end - 1) (end * 2)
        (filled_up begin end buf done l e len text w fills) (done ++ take n l) (drop n l)
        (take-filled_up begin end buf done l e len text w fills)
        (omega (arith, length-append done (take n l), length-take n l, len)) (All-drop n l text)
        (omega arith) (omega (arith, length-drop n l, size)))

widen-none :
    (k grants bufsize : ℕ) (buf l : List ℕ)
    → All IsText l
    → 1 < bufsize
    → length l + 1 ≡ doubled bufsize k
    → widen grants bufsize bufsize buf l ≡ none
unfolding widen
widen-none k zero bufsize buf l text w size =
    let wide : ltb bufsize 2 ≡ false = ground (arith, w) in
    rw (widen, wide)
      (grow_loop-none k zero bufsize 0 bufsize buf [] l refl refl text w (omega (arith, size)))
widen-none k (suc grants) bufsize buf l text w size =
    let wide : ltb bufsize 2 ≡ false = ground (arith, w) in
    rw (widen, wide)
      (grow_loop-none k (suc grants) bufsize 0 bufsize buf [] l refl refl text w
        (omega (arith, size)))

-- A last line without newline and NUL is lost, with -1, where it has one byte less than a size that the
-- buffer takes: `bufsize`, at least 2, doubled any number of times; however many allocations succeed.
pub mygetline-loses :
    (k grants bufsize : ℕ) (buf l : List ℕ)
    → All IsText l
    → 1 < bufsize
    → length l + 1 ≡ doubled bufsize k
    → mygetline grants (some buf) bufsize l ≡ none
unfolding mygetline widen
mygetline-loses k grants bufsize buf l text w size =
    let small : ltb bufsize 1 ≡ false = ground (arith, w) in
    rw (mygetline, small) (widen-none k grants bufsize buf l text w size)
