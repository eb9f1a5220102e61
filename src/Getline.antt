-- ===== src/Getline.antt =====
-- 25.标准IO/getline_5.c: lines of any length read with `fgets` into a buffer that grows. A byte is a
-- number, '\n' is 10. `grants` is the number of calls of `malloc` and `realloc` that succeed before one
-- fails. The sizes are taken to fit an `int`; a size below 1 is 0. What a fresh buffer holds is never
-- read and left out. The file is what of it is still to be read.
pub mod Text
pub mod Newline
pub mod Last
pub mod Earlier
mod Tests
use apue_li_huiqin.Base.{
  ℕ, zero, suc, ◌+◌, ◌-◌, ◌*◌, Bool, ◌||◌, Option, none, some, List, [], ◌∷◌, ◌++◌, ltb, ◌==◌,
  if◌then◌else◌, length, take, drop, replicate,
}

-- The bytes that `fgets` copies: at most `n`, up to a newline.
unfoldable pub get_chunk : ℕ → List ℕ → List ℕ
get_chunk zero input = []
get_chunk (suc n) [] = []
get_chunk (suc n) (c ∷ cs) = let more = get_chunk n cs in if c == 10 then c ∷ [] else c ∷ more

-- `fgets` with a buffer of `size` bytes: what it stores before the NUL, and the rest of the file; `none`
-- is NULL.
unfoldable pub fgets : ℕ → List ℕ → Option (List ℕ × List ℕ)
unfolding get_chunk
fgets size input =
    let got = get_chunk (size - 1) input in
    if length got == 0 then none else some (got, drop (length got) input)

-- The `for` loop over the bytes from `ii` on: the first that is '\n' or '\0'.
unfoldable pub find_end : List ℕ → ℕ → Option ℕ
find_end [] ii = none
find_end (c ∷ cs) ii =
    let more = find_end cs (ii + 1) in if (c == 10) || (c == 0) then some ii else more

-- What a call leaves: the buffer, what it returns, `*bufsize`, the rest of the file, and `grants`.
pub record Line : Type 0 where
  pub buf : List ℕ
  pub len : ℕ
  pub size : ℕ
  pub rest : List ℕ
  pub grants : ℕ

-- `memset` behind `begin`, then the bytes of `fgets`.
unfoldable pub filled : List ℕ → ℕ → ℕ → List ℕ → List ℕ
filled buf begin end got = take begin buf ++ (got ++ replicate (end - begin - length got) 0)

-- The end of `mygetline`, at the index `ii`, where the buffer has the byte `c`.
unfoldable pub finish : ℕ → ℕ → ℕ → List ℕ → List ℕ → ℕ → ℕ → Line
finish grants bufsize end buf rest ii c = record {
  buf = buf;
  len = if c == 10 then ii + 1 else ii;
  size = if ltb bufsize end then end else bufsize;
  rest = rest;
  grants = grants;
}

-- `(*p)[ii]`
unfoldable pub at : List ℕ → ℕ → ℕ
at buf ii = elim (drop ii buf) [ [] ↦ 0 | c ∷ cs ↦ c ]

-- What a turn of the loop finds: NULL from `fgets`, the end of the line at `ii`, or a full buffer.
pub data Turn : Type 0 where
  over : Turn
  found : (buf rest : List ℕ) (ii : ℕ) → Turn
  full : (buf rest : List ℕ) → Turn

-- The answer of the `for` loop, over the buffer after a `fgets`.
unfoldable pub ended : List ℕ → List ℕ → Option ℕ → Turn
ended buf rest none = full buf rest
ended buf rest (some ii) = found buf rest ii

unfoldable pub scan : ℕ → ℕ → List ℕ → List ℕ → Turn
unfolding find_end ended
scan begin end buf rest = ended buf rest (find_end (take (end - 1 - begin) (drop begin buf)) begin)

unfoldable pub after_fgets : ℕ → ℕ → List ℕ → Option (List ℕ × List ℕ) → Turn
unfolding filled scan
after_fgets begin end buf none = over
after_fgets begin end buf (some (got, rest)) = scan begin end (filled buf begin end got) rest

unfoldable pub turn : ℕ → ℕ → List ℕ → List ℕ → Turn
unfolding fgets after_fgets
turn begin end buf input = after_fgets begin end buf (fgets (end - begin) input)

-- `while (find_flag == 0)`; `none` is -1.
unfoldable pub grow_loop : ℕ → ℕ → ℕ → ℕ → List ℕ → List ℕ → Option Line
unfolding turn finish at
grow_loop zero bufsize begin end buf input = elim (turn begin end buf input) [
  | over ↦ none
  | found buf' rest ii ↦ some (finish zero bufsize end buf' rest ii (at buf' ii))
  | full buf' rest ↦ none
]
grow_loop (suc grants) bufsize begin end buf input = elim (turn begin end buf input) [
  | over ↦ none
  | found buf' rest ii ↦ some (finish (suc grants) bufsize end buf' rest ii (at buf' ii))
  | full buf' rest ↦ grow_loop grants bufsize (end - 1) (end * 2) buf' rest
]

-- `if (end < 2)`: a buffer of one byte is doubled before the loop.
unfoldable pub widen : ℕ → ℕ → ℕ → List ℕ → List ℕ → Option Line
unfolding grow_loop
widen zero bufsize end buf input =
    if ltb end 2 then none else grow_loop zero bufsize 0 end buf input
widen (suc grants) bufsize end buf input =
    if ltb end 2
    then grow_loop grants bufsize 0 (end * 2) buf input
    else grow_loop (suc grants) bufsize 0 end buf input

abbrev pub blocksize : ℕ
blocksize = 4

-- `mygetline`, where `*p` is NULL or a buffer.
unfoldable pub mygetline : ℕ → Option (List ℕ) → ℕ → List ℕ → Option Line
unfolding widen
mygetline zero none bufsize input = none
mygetline (suc grants) none bufsize input = widen grants bufsize blocksize [] input
mygetline grants (some buf) bufsize input =
    if ltb bufsize 1 then none else widen grants bufsize bufsize buf input

-- The calls of `main`, until one returns -1: at most `fuel` of them.
unfoldable pub read_lines : ℕ → ℕ → Option (List ℕ) → ℕ → List ℕ → List Line
unfolding mygetline
read_lines zero grants p bufsize input = []
read_lines (suc fuel) grants p bufsize input = elim (mygetline grants p bufsize input) [
  | none ↦ []
  | some line ↦ line ∷ read_lines fuel line.grants (some line.buf) line.size line.rest
]
