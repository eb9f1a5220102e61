-- ===== src/Getline/Earlier.antt =====
-- The earlier `mygetline` of 25.标准IO/getline_3.c and getline_4.c, over the `fgets`, the bytes and the
-- allocations of getline_5.c. What `malloc` returns and the old buffer, which getline_4.c does not free,
-- make no difference to what is read.
pub mod Same
use apue_li_huiqin.Base.{
  ℕ, zero, suc, ◌+◌, ◌-◌, ◌*◌, Option, none, some, List, [], ◌++◌, ltb, ◌==◌, if◌then◌else◌, length,
  take, drop, replicate,
}
use apue_li_huiqin.Getline.{
  fgets, find_end, Line, finish, at, Turn, over, found, full, ended, turn, grow_loop, blocksize,
}

-- `fgets` with a buffer of one byte stores the NUL only and reads nothing.
unfoldable pub fgets_3 : ℕ → List ℕ → Option (List ℕ × List ℕ)
fgets_3 size input = if size == 1 then some ([], input) else fgets size input

-- What follows `fgets` in getline_3.c: the `for` loop over the buffer with the new bytes.
unfoldable pub after_fgets_3 : ℕ → ℕ → ℕ → List ℕ → Option (List ℕ × List ℕ) → Turn
unfolding find_end ended
after_fgets_3 oldsize newsize sub_flag buf none = over
after_fgets_3 oldsize newsize sub_flag buf (some (got, rest)) =
    let begin = oldsize - sub_flag in
    let buf' = take begin buf ++ (got ++ replicate (newsize - oldsize + sub_flag - length got) 0) in
    ended buf' rest (find_end (take (newsize - 1 - begin) (drop begin buf')) begin)

unfoldable pub turn_3 : ℕ → ℕ → ℕ → List ℕ → List ℕ → Turn
unfolding after_fgets_3 fgets_3
turn_3 oldsize newsize sub_flag buf input =
    after_fgets_3 oldsize newsize sub_flag buf (fgets_3 (newsize - oldsize + sub_flag) input)

-- `while (find_flag == 0)` of getline_3.c; `sub_flag` is 1 behind the first turn.
unfoldable pub loop_3 : ℕ → ℕ → ℕ → ℕ → ℕ → List ℕ → List ℕ → Option Line
unfolding turn_3 finish at
loop_3 zero bufsize oldsize newsize sub_flag buf input =
    elim (turn_3 oldsize newsize sub_flag buf input) [
      | over ↦ none
      | found buf' rest ii ↦ some (finish zero bufsize newsize buf' rest ii (at buf' ii))
      | full buf' rest ↦ none
    ]
loop_3 (suc grants) bufsize oldsize newsize sub_flag buf input =
    elim (turn_3 oldsize newsize sub_flag buf input) [
      | over ↦ none
      | found buf' rest ii ↦ some (finish (suc grants) bufsize newsize buf' rest ii (at buf' ii))
      | full buf' rest ↦ loop_3 grants bufsize newsize (newsize * 2) 1 buf' rest
    ]

-- Where `*p` points: NULL, memory from `malloc`, or memory that is not, as the array on the stack which
-- `main` of getline_3.c passes.
pub data Memory : Type 0 where
  null : Memory
  allocated : List ℕ → Memory
  elsewhere : List ℕ → Memory

-- What a call comes to: `realloc` of memory that is not from `malloc` is undefined.
pub data Called : Type 0 where
  undefined : Called
  returned : Option Line → Called

-- `while (find_flag == 0)` with memory that is not from `malloc`: where the first turn finds no end of the
-- line, `realloc` is called with it.
unfoldable pub on_stack : ℕ → ℕ → ℕ → List ℕ → List ℕ → Called
unfolding turn_3 finish at
on_stack grants bufsize newsize buf input = elim (turn_3 0 newsize 0 buf input) [
  | over ↦ returned none
  | found buf' rest ii ↦ returned (some (finish grants bufsize newsize buf' rest ii (at buf' ii)))
  | full buf' rest ↦ undefined
]

-- The size that `*bufsize` is taken for.
unfoldable pub first_size : ℕ → ℕ
first_size bufsize = if ltb 0 bufsize then bufsize else blocksize

unfoldable pub mygetline_3 : ℕ → Memory → ℕ → List ℕ → Called
unfolding loop_3 on_stack first_size
mygetline_3 zero null bufsize input = returned none
mygetline_3 (suc grants) null bufsize input =
    returned (loop_3 grants bufsize 0 blocksize 0 [] input)
mygetline_3 grants (allocated buf) bufsize input =
    returned (loop_3 grants bufsize 0 (first_size bufsize) 0 buf input)
mygetline_3 grants (elsewhere buf) bufsize input =
    on_stack grants bufsize (first_size bufsize) buf input

-- getline_4.c with a fresh buffer of `end` bytes, if `malloc` gives one.
unfoldable pub fresh_4 : ℕ → ℕ → ℕ → List ℕ → Option Line
unfolding grow_loop
fresh_4 zero bufsize end input = none
fresh_4 (suc grants) bufsize end input = grow_loop grants bufsize 0 end [] input

-- The first try of getline_4.c, with the buffer of the caller; where the line does not fit, `fseek` goes
-- back and a fresh buffer of twice the size is filled from the begin.
unfoldable pub after_try : ℕ → ℕ → List ℕ → Turn → Option Line
unfolding finish at fresh_4
after_try grants bufsize input over = none
after_try grants bufsize input (found buf rest ii) =
    some (finish grants bufsize bufsize buf rest ii (at buf ii))
after_try grants bufsize input (full buf rest) = fresh_4 grants bufsize (bufsize * 2) input

unfoldable pub mygetline_4 : ℕ → Option (List ℕ) → ℕ → List ℕ → Option Line
unfolding fresh_4 after_try turn
mygetline_4 grants none bufsize input = fresh_4 grants bufsize blocksize input
mygetline_4 grants (some buf) bufsize input =
    if ltb bufsize 2
    then fresh_4 grants bufsize blocksize input
    else after_try grants bufsize input (turn 0 bufsize buf input)
