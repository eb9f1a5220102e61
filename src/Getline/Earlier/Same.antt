-- ===== src/Getline/Earlier/Same.antt =====
-- The earlier versions of `mygetline`, 25.标准IO/getline_3.c and getline_4.c, against getline_5.c.
use apue_li_huiqin.Base.{
  ℕ, zero, suc, ◌+◌, ◌-◌, ◌*◌, ◌≤◌, ◌<◌, ◌≡◌, ◌⊎◌, inl, inr, refl, ◌∙◌, ap, Bool, true, false,
  Option, none, some, List, [], ◌∷◌, ◌++◌, arith, ltb, ◌==◌, length, take, drop, replicate, All,
  Bool-cases, if◌then◌else◌,
}
use apue_li_huiqin.Getline.{
  fgets, find_end, Line, Turn, filled, finish, at, over, found, full, ended, scan, after_fgets,
  turn, grow_loop, widen, mygetline,
}
use apue_li_huiqin.Getline.Text.{IsText, turn-short, turn-long}
use apue_li_huiqin.Getline.Newline.{Got, Got-weaken, grow_loop-Got, finish-Got}
use apue_li_huiqin.Getline.Earlier.{
  fgets_3, after_fgets_3, turn_3, loop_3, Memory, null, allocated, elsewhere, Called, undefined,
  returned, on_stack, first_size, mygetline_3, fresh_4, mygetline_4,
}

-- Whether the first `fgets` gets the end of the line, or nothing: the buffer need not grow.
abbrev pub does_fit : Turn → Bool
does_fit over = true
does_fit (found buf rest ii) = true
does_fit (full buf rest) = false

after_fgets_3-after_fgets :
    (oldsize newsize sub_flag : ℕ) (buf : List ℕ)
    → newsize - oldsize + sub_flag ≡ newsize - (oldsize - sub_flag)
    → (o : Option (List ℕ × List ℕ))
    → after_fgets_3 oldsize newsize sub_flag buf o ≡ after_fgets (oldsize - sub_flag) newsize buf o
unfolding after_fgets_3 after_fgets scan filled
after_fgets_3-after_fgets oldsize newsize sub_flag buf e none = refl
after_fgets_3-after_fgets oldsize newsize sub_flag buf e (some (got, rest)) =
    ap
      (λ k.
        let begin = oldsize - sub_flag in
        let buf' = take begin buf ++ (got ++ replicate (k - length got) 0) in
        ended buf' rest (find_end (take (newsize - 1 - begin) (drop begin buf')) begin))
      e

-- A turn of getline_3.c is one of getline_5.c.
turn_3-turn :
    (oldsize newsize sub_flag : ℕ) (buf input : List ℕ)
    → sub_flag ≤ oldsize
    → oldsize - sub_flag + 1 < newsize
    → oldsize ≤ newsize
    → turn_3 oldsize newsize sub_flag buf input ≡ turn (oldsize - sub_flag) newsize buf input
unfolding turn_3 fgets_3 turn after_fgets
turn_3-turn oldsize newsize sub_flag buf input s room le =
    let size : newsize - oldsize + sub_flag ≡ newsize - (oldsize - sub_flag) = omega arith in
    let wide : (newsize - oldsize + sub_flag == 1) ≡ false = ground arith in
    rw (turn_3, fgets_3, wide)
      (after_fgets_3-after_fgets oldsize newsize sub_flag buf size
          (fgets (newsize - oldsize + sub_flag) input)
        ∙ ap (λ k. after_fgets (oldsize - sub_flag) newsize buf (fgets k input)) size)

loop_3-grow_loop :
    (grants bufsize oldsize newsize sub_flag : ℕ) (buf input : List ℕ)
    → sub_flag ≤ oldsize
    → oldsize - sub_flag + 1 < newsize
    → oldsize ≤ newsize
    → loop_3 grants bufsize oldsize newsize sub_flag buf input
      ≡ grow_loop grants bufsize (oldsize - sub_flag) newsize buf input
unfolding loop_3 grow_loop
loop_3-grow_loop zero bufsize oldsize newsize sub_flag buf input s room le =
    rw (loop_3, grow_loop, turn_3-turn oldsize newsize sub_flag buf input s room le) refl
loop_3-grow_loop (suc grants) bufsize oldsize newsize sub_flag buf input s room le =
    rw (loop_3, grow_loop, turn_3-turn oldsize newsize sub_flag buf input s room le)
      (elim (turn (oldsize - sub_flag) newsize buf input)
        as (λ t.
          (elim t as (λ x. Option Line) [
            | over ↦ none
            | found buf' rest ii ↦
                some (finish (suc grants) bufsize newsize buf' rest ii (at buf' ii))
            | full buf' rest ↦ loop_3 grants bufsize newsize (newsize * 2) 1 buf' rest
          ])
          ≡ (elim t as (λ x. Option Line) [
            | over ↦ none
            | found buf' rest ii ↦
                some (finish (suc grants) bufsize newsize buf' rest ii (at buf' ii))
            | full buf' rest ↦ grow_loop grants bufsize (newsize - 1) (newsize * 2) buf' rest
          ])) [
            | over ↦ refl
            | found buf' rest ii ↦ refl
            | full buf' rest ↦
                loop_3-grow_loop grants bufsize newsize (newsize * 2) 1 buf' rest (omega arith)
                  (omega arith) (omega arith)
          ])

widen-wide :
    (grants bufsize : ℕ) (buf input : List ℕ)
    → 1 < bufsize
    → widen grants bufsize bufsize buf input ≡ grow_loop grants bufsize 0 bufsize buf input
unfolding widen
widen-wide zero bufsize buf input wide =
    let e : ltb bufsize 2 ≡ false = ground (arith, wide) in rw (widen, e) refl
widen-wide (suc grants) bufsize buf input wide =
    let e : ltb bufsize 2 ≡ false = ground (arith, wide) in rw (widen, e) refl

fresh_4-Got :
    (grants bufsize end : ℕ) (l rest : List ℕ)
    → All IsText l
    → 1 < end
    → length l + 1 < grants
    → Got l rest grants (length l + 2) (fresh_4 grants bufsize end (l ++ 10 ∷ rest))
unfolding fresh_4
fresh_4-Got zero bufsize end l rest text wide k = absurd (omega arith)
fresh_4-Got (suc grants) bufsize end l rest text wide k =
    Got-weaken refl (omega arith)
      (grow_loop-Got grants bufsize 0 end [] [] l rest refl refl text (omega arith) (omega arith))

on_stack-grow_loop :
    (grants bufsize newsize : ℕ) (buf input : List ℕ)
    → 1 < newsize
    → on_stack grants bufsize newsize buf input ≡ (
        if does_fit (turn 0 newsize buf input)
        then returned (grow_loop grants bufsize 0 newsize buf input)
        else undefined)
unfolding on_stack grow_loop
on_stack-grow_loop zero bufsize newsize buf input wide =
    rw
      (
        on_stack,
        grow_loop,
        turn_3-turn 0 newsize 0 buf input (omega arith) (omega (arith, wide)) (omega arith),
      )
      (elim (turn 0 newsize buf input)
        as (λ t.
          (elim t as (λ x. Called) [
            | over ↦ returned none
            | found buf' rest ii ↦
                returned (some (finish zero bufsize newsize buf' rest ii (at buf' ii)))
            | full buf' rest ↦ undefined
          ])
          ≡ (if does_fit t
              then returned (elim t as (λ x. Option Line) [
                | over ↦ none
                | found buf' rest ii ↦ some (finish zero bufsize newsize buf' rest ii (at buf' ii))
                | full buf' rest ↦ none
              ])
              else undefined)) [ over ↦ refl | found buf' rest ii ↦ refl | full buf' rest ↦ refl ])
on_stack-grow_loop (suc grants) bufsize newsize buf input wide =
    rw
      (
        on_stack,
        grow_loop,
        turn_3-turn 0 newsize 0 buf input (omega arith) (omega (arith, wide)) (omega arith),
      )
      (elim (turn 0 newsize buf input)
        as (λ t.
          (elim t as (λ x. Called) [
            | over ↦ returned none
            | found buf' rest ii ↦
                returned (some (finish (suc grants) bufsize newsize buf' rest ii (at buf' ii)))
            | full buf' rest ↦ undefined
          ])
          ≡ (if does_fit t
              then returned (elim t as (λ x. Option Line) [
                | over ↦ none
                | found buf' rest ii ↦
                    some (finish (suc grants) bufsize newsize buf' rest ii (at buf' ii))
                | full buf' rest ↦ grow_loop grants bufsize (newsize - 1) (newsize * 2) buf' rest
              ])
              else undefined)) [ over ↦ refl | found buf' rest ii ↦ refl | full buf' rest ↦ refl ])

mygetline-grow_loop :
    (grants bufsize : ℕ) (buf input : List ℕ)
    → 1 < bufsize
    → mygetline grants (some buf) bufsize input ≡ grow_loop grants bufsize 0 bufsize buf input
unfolding mygetline
mygetline-grow_loop grants bufsize buf input wide =
    let b : ltb bufsize 1 ≡ false = ground (arith, wide) in
    rw (mygetline, b) (widen-wide grants bufsize buf input wide)

-- `mygetline` of getline_3.c against that of getline_5.c, where the buffer is NULL or has at least two
-- bytes. With NULL, or a buffer from `malloc`, it does and returns the same. With a buffer that is not from
-- `malloc` it does so exactly where the first `fgets` gets the end of the line or nothing; where it does
-- not, the buffer must grow, and the call is undefined.
pub mygetline_3-mygetline :
    (grants bufsize : ℕ) (p : Memory) (input : List ℕ)
    → (p ≡ null) ⊎ (1 < bufsize)
    → mygetline_3 grants p bufsize input ≡ elim p [
      | null ↦ returned (mygetline grants none bufsize input)
      | allocated buf ↦ returned (mygetline grants (some buf) bufsize input)
      | elsewhere buf ↦
          if does_fit (turn 0 bufsize buf input)
          then returned (mygetline grants (some buf) bufsize input)
          else undefined
    ]
unfolding mygetline_3 mygetline first_size
mygetline_3-mygetline zero bufsize null input h = refl
mygetline_3-mygetline (suc zero) bufsize null input h =
    ap returned
      (loop_3-grow_loop zero bufsize 0 4 0 [] input (omega arith) (omega arith) (omega arith))
mygetline_3-mygetline (suc (suc grants)) bufsize null input h =
    ap returned (
      loop_3-grow_loop (suc grants) bufsize 0 4 0 [] input (omega arith) (omega arith)
        (omega arith))
mygetline_3-mygetline grants bufsize (allocated buf) input (inl e) = absurd (cc)
mygetline_3-mygetline grants bufsize (allocated buf) input (inr wide) =
    let a : ltb 0 bufsize ≡ true = ground (arith, wide) in
    rw (mygetline_3, first_size, a, mygetline-grow_loop grants bufsize buf input wide)
      (ap returned (
        loop_3-grow_loop grants bufsize 0 bufsize 0 buf input (omega arith) (omega arith)
          (omega arith)))
mygetline_3-mygetline grants bufsize (elsewhere buf) input (inl e) = absurd (cc)
mygetline_3-mygetline grants bufsize (elsewhere buf) input (inr wide) =
    let a : ltb 0 bufsize ≡ true = ground (arith, wide) in
    rw (mygetline_3, first_size, a, mygetline-grow_loop grants bufsize buf input wide)
      (on_stack-grow_loop grants bufsize bufsize buf input wide)

-- `mygetline` of getline_4.c gets a line that ends with a newline and has no NUL, however long, with any
-- buffer, where at least two allocations more succeed than the line has bytes before the newline: the
-- buffer begins with the line, whose length is returned, `*bufsize` is larger than that, the rest of the
-- file is left, and at most so many allocations have been made.
pub mygetline_4-Got :
    (grants bufsize : ℕ) (p : Option (List ℕ)) (l rest : List ℕ)
    → All IsText l
    → length l + 1 < grants
    → Got l rest grants (length l + 2) (mygetline_4 grants p bufsize (l ++ 10 ∷ rest))
unfolding mygetline_4
mygetline_4-Got grants bufsize none l rest text k =
    fresh_4-Got grants bufsize 4 l rest text (omega arith) k
mygetline_4-Got grants bufsize (some buf) l rest text k = elim (Bool-cases (ltb bufsize 2)) [
  | inl e ↦ rw (mygetline_4, e) (fresh_4-Got grants bufsize 4 l rest text (omega arith) k)
  | inr e ↦
      let wide : 1 < bufsize = ground arith in
      rw (mygetline_4, e)
        (elim (Bool-cases (ltb (length l) (bufsize - 1 - 0))) [
          | inl short ↦ rw (turn-short 0 bufsize buf [] l rest refl refl text (ground arith)) (
              Got-weaken refl (omega arith) (
                finish-Got grants bufsize 0 bufsize [] l rest
                  (replicate (bufsize - 0 - length (l ++ 10 ∷ [])) 0) refl (ground (arith, short))))
          | inr long ↦
              rw
                (turn-long 0 bufsize buf [] l (10 ∷ rest) refl refl text (omega arith)
                  (ground arith))
                (fresh_4-Got grants bufsize (bufsize * 2) l rest text (omega arith) k)
        ])
]
