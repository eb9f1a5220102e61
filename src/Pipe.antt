-- ===== src/Pipe.antt =====
-- 33.管道实例/mypipe/mypipe.c: a pipe within a process, as far as it is written: it has no `next`, which
-- gives the following index of `data` and is a parameter here, and `mypite_write` writes nothing. A
-- function is one step under the mutex; where `mypite_read` waits, the pipes that it finds after each
-- waking are an argument. `count` is from 0 on. `me` is the argument also in the two functions that do
-- not declare it.
pub mod Queue
pub mod Ends
mod Tests
use apue_li_huiqin.Base.{
  ℕ, zero, suc, ◌+◌, ◌-◌, Bool, true, false, ◌&&◌, ◌||◌, Option, none, some, List, [], ◌∷◌, ltb,
  ◌==◌, if◌then◌else◌, get_elem?, replicate,
}

-- `struct mypipe_st` without its mutex and condition; `bytes` is `data`.
pub record Mypipe : Type 0 where
  pub head : ℕ
  pub tail : ℕ
  pub bytes : List ℕ
  pub datasize : ℕ
  pub count_rd : ℕ
  pub count_wr : ℕ

abbrev pub pipisize : ℕ
pipisize = 1024

-- `mypite_init`, with what `malloc` answers; the bytes of `data` are those that are found there.
unfoldable pub mypite_init : Bool → List ℕ → Option Mypipe
mypite_init false found = none
mypite_init true found =
    some (record { head = 0; tail = 0; bytes = found; datasize = 0; count_rd = 0; count_wr = 0 })

-- `data[i]`; no index out of range is asked for where `next` stays in it.
unfoldable pub byte_at : List ℕ → ℕ → ℕ
byte_at bytes i = elim (get_elem? bytes i) [ none ↦ 0 | some b ↦ b ]

-- What a `mypite_readbyte_unlock` that returns 0 leaves.
abbrev pub behind_byte : (ℕ → ℕ) → Mypipe → Mypipe
behind_byte next me = record me { head = next me.head; datasize = me.datasize - 1 }

-- `mypite_readbyte_unlock`; `none` is -1.
unfoldable pub mypite_readbyte_unlock : (ℕ → ℕ) → Mypipe → Option (Mypipe × ℕ)
unfolding byte_at
mypite_readbyte_unlock next me =
    if me.datasize == 0 then none else some (behind_byte next me, byte_at me.bytes me.head)

-- The `break` of the loop of `mypite_read`, or what the other rounds leave.
unfoldable pub at_byte : Mypipe → Mypipe × List ℕ → Option (Mypipe × ℕ) → Mypipe × List ℕ
at_byte me rest none = (me, [])
at_byte me rest (some (p, b)) = (rest.0, b ∷ rest.1)

-- The `for` loop of `mypite_read`: the pipe after it and the bytes in `buf`, whose number is `i`.
unfoldable pub read_bytes : (ℕ → ℕ) → ℕ → Mypipe → Mypipe × List ℕ
unfolding mypite_readbyte_unlock at_byte
read_bytes next zero me = (me, [])
read_bytes next (suc count) me =
    let rest = read_bytes next count (behind_byte next me) in
    at_byte me rest (mypite_readbyte_unlock next me)

-- `me->datasize <= 0 && me->count_wr > 0`
abbrev pub must_wait : Mypipe → Bool
must_wait me = (me.datasize == 0) && ltb 0 me.count_wr

-- The waiting: the pipe with which `mypite_read` goes on; `none` while it waits.
unfoldable pub wait_data : List Mypipe → Mypipe → Option Mypipe
wait_data [] me = if must_wait me then none else some me
wait_data (w ∷ wakes) me = let later = wait_data wakes w in if must_wait me then later else some me

-- Behind the waiting.
unfoldable pub read_ready : (ℕ → ℕ) → ℕ → Mypipe → Mypipe × List ℕ
unfolding read_bytes
read_ready next count me =
    if (me.datasize == 0) && (me.count_wr == 0) then (me, []) else read_bytes next count me

unfoldable pub mypite_read : (ℕ → ℕ) → List Mypipe → ℕ → Mypipe → Option (Mypipe × List ℕ)
unfolding wait_data read_ready
mypite_read next wakes count me = elim (wait_data wakes me) [
  | none ↦ none
  | some p ↦ some (read_ready next count p)
]

-- `me->count_rd <= 0 || me->count_wr <= 0`
abbrev pub one_sided : Mypipe → Bool
one_sided me = (me.count_rd == 0) || (me.count_wr == 0)

-- The waiting of `mypite_register`, with the pipes found after each waking.
unfoldable pub wait_both : List Mypipe → Mypipe → Option Mypipe
wait_both [] me = if one_sided me then none else some me
wait_both (w ∷ wakes) me = let later = wait_both wakes w in if one_sided me then later else some me

-- Whether a bit of `opmap` is set, as a number.
abbrev pub bit : Bool → ℕ
bit b = if b then 1 else 0

-- What `mypite_register` counts; the two bits of `opmap` are `MYPIPE_READ` and `MYPIPE_WRITE`.
unfoldable pub counted : Bool → Bool → Mypipe → Mypipe
counted read write me = record me {
  count_rd = me.count_rd + bit read;
  count_wr = me.count_wr + bit write;
}

-- `mypite_register`; `none` while it waits.
unfoldable pub mypite_register : Bool → Bool → List Mypipe → Mypipe → Option Mypipe
unfolding counted wait_both
mypite_register read write wakes me = wait_both wakes (counted read write me)

-- `mypite_unregister` of ends that are registered.
unfoldable pub mypite_unregister : Bool → Bool → Mypipe → Mypipe
mypite_unregister read write me = record me {
  count_rd = me.count_rd - bit read;
  count_wr = me.count_wr - bit write;
}
