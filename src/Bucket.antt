-- ===== src/Bucket.antt =====
-- 31.线程专题/mytbf_thread_cond/mytbf.c: token buckets filled by a thread once a second. A handle is the
-- number of its entry in the static table `job`, which `me->pos` keeps; NULL is `none`. Rates and
-- tokens are numbers from 0 on, and the sum of a bucket's burst and rate is taken to fit an `int`; the
-- argument `size` is the 32-bit pattern of an `int`. A function that locks a mutex is one atomic step
-- on what the mutex protects; where `pthread_cond_wait` gives the lock up, the tokens that are found
-- after each waking are an argument. What `malloc` answers is an argument too.
pub mod Traffic
pub mod Table
pub mod Signal
pub mod Rearm
pub mod Threads
mod Tests
use apue_li_huiqin.Base.{
  ℕ, zero, suc, ◌+◌, ◌-◌, ◌^◌, Bool, true, false, ◌||◌, Option, none, some, List, [], ◌∷◌, ltb, leb,
  ◌==◌, if◌then◌else◌, set, get_elem?, map, first_none,
}

-- `struct mytbf_st` without its mutex and condition.
pub record Mytbf : Type 0 where
  pub cps : ℕ
  pub burst : ℕ
  pub token : ℕ
  pub pos : ℕ

abbrev pub mytbf_max : ℕ
mytbf_max = 1024

abbrev pub Jobs : Type 0
Jobs = List (Option Mytbf)

pub data Code : Type 0 where
  ret : ℕ → Code
  einval : Code
  undefined : Code  -- a sum has not fitted an `int`

-- `size <= 0` for the pattern of an `int`.
abbrev pub not_positive : ℕ → Bool
not_positive size = (size == 0) || leb (2 ^ 31) size

pub min : ℕ → ℕ → ℕ
min a b = if ltb a b then a else b

-- The body of the loop of `thr_alrm` at a bucket.
pub refill : Mytbf → Mytbf
refill me =
    let t = me.token + me.cps in record me { token = if ltb me.burst t then me.burst else t }

refill_slot : Option Mytbf → Option Mytbf
refill_slot none = none
refill_slot (some me) = some (refill me)

-- One round of `thr_alrm`, under `mut_job`.
pub thr_alrm : Jobs → Jobs
unfolding refill_slot
thr_alrm [] = []
thr_alrm (s ∷ ss) = refill_slot s ∷ thr_alrm ss

-- `get_free_pos_unlocked`; `none` is -1.
pub get_free_pos_unlocked : Jobs → Option ℕ
get_free_pos_unlocked job = first_none job 0

-- `mytbf_init`: the table and the handle, or `none` for NULL.
pub mytbf_init : Bool → ℕ → ℕ → Jobs → Jobs × Option ℕ
mytbf_init memory cps burst job =
    if memory
    then elim (get_free_pos_unlocked job) [
      | none ↦ (job, none)
      | some pos ↦
          (set job pos (some (record { cps = cps; burst = burst; token = 0; pos = pos })), some pos)
    ]
    else (job, none)

-- The end of `mytbf_fetchtoken`, once there are tokens.
take_tokens : ℕ → Mytbf → Mytbf × Code
take_tokens size me = let n = min me.token size in (record me { token = me.token - n }, ret n)

-- `while (me->token <= 0) pthread_cond_wait(...)`, with the tokens found at each waking; `none`: the
-- thread still waits after all of them.
fetch_loop : List ℕ → ℕ → Mytbf → Option (Mytbf × Code)
fetch_loop [] size me = if me.token == 0 then none else some (take_tokens size me)
fetch_loop (w ∷ wakes) size me =
    let rest = fetch_loop wakes size (record me { token = w }) in
    if me.token == 0 then rest else some (take_tokens size me)

pub mytbf_fetchtoken : List ℕ → ℕ → Mytbf → Option (Mytbf × Code)
unfolding fetch_loop take_tokens min
mytbf_fetchtoken wakes size me =
    if not_positive size then some (me, einval) else fetch_loop wakes size me

-- The sum of tokens and `size` is one of `int`s; where it does not fit, the call is undefined.
pub mytbf_returntoken : ℕ → Mytbf → Mytbf × Code
mytbf_returntoken size me =
    let t = me.token + size in
    if not_positive size
    then (me, einval)
    else if leb (2 ^ 31) t
    then (me, undefined)
    else (record me { token = if ltb me.burst t then me.burst else t }, ret size)

-- `mytbf_destroy`
pub mytbf_destroy : ℕ → Jobs → Jobs
mytbf_destroy pos job = set job pos none

-- `job[i]`, and NULL outside the table.
abbrev pub entry : Jobs → ℕ → Option Mytbf
entry job i = elim (get_elem? job i) [ none ↦ none | some o ↦ o ]

-- The body of the loop of `module_unload`.
unload_at : Option Mytbf → Jobs → Jobs
unload_at none job = job
unload_at (some me) job = mytbf_destroy me.pos job

-- The loop of `module_unload` from `i` on, for `n` rounds: what the table still holds is destroyed.
unload_from : ℕ → ℕ → Jobs → Jobs
unfolding unload_at
unload_from zero i job = job
unload_from (suc n) i job = unload_from n (i + 1) (unload_at (entry job i) job)

pub module_unload : Jobs → Jobs
unfolding unload_from
module_unload job = unload_from mytbf_max 0 job
