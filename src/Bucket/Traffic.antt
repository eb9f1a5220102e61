-- ===== src/Bucket/Traffic.antt =====
-- What a token bucket of 31.线程专题/mytbf_thread_cond/mytbf.c lets through: `mytbf_fetchtoken`,
-- `mytbf_returntoken` and the refilling thread over any sequence of calls.
use mathlib.Core.Option
use apue_li_huiqin.Base.{
  ℕ, ◌+◌, ◌-◌, ◌*◌, ◌^◌, ◌≤◌, ◌<◌, ◌≡◌, Option, none, some, List, [], ◌∷◌, arith, ◌==◌,
  if◌then◌else◌,
}
use apue_li_huiqin.Bucket.{
  Mytbf, Code, ret, einval, undefined, min, refill, take_tokens, fetch_loop, mytbf_fetchtoken,
  mytbf_returntoken,
}

-- The first of these numbers that is not 0.
abbrev pub first_some : List ℕ → Option ℕ
first_some [] = none
first_some (t ∷ ts) = let rest = first_some ts in if t == 0 then rest else some t

-- A bucket from which a fetch of `size` takes what it can of `held` tokens.
abbrev pub fetched_from : ℕ → Mytbf → ℕ → Mytbf × Code
fetched_from size me held = (record me { token = held - min held size }, ret (min held size))

fetch_loop_lem :
    (wakes : List ℕ) (size : ℕ) (me : Mytbf)
    → fetch_loop wakes size me ≡ Option.map (fetched_from size me) (first_some (me.token ∷ wakes))
unfolding fetch_loop take_tokens
fetch_loop_lem [] size me = ground arith
fetch_loop_lem (w ∷ wakes) size me =
    ground (arith, fetch_loop_lem wakes size (record me { token = w }))

-- `mytbf_fetchtoken` of a positive size waits until it first finds tokens, at once or after a waking,
-- takes the smaller of their number and the size, and leaves the rest; it waits for ever exactly if no
-- waking finds any. Rate, burst and position stay as they are.
pub mytbf_fetchtoken-first_some :
    (wakes : List ℕ) (size : ℕ) (me : Mytbf)
    → 0 < size
    → size < 2 ^ 31
    → mytbf_fetchtoken wakes size me
      ≡ Option.map (fetched_from size me) (first_some (me.token ∷ wakes))
unfolding mytbf_fetchtoken
mytbf_fetchtoken-first_some wakes size me h k = ground (arith, fetch_loop_lem wakes size me)

-- One call on a bucket, where a fetch that would wait and a return that is undefined are left out.
pub data Op : Type 0 where
  second : Op  -- a round of `thr_alrm`
  fetch : (size : ℕ) → Op
  give : (size : ℕ) → Op

-- A bucket, and what it has seen: rounds, tokens fetched, tokens returned.
pub record Meter : Type 0 where
  pub bucket : Mytbf
  pub rounds : ℕ
  pub fetched : ℕ
  pub given : ℕ

abbrev amount : Code → ℕ
amount (ret n) = n
amount einval = 0
amount undefined = 0

unfoldable pub step : Meter → Op → Meter
unfolding refill mytbf_fetchtoken mytbf_returntoken
step m second = record m { bucket = refill m.bucket; rounds = m.rounds + 1 }
step m (fetch size) = elim (mytbf_fetchtoken [] size m.bucket) [
  | none ↦ m
  | some (me, code) ↦ record m { bucket = me; fetched = m.fetched + amount code }
]
step m (give size) =
    let (me, code) = mytbf_returntoken size m.bucket in
    record m { bucket = me; given = m.given + amount code }

unfoldable pub run : Meter → List Op → Meter
run m [] = m
run m (op ∷ ops) = run (step m op) ops

-- What holds of a bucket that began with `first` tokens, at the rate `cps`.
pub record IsMetered (first cps burst : ℕ) (m : Meter) : Type 0 where
  pub rate : m.bucket.cps ≡ cps
  pub limit : m.bucket.burst ≡ burst
  pub bounded : m.bucket.token ≤ burst
  pub conserved : m.bucket.token + m.fetched ≤ first + cps * m.rounds + m.given

step-IsMetered :
    (first cps burst : ℕ) (m : Meter) (op : Op)
    → IsMetered first cps burst m
    → IsMetered first cps burst (step m op)
unfolding step
step-IsMetered first cps burst m second h = ground arith
step-IsMetered first cps burst m (fetch size) h = ground arith
step-IsMetered first cps burst m (give size) h = ground arith

-- Over any calls, in any order, the tokens fetched from a bucket are at most those that it held, `cps`
-- for each round of the thread, and those returned; and it never holds more than its burst.
pub run-IsMetered :
    (first cps burst : ℕ) (ops : List Op) (m : Meter)
    → IsMetered first cps burst m
    → IsMetered first cps burst (run m ops)
unfolding run
run-IsMetered first cps burst [] m h = h
run-IsMetered first cps burst (op ∷ ops) m h =
    run-IsMetered first cps burst ops (step m op) (step-IsMetered first cps burst m op h)

-- What a fetch without a wait leaves: nothing is lost or made.
abbrev pub Spends : Mytbf → Option (Mytbf × Code) → Type 0
Spends me none = Unit
Spends me (some (left, ret n)) = (left.token + n ≡ me.token) × (left.cps ≡ me.cps)
Spends me (some (left, einval)) = Unit
Spends me (some (left, undefined)) = Unit

pub mytbf_fetchtoken-Spends : (size : ℕ) (me : Mytbf) → Spends me (mytbf_fetchtoken [] size me)
unfolding mytbf_fetchtoken fetch_loop take_tokens min
mytbf_fetchtoken-Spends size me = ground arith

-- A bucket of the same rate with at most `n` tokens more.
pub record Gains (n : ℕ) (before after : Mytbf) : Type 0 where
  pub rate : after.cps ≡ before.cps
  pub most : after.token ≤ before.token + n

pub refill-Gains : (me : Mytbf) → Gains me.cps me (refill me)
unfolding refill
refill-Gains me = ground arith

pub mytbf_returntoken-Gains : (size : ℕ) (me : Mytbf) → Gains size me (mytbf_returntoken size me).0
unfolding mytbf_returntoken
mytbf_returntoken-Gains size me = ground arith
