-- ===== src/Bucket/Signal.antt =====
-- 30.信号专题/mytab/mytbf.c: the same buckets for one thread, filled by the handler of SIGALRM. Here
-- `mytbf_init` looks for an entry before it asks for memory, and a fetch that finds no tokens sleeps in
-- `pause()` until the next alarm. `loads` counts the calls of `module_load`.
pub mod Laws
use mathlib.Core.Option
use apue_li_huiqin.Base.{
  ℕ, zero, suc, ◌+◌, ◌-◌, Bool, true, false, Option, none, some, List, [], ◌∷◌, ltb, ◌==◌,
  if◌then◌else◌, set, map, replicate, first_none,
}
use apue_li_huiqin.Bucket.{
  Mytbf, Jobs, Code, ret, einval, mytbf_max, not_positive, entry, get_free_pos_unlocked,
}

pub record Tbf : Type 0 where
  pub job : Jobs
  pub inited : Bool
  pub loads : ℕ

-- The body of the loop of `alrm_action`.
unfoldable pub fill : Mytbf → Mytbf
fill me = let t = me.token + me.cps in record me { token = if ltb me.burst t then me.burst else t }

unfoldable pub fill_all : Jobs → Jobs
fill_all [] = []
fill_all (none ∷ ss) = none ∷ fill_all ss
fill_all (some me ∷ ss) = some (fill me) ∷ fill_all ss

-- `alrm_action`; the argument is `infop->si_code == SI_KERNEL`.
unfoldable pub alrm_action : Bool → Tbf → Tbf
unfolding fill_all
alrm_action kernel t = if kernel then record t { job = fill_all t.job } else t

unfoldable pub get_free_pos : Jobs → Option ℕ
get_free_pos job = first_none job 0

-- `module_load` is called on the first call only.
unfoldable pub load_once : Tbf → Tbf
load_once t = if t.inited then t else record t { inited = true; loads = t.loads + 1 }

unfoldable pub open_at : Bool → ℕ → ℕ → Tbf → Option ℕ → Tbf × Option ℕ
open_at memory cps burst t none = (t, none)
open_at memory cps burst t (some pos) =
    if memory
    then (
      record t {
        job = set t.job pos (some (record { cps = cps; burst = burst; token = 0; pos = pos }));
      },
      some pos,
    )
    else (t, none)

unfoldable pub mytbf_init : Bool → ℕ → ℕ → Tbf → Tbf × Option ℕ
unfolding load_once open_at get_free_pos first_none
mytbf_init memory cps burst t =
    open_at memory cps burst (load_once t) (get_free_pos (load_once t).job)

-- `static int min`.
pub min : ℕ → ℕ → ℕ
min a b = if ltb a b then a else b

-- Reads and writes through the handle, the number of the entry.
abbrev pub token_of : Tbf → ℕ → ℕ
token_of t h = elim (entry t.job h) [ none ↦ 0 | some me ↦ me.token ]

abbrev pub update : (Mytbf → Mytbf) → ℕ → Tbf → Tbf
update f h t = elim (entry t.job h) [
  | none ↦ t
  | some me ↦ record t { job = set t.job h (some (f me)) }
]

take_tokens : ℕ → ℕ → Tbf → Tbf × Code
unfolding min
take_tokens size h t =
    let n = min (token_of t h) size in
    (update (λ me. record me { token = me.token - n }) h t, ret n)

-- `while (me->token <= 0) pause();`, for so many alarms; `none`: the caller still sleeps.
fetch_loop : ℕ → ℕ → ℕ → Tbf → Option (Tbf × Code)
fetch_loop zero size h t = if token_of t h == 0 then none else some (take_tokens size h t)
fetch_loop (suc alarms) size h t =
    let rest = fetch_loop alarms size h (alrm_action true t) in
    if token_of t h == 0 then rest else some (take_tokens size h t)

pub mytbf_fetchtoken : ℕ → ℕ → ℕ → Tbf → Option (Tbf × Code)
unfolding fetch_loop
mytbf_fetchtoken alarms size h t =
    if not_positive size then some (t, einval) else fetch_loop alarms size h t

-- What `mytbf_returntoken` makes of a bucket.
give : ℕ → Mytbf → Mytbf
give size me =
    let t = me.token + size in record me { token = if ltb me.burst t then me.burst else t }

pub mytbf_returntoken : ℕ → ℕ → Tbf → Tbf × Code
unfolding give
mytbf_returntoken size h t =
    if not_positive size then (t, einval) else (update (give size) h t, ret size)

-- `job[me->pos] = NULL; free(ptr);`
pub mytbf_destroy : ℕ → Tbf → Tbf
mytbf_destroy h t = record t {
  job = elim (entry t.job h) [ none ↦ t.job | some me ↦ set t.job me.pos none ];
}
