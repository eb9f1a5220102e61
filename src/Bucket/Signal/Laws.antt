-- ===== src/Bucket/Signal/Laws.antt =====
-- Fetching from the buckets of 30.信号专题/mytab/mytbf.c: when `mytbf_fetchtoken` returns, and when it
-- sleeps for ever.
use mathlib.Core.Path.{subst}
use apue_li_huiqin.Base.{
  ap, first_none, first_none-vacant, set-set, set_same, eq_of_some, ℕ, zero, suc, ◌+◌, ◌-◌, ◌^◌,
  ◌≤◌, ◌<◌, ◌≡◌, refl, ◌∙◌, ◌⊎◌, inl, inr, true, Option, none, some, [], ◌∷◌, arith, ◌==◌,
  if◌then◌else◌, set, get_elem?, Bool-cases,
}
use apue_li_huiqin.Bucket.{Mytbf, Jobs, Code, ret, entry}
use apue_li_huiqin.Bucket.Signal.{
  Tbf, fill, fill_all, alrm_action, min, token_of, take_tokens, fetch_loop, mytbf_fetchtoken,
  mytbf_init, mytbf_destroy, load_once, open_at, get_free_pos,
}

entry-fill_all :
    (ss : Jobs) (h : ℕ) {me : Mytbf} → entry ss h ≡ some me → entry (fill_all ss) h ≡ some (fill me)
unfolding fill_all
entry-fill_all [] h e = cc
entry-fill_all (none ∷ ss) zero e = cc
entry-fill_all (some m ∷ ss) zero e = cc
entry-fill_all (none ∷ ss) (suc h) e = entry-fill_all ss h e
entry-fill_all (some m ∷ ss) (suc h) e = entry-fill_all ss h e

entry-alrm_action :
    (t : Tbf) (h : ℕ) {me : Mytbf}
    → entry t.job h ≡ some me
    → entry (alrm_action true t).job h ≡ some (fill me)
unfolding alrm_action
entry-alrm_action t h e = entry-fill_all t.job h e

entry-set :
    (ss : Jobs) (h : ℕ) (m me : Mytbf) → entry ss h ≡ some me → entry (set ss h (some m)) h ≡ some m
entry-set [] h m me e = cc
entry-set (s ∷ ss) zero m me e = refl
entry-set (s ∷ ss) (suc h) m me e = entry-set ss h m me e

-- A fetch that returns: `taken` tokens go, from `held` that were there.
pub record Taken (size held h : ℕ) (out : Option (Tbf × Code)) : Type 0 where
  pub next : Tbf
  pub taken : ℕ
  pub result : out ≡ some (next, ret taken)
  pub some_taken : 1 ≤ taken
  pub fits : (taken ≤ size) × (taken ≤ held)
  pub most : (taken ≡ size) ⊎ (taken ≡ held)
  pub left : token_of next h + taken ≡ held

take_tokens-Taken :
    (size h : ℕ) (t : Tbf) (me : Mytbf)
    → 0 < size
    → entry t.job h ≡ some me
    → 0 < me.token
    → Taken size me.token h (some (take_tokens size h t))
unfolding take_tokens min
take_tokens-Taken size h t me pos e some_held = record {
  next = (take_tokens size h t).0;
  taken = min me.token size;
  result = ground (arith, e);
  some_taken = ground arith;
  fits = ground arith;
  most = ground arith;
  left =
      ground
        (arith, e, entry-set t.job h (record me { token = me.token - min me.token size }) me e);
}

fetch_loop-now :
    (n size h : ℕ) (t : Tbf)
    → 0 < token_of t h
    → fetch_loop n size h t ≡ some (take_tokens size h t)
unfolding fetch_loop
fetch_loop-now zero size h t k = ground arith
fetch_loop-now (suc n) size h t k = ground arith

fetch_loop-later :
    (n size h : ℕ) (t : Tbf)
    → token_of t h ≡ 0
    → fetch_loop (suc n) size h t ≡ fetch_loop n size h (alrm_action true t)
unfolding fetch_loop
fetch_loop-later n size h t k = ground arith

fetchtoken-loop :
    (n size h : ℕ) (t : Tbf)
    → 0 < size
    → size < 2 ^ 31
    → mytbf_fetchtoken n size h t ≡ fetch_loop n size h t
unfolding mytbf_fetchtoken
fetchtoken-loop n size h t pos small = ground arith

token_of-entry : (t : Tbf) (h : ℕ) {me : Mytbf} → entry t.job h ≡ some me → token_of t h ≡ me.token
token_of-entry t h e = ground (arith, e)

fill-positive : (me : Mytbf) → 0 < me.cps → 0 < me.burst → 0 < (fill me).token
unfolding fill
fill-positive me rate limit = ground arith

-- What a fetch finds in a bucket: its tokens, or else those of the next alarm.
abbrev pub within_one_alarm : Mytbf → ℕ
within_one_alarm me = if me.token == 0 then (fill me).token else me.token

-- A fetch of a positive size from a bucket whose rate and burst are not 0 returns within one alarm,
-- with at least one token: as many as were asked for, or all that are there, and the rest is kept.
pub mytbf_fetchtoken-Taken :
    (n size h : ℕ) (t : Tbf) (me : Mytbf)
    → 0 < size
    → size < 2 ^ 31
    → entry t.job h ≡ some me
    → 0 < me.cps
    → 0 < me.burst
    → Taken size (within_one_alarm me) h (mytbf_fetchtoken (suc n) size h t)
mytbf_fetchtoken-Taken n size h t me pos small e rate limit =
    rw (fetchtoken-loop (suc n) size h t pos small) (elim (Bool-cases (me.token == 0)) [
      | inl empty ↦
          rw
            (
              empty,
              fetch_loop-later n size h t (ground (arith, token_of-entry t h e)),
              fetch_loop-now n size h (alrm_action true t) (
                  omega (
                    arith,
                    token_of-entry (alrm_action true t) h (entry-alrm_action t h e),
                    fill-positive me rate limit,
                  )),
            )
            (take_tokens-Taken size h (alrm_action true t) (fill me) pos (entry-alrm_action t h e)
              (fill-positive me rate limit))
      | inr full ↦
          rw (full, fetch_loop-now (suc n) size h t (ground (arith, token_of-entry t h e)))
            (take_tokens-Taken size h t me pos e (ground arith))
    ])

fill-empty :
    (me : Mytbf)
    → me.token ≡ 0
    → (me.cps ≡ 0) ⊎ (me.burst ≡ 0)
    → ((fill me).token ≡ 0) × (((fill me).cps ≡ 0) ⊎ ((fill me).burst ≡ 0))
unfolding fill
fill-empty me empty never = ground arith

fetch_loop-sleeps :
    (n size h : ℕ) (t : Tbf) (me : Mytbf)
    → entry t.job h ≡ some me
    → me.token ≡ 0
    → (me.cps ≡ 0) ⊎ (me.burst ≡ 0)
    → fetch_loop n size h t ≡ none
fetch_loop-sleeps zero size h t me e empty never =
    unfold fetch_loop in ground (arith, token_of-entry t h e)
fetch_loop-sleeps (suc n) size h t me e empty never =
    let f = fill-empty me empty never in
    fetch_loop-later n size h t (token_of-entry t h e ∙ empty)
    ∙ fetch_loop-sleeps n size h (alrm_action true t) (fill me) (entry-alrm_action t h e) f.0 f.1

-- A bucket that is empty, and whose rate or burst is 0, puts each fetch of a positive size to sleep for
-- ever: no number of alarms wakes it.
mytbf_fetchtoken-sleeps :
    (n size h : ℕ) (t : Tbf) (me : Mytbf)
    → 0 < size
    → size < 2 ^ 31
    → entry t.job h ≡ some me
    → me.token ≡ 0
    → (me.cps ≡ 0) ⊎ (me.burst ≡ 0)
    → mytbf_fetchtoken n size h t ≡ none
mytbf_fetchtoken-sleeps n size h t me pos small e empty never =
    fetchtoken-loop n size h t pos small ∙ fetch_loop-sleeps n size h t me e empty never

entry-set-none :
    (ss : Jobs) (h : ℕ) (m : Mytbf)
    → get_elem? ss h ≡ some none
    → entry (set ss h (some m)) h ≡ some m
entry-set-none [] h m e = cc
entry-set-none (s ∷ ss) zero m e = refl
entry-set-none (s ∷ ss) (suc h) m e = entry-set-none ss h m e

-- What `mytbf_init` does to the table, where it returns a handle.
record Opened (cps burst h : ℕ) (t u : Tbf) : Type 0 where
  vacant : get_elem? t.job h ≡ some none
  table : u.job ≡ set t.job h (some (record { cps = cps; burst = burst; token = 0; pos = h }))

load_once-job : (t : Tbf) → (load_once t).job ≡ t.job
unfolding load_once
load_once-job t = ground arith

open_at-Opened :
    (cps burst : ℕ) (t u : Tbf) (o : Option ℕ) {h : ℕ}
    → u.job ≡ t.job
    → first_none t.job 0 ≡ o
    → (open_at true cps burst u o).1 ≡ some h
    → Opened cps burst h t (open_at true cps burst u o).0
unfolding open_at
open_at-Opened cps burst t u none same f e = cc
open_at-Opened cps burst t u (some pos) {h} same f e =
    let p : pos ≡ h = eq_of_some e in
    record {
      vacant = subst (λ k. get_elem? t.job k ≡ some none) p (first_none-vacant t.job f);
      table = ground arith;
    }

mytbf_init-Opened :
    (cps burst : ℕ) (t : Tbf) {h : ℕ}
    → (mytbf_init true cps burst t).1 ≡ some h
    → Opened cps burst h t (mytbf_init true cps burst t).0
unfolding mytbf_init get_free_pos
mytbf_init-Opened cps burst t e =
    open_at-Opened cps burst t (load_once t) (first_none (load_once t).job 0) (load_once-job t)
      (rw (load_once-job t)) e

mytbf_destroy-job :
    (h : ℕ) (u : Tbf) (me : Mytbf)
    → entry u.job h ≡ some me
    → (mytbf_destroy h u).job ≡ set u.job me.pos none
unfolding mytbf_destroy
mytbf_destroy-job h u me e = ground (arith, e)

-- A handle that `mytbf_init` returns names the new bucket, empty and at its entry, and `mytbf_destroy`
-- of it gives back the table as it was.
mytbf_destroy-init :
    (cps burst : ℕ) (t : Tbf) {h : ℕ}
    → (mytbf_init true cps burst t).1 ≡ some h
    → (entry (mytbf_init true cps burst t).0.job h
        ≡ some (record { cps = cps; burst = burst; token = 0; pos = h }))
      × ((mytbf_destroy h (mytbf_init true cps burst t).0).job ≡ t.job)
mytbf_destroy-init cps burst t {h} e =
    let u : Tbf = (mytbf_init true cps burst t).0 in
    let o = mytbf_init-Opened cps burst t e in
    let me : Mytbf = record { cps = cps; burst = burst; token = 0; pos = h } in
    let here : entry u.job h ≡ some me = rw (o.table) (entry-set-none t.job h me o.vacant) in
    (
      here,
      mytbf_destroy-job h u me here
          ∙ ap (λ (l : Jobs). set l h none) o.table
          ∙ set-set t.job h (some me) none
          ∙ set_same t.job h none o.vacant,
    )
