-- ===== src/Bucket/Threads.antt =====
-- The token buckets with threads, one load or store at a time: a single bucket, with `token` under
-- its mutex. 31.线程专题/mytfb_thread/mytbf_2.c and mytbf_thread_cond/mytbf.c wait on a condition variable;
-- mytfb_thread/mytbf.c and mytfb_thread_busy/mytbf.c unlock, yield, and unlock again. A size is above 0.
-- Where the number to be stored would be below 0 the thread stays where it is. The mutex of the table and
-- the second of sleep between two fillings are left out.
pub mod Inside
pub mod Metered
use apue_li_huiqin.Base.{
  ℕ, zero, suc, ◌+◌, ◌-◌, ◌<◌, ◌≡◌, Bool, true, false, Option, none, some, List, [], ◌∷◌, ltb, ◌==◌,
  if◌then◌else◌, set, get_elem?, map, replicate,
}
use apue_li_huiqin.Bucket.{min}

-- How `mytbf_fetchtoken` waits.
pub data Wait : Type 0 where
  by_cond by_yield : Wait

-- Who adds tokens: `thr_alrm` or a caller of `mytbf_returntoken`.
pub data Adder : Type 0 where
  filler caller : Adder

-- Where a thread is. `fetch_` are the places in `mytbf_fetchtoken`, before the call or the load or store
-- of that name; `add_` those of `thr_alrm` and `mytbf_returntoken`, with what they add.
pub data At : Type 0 where
  outside : At
  fetch_lock fetch_test fetch_wait fetch_unlock fetch_yield fetch_min : (size : ℕ) → At
  fetch_load : (n : ℕ) → At
  fetch_store : (n loaded : ℕ) → At
  fetch_leave : At
  add_lock add_load add_cap add_leave : Adder → (n : ℕ) → At
  add_store : Adder → (n loaded : ℕ) → At

-- The bucket and the threads. `taken` is what the fetches have taken off in all, `poured` what has been
-- added.
pub record Shared : Type 0 where
  pub token : ℕ
  pub locked : Bool
  pub threads : List At
  pub taken : ℕ
  pub poured : ℕ

-- `pthread_cond_broadcast` makes a waiting thread lock again.
abbrev pub woken : At → At
woken a = elim a [ fetch_wait size ↦ fetch_lock size | b ↦ b ]

-- Thread `k` goes to another place, with the mutex as given.
abbrev pub go : ℕ → At → Bool → Shared → Shared
go k a b s = record s { locked = b; threads = set s.threads k a }

-- `while (me->token <= 0)`: what is done where there is no token.
unfoldable pub wait_step : Wait → ℕ → ℕ → Shared → Shared
wait_step by_cond k size s = go k (fetch_wait size) false s
wait_step by_yield k size s = go k (fetch_unlock size) s.locked s

-- A step of thread `k` from the place where it is.
unfoldable pub thread_step : Wait → ℕ → ℕ → Option At → Shared → Shared
unfolding wait_step min
thread_step w burst k none s = s
thread_step w burst k (some outside) s = s
thread_step w burst k (some (fetch_lock size)) s =
    if s.locked then s else go k (fetch_test size) true s
thread_step w burst k (some (fetch_test size)) s =
    if s.token == 0 then wait_step w k size s else go k (fetch_min size) s.locked s
thread_step w burst k (some (fetch_wait size)) s = s
thread_step w burst k (some (fetch_unlock size)) s = go k (fetch_yield size) false s
thread_step w burst k (some (fetch_yield size)) s = go k (fetch_test size) false s
thread_step w burst k (some (fetch_min size)) s = go k (fetch_load (min s.token size)) s.locked s
thread_step w burst k (some (fetch_load n)) s = go k (fetch_store n s.token) s.locked s
thread_step w burst k (some (fetch_store n loaded)) s =
    if ltb loaded n
    then s
    else go k fetch_leave s.locked (record s { token = loaded - n; taken = s.taken + n })
thread_step w burst k (some fetch_leave) s = go k outside false s
thread_step w burst k (some (add_lock a n)) s = if s.locked then s else go k (add_load a n) true s
thread_step w burst k (some (add_load a n)) s = go k (add_store a n s.token) s.locked s
thread_step w burst k (some (add_store a n loaded)) s =
    go k (add_cap a n) s.locked (record s { token = loaded + n; poured = s.poured + n })
thread_step w burst k (some (add_cap a n)) s =
    go k (add_leave a n) s.locked
      (record s { token = if ltb burst s.token then burst else s.token })
thread_step w burst k (some (add_leave filler n)) s =
    go k (add_lock filler n) false (record s { threads = map woken s.threads })
thread_step w burst k (some (add_leave caller n)) s = go k outside false s

-- What a thread outside may call: a fetch of this size, or a return of so many.
pub data Call : Type 0 where
  call_fetch call_return : (size : ℕ) → Call

abbrev pub entered : Call → At
entered (call_fetch size) = fetch_lock size
entered (call_return size) = add_lock caller size

-- The states of a run: the filling thread with the rate `cps`, and so many others. A waiting thread may
-- wake for no reason.
pub data Reach (w : Wait) (cps burst users : ℕ) : Shared → Type 0 where
  begin : Reach w cps burst users (record {
    token = 0;
    locked = false;
    threads = add_lock filler cps ∷ replicate users outside;
    taken = 0;
    poured = 0;
  })
  runs :
      {s : Shared} (k : ℕ)
      → Reach w cps burst users s
      → Reach w cps burst users (thread_step w burst k (get_elem? s.threads k) s)
  calls :
      {s : Shared} (k : ℕ) (c : Call)
      → Reach w cps burst users s
      → get_elem? s.threads k ≡ some outside
      → Reach w cps burst users (record s { threads = set s.threads k (entered c) })
  wakes :
      {s : Shared} (k size : ℕ)
      → Reach w cps burst users s
      → get_elem? s.threads k ≡ some (fetch_wait size)
      → Reach w cps burst users (record s { threads = set s.threads k (fetch_lock size) })
