-- ===== src/Bucket/Threads/Metered.antt =====
-- One thread at a time has the mutex of a bucket, where the fetches wait on the condition variable:
-- 31.线程专题/mytfb_thread/mytbf_2.c and mytbf_thread_cond/mytbf.c.
use apue_li_huiqin.Base.{
  ℕ, ◌+◌, ◌-◌, ◌≤◌, ◌≡◌, refl, ap, ◌∙◌, Bool, true, false, Option, none, some, arith, ltb, ◌==◌,
  if◌then◌else◌, one_if, count_by, count_by-set, count_by-replicate, set, get_elem?, map,
  Bool-cases, inl, inr,
}
use apue_li_huiqin.Bucket.{min}
use apue_li_huiqin.Bucket.Threads.{
  by_cond, filler, caller, At, outside, fetch_lock, fetch_test, fetch_wait, fetch_unlock,
  fetch_yield, fetch_min, fetch_load, fetch_store, fetch_leave, add_lock, add_load, add_cap,
  add_leave, add_store, Shared, woken, go, wait_step, thread_step, Call, call_fetch, call_return,
  entered, Reach, begin, runs, calls, wakes,
}
use apue_li_huiqin.Bucket.Threads.Inside.{
  is_inside, is_stale, others-fresh, count_by-woken, inside-woken, stale-woken, get_elem?-woken,
}

record IsMetered (s : Shared) : Type 0 where
  pub one : count_by is_inside s.threads ≡ one_if s.locked
  pub fresh : count_by (is_stale s.token) s.threads ≡ 0
  pub bound : s.taken + s.token ≤ s.poured

-- Thread `k` moves with the tokens as they are; `b` is the mutex after it.
moved :
    (s : Shared) (k : ℕ) (v w : At) (b : Bool)
    → IsMetered s
    → get_elem? s.threads k ≡ some v
    → one_if (is_inside w) + one_if s.locked ≡ one_if (is_inside v) + one_if b
    → is_stale s.token w ≡ false
    → IsMetered (go k w b s)
moved s k v w b h e lock fresh = record {
  one = omega (arith, h.one, count_by-set is_inside s.threads k v w e, lock);
  fresh =
      omega (arith, h.fresh, count_by-set (is_stale s.token) s.threads k v w e, ap one_if fresh);
  bound = h.bound;
}

-- Thread `k`, which is inside, stores, and stays inside.
stored :
    (s : Shared) (k : ℕ) (v w : At) (token taken poured : ℕ)
    → IsMetered s
    → get_elem? s.threads k ≡ some v
    → is_inside v ≡ true
    → is_inside w ≡ true
    → is_stale token w ≡ false
    → taken + token ≤ poured
    → IsMetered (go k w s.locked (record s { token = token; taken = taken; poured = poured }))
stored s k v w token taken poured h e i j fresh bound =
    let one : one_if s.locked ≤ 1 = ground arith in
    record {
      one =
          omega (arith, h.one, count_by-set is_inside s.threads k v w e, ap one_if i, ap one_if j);
      fresh = others-fresh token s.threads k v w e i (omega (arith, h.one, one)) fresh;
      bound = bound;
    }

-- No thread in the list is stale.
not_stale :
    (s : Shared) (k : ℕ) (v : At)
    → IsMetered s
    → get_elem? s.threads k ≡ some v
    → is_stale s.token v ≡ false
not_stale s k v h e =
    let c = count_by-set (is_stale s.token) s.threads k v outside e in
    elim (Bool-cases (is_stale s.token v)) [
      | inl t ↦ absurd (omega (arith, c, h.fresh, ap one_if t))
      | inr f ↦ f
    ]

-- Whoever is inside has the mutex.
locked_inside :
    (s : Shared) (k : ℕ) (v : At)
    → IsMetered s
    → get_elem? s.threads k ≡ some v
    → is_inside v ≡ true
    → s.locked ≡ true
locked_inside s k v h e i =
    let c = count_by-set is_inside s.threads k v outside e in
    elim (Bool-cases s.locked) [
      | inl t ↦ t
      | inr f ↦ absurd (omega (arith, c, h.one, ap one_if i, ap one_if f))
    ]

woken-IsMetered :
    (s : Shared) → IsMetered s → IsMetered (record s { threads = map woken s.threads })
woken-IsMetered s h = record {
  one = count_by-woken is_inside inside-woken s.threads ∙ h.one;
  fresh = count_by-woken (is_stale s.token) (stale-woken s.token) s.threads ∙ h.fresh;
  bound = h.bound;
}

lock-IsMetered :
    (s : Shared) (k : ℕ) (v w : At) (b : Bool)
    → s.locked ≡ b
    → IsMetered s
    → get_elem? s.threads k ≡ some v
    → is_inside v ≡ false
    → is_inside w ≡ true
    → is_stale s.token w ≡ false
    → IsMetered (if b then s else go k w true s)
lock-IsMetered s k v w true l h e i j fresh = h
lock-IsMetered s k v w false l h e i j fresh =
    moved s k v w true h e (omega (arith, ap one_if i, ap one_if j, ap one_if l)) fresh

unlock-IsMetered :
    (s : Shared) (k : ℕ) (v w : At)
    → IsMetered s
    → get_elem? s.threads k ≡ some v
    → is_inside v ≡ true
    → is_inside w ≡ false
    → is_stale s.token w ≡ false
    → IsMetered (go k w false s)
unlock-IsMetered s k v w h e i j fresh =
    moved s k v w false h e
      (omega (arith, ap one_if i, ap one_if j, ap one_if (locked_inside s k v h e i))) fresh

thread_step-IsMetered :
    (burst k : ℕ) (o : Option At) (s : Shared)
    → IsMetered s
    → get_elem? s.threads k ≡ o
    → IsMetered (thread_step by_cond burst k o s)
unfolding thread_step wait_step min
thread_step-IsMetered burst k none s h e = h
thread_step-IsMetered burst k (some outside) s h e = h
thread_step-IsMetered burst k (some (fetch_lock size)) s h e =
    lock-IsMetered s k _ (fetch_test size) s.locked refl h e refl refl refl
thread_step-IsMetered burst k (some (fetch_test size)) s h e = elim (Bool-cases (s.token == 0)) [
  | inl z ↦ rw z (unlock-IsMetered s k (fetch_test size) (fetch_wait size) h e refl refl refl)
  | inr z ↦ rw z (moved s k (fetch_test size) (fetch_min size) s.locked h e refl z)
]
thread_step-IsMetered burst k (some (fetch_wait size)) s h e = h
thread_step-IsMetered burst k (some (fetch_unlock size)) s h e =
    let f = not_stale s k (fetch_unlock size) h e in absurd (cc)
thread_step-IsMetered burst k (some (fetch_yield size)) s h e =
    let f = not_stale s k (fetch_yield size) h e in absurd (cc)
thread_step-IsMetered burst k (some (fetch_min size)) s h e =
    moved s k (fetch_min size) (fetch_load (min s.token size)) s.locked h e refl (ground arith)
thread_step-IsMetered burst k (some (fetch_load n)) s h e =
    moved s k (fetch_load n) (fetch_store n s.token) s.locked h e refl
      (ground (arith, not_stale s k (fetch_load n) h e))
thread_step-IsMetered burst k (some (fetch_store n loaded)) s h e =
    let f = not_stale s k (fetch_store n loaded) h e in
    elim (Bool-cases (ltb loaded n)) [
      | inl low ↦ rw low h
      | inr high ↦ rw high (
          stored s k (fetch_store n loaded) fetch_leave (loaded - n) (s.taken + n) s.poured h e refl
            refl refl (ground (arith, f, h.bound)))
    ]
thread_step-IsMetered burst k (some fetch_leave) s h e =
    unlock-IsMetered s k fetch_leave outside h e refl refl refl
thread_step-IsMetered burst k (some (add_lock a n)) s h e =
    lock-IsMetered s k _ (add_load a n) s.locked refl h e refl refl refl
thread_step-IsMetered burst k (some (add_load a n)) s h e =
    moved s k (add_load a n) (add_store a n s.token) s.locked h e refl (ground arith)
thread_step-IsMetered burst k (some (add_store a n loaded)) s h e =
    let f = not_stale s k (add_store a n loaded) h e in
    stored s k (add_store a n loaded) (add_cap a n) (loaded + n) s.taken (s.poured + n) h e refl
      refl refl (ground (arith, f, h.bound))
thread_step-IsMetered burst k (some (add_cap a n)) s h e =
    stored s k (add_cap a n) (add_leave a n) (if ltb burst s.token then burst else s.token) s.taken
      s.poured h e refl refl refl (ground (arith, h.bound))
thread_step-IsMetered burst k (some (add_leave filler n)) s h e =
    unlock-IsMetered (record s { threads = map woken s.threads }) k (add_leave filler n)
      (add_lock filler n) (woken-IsMetered s h) (get_elem?-woken s.threads k (add_leave filler n) e)
      refl refl refl
thread_step-IsMetered burst k (some (add_leave caller n)) s h e =
    unlock-IsMetered s k (add_leave caller n) outside h e refl refl refl

entered-IsMetered :
    (s : Shared) (k : ℕ) (c : Call)
    → IsMetered s
    → get_elem? s.threads k ≡ some outside
    → IsMetered (record s { threads = set s.threads k (entered c) })
entered-IsMetered s k (call_fetch size) h e =
    moved s k outside (fetch_lock size) s.locked h e refl refl
entered-IsMetered s k (call_return size) h e =
    moved s k outside (add_lock caller size) s.locked h e refl refl

Reach-IsMetered : {cps burst users : ℕ} {s : Shared} → Reach by_cond cps burst users s → IsMetered s
Reach-IsMetered {users = users} begin = record {
  one = omega (arith, count_by-replicate is_inside users outside refl);
  fresh = omega (arith, count_by-replicate (is_stale 0) users outside refl);
  bound = omega arith;
}
Reach-IsMetered {burst = burst} (runs {s = s} k r) =
    thread_step-IsMetered burst k (get_elem? s.threads k) s (Reach-IsMetered r) refl
Reach-IsMetered (calls {s = s} k c r e) = entered-IsMetered s k c (Reach-IsMetered r) e
Reach-IsMetered (wakes {s = s} k size r e) =
    moved s k (fetch_wait size) (fetch_lock size) s.locked (Reach-IsMetered r) e refl refl

-- However the threads are scheduled and woken, at most one is between its locking and its unlocking, and
-- what all fetches have taken and the tokens left are together at most what the filling thread and the
-- returns have added.
pub Reach-taken :
    {cps burst users : ℕ} {s : Shared}
    → Reach by_cond cps burst users s
    → (count_by is_inside s.threads ≤ 1) × (s.taken + s.token ≤ s.poured)
Reach-taken r = let h = Reach-IsMetered r in (ground (arith, h.one), h.bound)
