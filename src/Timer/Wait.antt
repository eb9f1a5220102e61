-- ===== src/Timer/Wait.antt =====
-- `at_waitjob` and `at_canceljob` of 30.信号专题/anytimer/anytimer.c.
use apue_li_huiqin.Base.{
  ℕ, zero, suc, ◌^◌, ◌≤◌, ◌<◌, ◌≡◌, ◌≢◌, refl, ◌∙◌, ap, true, false, Option, none, some, List, [],
  ◌∷◌, ◌++◌, ◌+◌, leb, sym, arith,
}
use apue_li_huiqin.Timer.{
  Job, running, over, Timer, Code, ret, job_max, is_waiting, tick_slot, alrm_action, alarms, slot,
  release, wait_loop, at_waitjob, at_canceljob,
}
use apue_li_huiqin.Timer.Periods.{after}
use apue_li_huiqin.Timer.Alarm.{ticked, slot-alrm_action, alarms-first, slot-alarms}

-- A one-shot job that runs, with `left` alarms to go.
pub record IsPending (j : Job) (left : ℕ) : Type 0 where
  pub state : j.job_state ≡ running
  pub once : j.repeat ≢ 1
  pub time : j.time_remain ≡ left
  pub small : left < 2 ^ 32

ticked-last :
    (j : Job)
    → IsPending j 1
    → ticked (some j) ≡ some (record j { time_remain = 0; job_state = over })
unfolding tick_slot
ticked-last j p = ground (arith, p.state, p.once, p.time)

ticked-wait :
    (j : Job) (r : ℕ)
    → IsPending j (suc (suc r))
    → ticked (some j) ≡ some (record j { time_remain = suc r })
unfolding tick_slot
ticked-wait j r p = ground (arith, p.state, p.once, p.time, p.small)

wait_loop-step :
    (early : ℕ) (turns : List ℕ) (id : ℕ) (t : Timer)
    → is_waiting (slot t id) ≡ true
    → wait_loop (early ∷ turns) id t ≡ wait_loop turns id (alarms (suc early) t)
unfolding wait_loop
wait_loop-step early turns id t h = rw h

wait_loop-done :
    (turns : List ℕ) (id : ℕ) (t : Timer)
    → is_waiting (slot t id) ≡ false
    → wait_loop turns id t ≡ some t
unfolding wait_loop
wait_loop-done [] id t h = rw h
wait_loop-done (early ∷ turns) id t h = rw h

waiting :
    (t : Timer) (id : ℕ) (j : Job) (r : ℕ)
    → slot t id ≡ some j
    → IsPending j r
    → is_waiting (slot t id) ≡ true
waiting t id j r h p = rw h (rw (p.state))

-- A pending job with more than one alarm to go is pending after an alarm.
module _ (t : Timer) (id : ℕ) (j : Job) (r : ℕ) (h : slot t id ≡ some j) where
  later :
      IsPending j (suc (suc r))
      → slot (alrm_action true t) id ≡ some (record j { time_remain = suc r })
  later p = slot-alrm_action t id ∙ rw h (ticked-wait j r p)

  later-IsPending : IsPending j (suc (suc r)) → IsPending (record j { time_remain = suc r }) (suc r)
  later-IsPending p = record {
    state = p.state;
    once = p.once;
    time = refl;
    small = omega (arith, p.small);
  }

ticked-ended : (s : Option Job) → is_waiting s ≡ false → is_waiting (ticked s) ≡ false
unfolding tick_slot
ticked-ended none h = refl
ticked-ended (some j) h = ground (arith, h)

-- A job that does not run stays so.
alarms-ended :
    (n id : ℕ) (t : Timer)
    → is_waiting (slot t id) ≡ false
    → is_waiting (slot (alarms n t) id) ≡ false
unfolding alarms
alarms-ended zero id t h = h
alarms-ended (suc n) id t h =
    rw (slot-alrm_action (alarms n t) id)
      (ticked-ended (slot (alarms n t) id) (alarms-ended n id t h))

-- A pending job runs for as long as it has alarms to go.
alarms-waiting :
    (n left id : ℕ) (t : Timer) (j : Job)
    → slot t id ≡ some j
    → IsPending j (suc left)
    → is_waiting (slot (alarms n t) id) ≡ leb n left
unfolding alarms
alarms-waiting zero left id t j h p = waiting t id j (suc left) h p ∙ ground arith
alarms-waiting (suc n) zero id t j h p =
    let first : is_waiting (slot (alrm_action true t) id) ≡ false =
      rw (slot-alrm_action t id, h, ticked-last j p) refl in
    rw (sym (alarms-first n t)) (alarms-ended n id (alrm_action true t) first ∙ ground arith)
alarms-waiting (suc n) (suc left) id t j h p = rw (sym (alarms-first n t)) (
    alarms-waiting n left id (alrm_action true t) (record j { time_remain = suc left })
      (later t id j left h p) (later-IsPending t id j left h p)
    ∙ ground arith)

alarms-alarms : (m n : ℕ) (t : Timer) → alarms m (alarms n t) ≡ alarms (n + m) t
unfolding alarms
alarms-alarms zero n t =
    let none_more : n ≡ n + 0 = omega arith in ap (λ (k : ℕ). alarms k t) none_more
alarms-alarms (suc m) n t =
    let one_more : suc (n + m) ≡ n + suc m = omega arith in
    ap (alrm_action true) (alarms-alarms m n t) ∙ ap (λ (k : ℕ). alarms k t) one_more

-- The alarms of some turns of the loop: those between test and `pause`, and the one in `pause`.
abbrev pub total : List ℕ → ℕ
total [] = 0
total (early ∷ turns) = suc early + total turns

module _ (left id : ℕ) (t : Timer) (j : Job) (h : slot t id ≡ some j)
    (p : IsPending j (suc left)) where
  still : (n : ℕ) → n ≤ left → is_waiting (slot (alarms n t) id) ≡ true
  still n le = alarms-waiting n left id t j h p ∙ ground (arith, le)

  no_more : (n : ℕ) → left < n → is_waiting (slot (alarms n t) id) ≡ false
  no_more n lt = alarms-waiting n left id t j h p ∙ ground (arith, lt)

  wait_loop-turn :
      (early : ℕ) (turns : List ℕ) (n : ℕ)
      → n ≤ left
      → wait_loop (early ∷ turns) id (alarms n t) ≡ wait_loop turns id (alarms (n + suc early) t)
  wait_loop-turn early turns n le =
      wait_loop-step early turns id (alarms n t) (still n le)
      ∙ ap (wait_loop turns id) (alarms-alarms (suc early) n t)

  -- The loop of `at_waitjob` ends with the first turn in which the job ends.
  wait_loop-ends :
      (before : List ℕ) (early : ℕ) (more : List ℕ) (n : ℕ)
      → n + total before ≤ left
      → left < n + total before + suc early
      → wait_loop (before ++ early ∷ more) id (alarms n t)
        ≡ some (alarms (n + total before + suc early) t)
  wait_loop-ends [] early more n le lt =
      wait_loop-turn early more n (omega (arith, le))
      ∙ wait_loop-done more id (alarms (n + suc early) t)
          (no_more (n + suc early) (omega (arith, lt)))
      ∙ ap (λ (k : ℕ). some (alarms k t)) (omega arith)
  wait_loop-ends (b ∷ bs) early more n le lt =
      wait_loop-turn b (bs ++ early ∷ more) n (omega (arith, le))
      ∙ wait_loop-ends bs early more (n + suc b) (omega (arith, le)) (omega (arith, lt))
      ∙ ap (λ (k : ℕ). some (alarms k t)) (omega arith)

  wait_loop-blocks :
      (before : List ℕ) (n : ℕ) → n + total before ≤ left → wait_loop before id (alarms n t) ≡ none
  wait_loop-blocks [] n le = unfold wait_loop in rw (still n (omega (arith, le)))
  wait_loop-blocks (b ∷ bs) n le =
      wait_loop-turn b bs n (omega (arith, le))
      ∙ wait_loop-blocks bs (n + suc b) (omega (arith, le))

-- `at_waitjob` of a one-shot job that runs, with `left + 1` alarms to go, whatever alarms come between a
-- test of its loop and the `pause` behind it, and no alarm behind the last test: it has not returned after
-- turns with fewer alarms in all, and returns with the turn that brings the alarm number `left + 1`, at the
-- `pause` of that turn: so one alarm or more behind the end of the job, where that came before the `pause`.
-- Then it has freed the entry, and returns 0.
pub at_waitjob-ends :
    (before more : List ℕ) (early left id : ℕ) (t : Timer) (j : Job)
    → id < job_max
    → slot t id ≡ some j
    → IsPending j (suc left)
    → total before ≤ left
    → left < total before + suc early
    → (at_waitjob (before ++ early ∷ more) id t
        ≡ some (release id (alarms (total before + suc early) t), ret 0))
      × (at_waitjob before id t ≡ none)
unfolding at_waitjob alarms
at_waitjob-ends before more early left id t j lt h p le reached =
    let sum : 0 + total before + suc early ≡ total before + suc early = omega arith in
    let ends =
      wait_loop-ends left id t j h p before early more 0 (omega (arith, le))
        (omega (arith, reached))
      ∙ ap (λ (k : ℕ). some (alarms k t)) sum in
    let blocks = wait_loop-blocks left id t j h p before 0 (omega (arith, le)) in
    (ground (arith, ends, h, p.once), ground (arith, blocks, h, p.once))

at_canceljob-running :
    (id : ℕ) (t : Timer) (j : Job)
    → id < job_max
    → slot t id ≡ some j
    → j.job_state ≡ running
    → at_canceljob id t ≡ (t, ret 0)
unfolding at_canceljob
at_canceljob-running id t j lt h run = ground (arith, h, run)

-- A job that runs and is cancelled: `at_canceljob` returns 0, as its header promises. But the table is
-- as before: after any number of alarms the job stands where it would stand without the call, and a
-- second call returns 0 again, never ECANCELED.
pub at_canceljob-ineffective :
    (id n : ℕ) (t : Timer) (j : Job)
    → id < job_max
    → slot t id ≡ some j
    → j.job_state ≡ running
    → let (u, code) = at_canceljob id t in
      (code ≡ ret 0) × (slot (alarms n u) id ≡ some (after n j).0) × ((at_canceljob id u).1 ≡ ret 0)
at_canceljob-ineffective id n t j lt h run = rw (at_canceljob-running id t j lt h run) (
  refl,
  slot-alarms n t id h,
  ap (λ (out : Timer × Code). out.1) (at_canceljob-running id t j lt h run),
)
