-- ===== src/Timer/Periods.antt =====
-- When a job of 30.信号专题/anytimer/anytimer.c runs: the effect of many alarms on one table entry.
use native.Mathlib.Decide.{dec_lt}
use apue_li_huiqin.Base.{
  ℕ, zero, suc, ◌+◌, ◌-◌, ◌*◌, ◌%◌, ◌^◌, ◌≤◌, ◌<◌, ◌≡◌, refl, arith, ltb, if◌then◌else◌, length,
}
use apue_li_huiqin.Timer.{running, over, Job, is_running, tick_job}

-- A job and the number of its calls so far.
abbrev pub History : Type 0
History = Job × ℕ

-- One alarm at a job that may have ended.
unfoldable pub step : History → History
unfolding tick_job
step (j, n) = if is_running j.job_state then ((tick_job j).0, n + length (tick_job j).1) else (j, n)

-- The job after `n` alarms, and its calls.
unfoldable pub after : ℕ → Job → History
unfolding step
after zero j = (j, 0)
after (suc n) j = step (after n j)

abbrev pub one_shot : ℕ → ℕ → ℕ → Job
one_shot sec jobp arg = record {
  job_state = running;
  sec = sec;
  time_remain = sec;
  repeat = 0;
  jobp = jobp;
  arg = arg;
}

abbrev pub periodic : ℕ → ℕ → ℕ → Job
periodic sec jobp arg = record (one_shot sec jobp arg) { repeat = 1 }

-- Where a periodic job stands after `n` alarms.
pub record IsPeriodic (sec n : ℕ) (h : History) : Type 0 where
  pub state : h.0.job_state ≡ running
  pub again : h.0.repeat ≡ 1
  pub same_sec : h.0.sec ≡ sec
  pub left : (1 ≤ h.0.time_remain) × (h.0.time_remain ≤ sec)
  pub rounds : h.1 * sec + sec ≡ n + h.0.time_remain

step-last :
    (j : Job) (k : ℕ)
    → j.job_state ≡ running
    → j.repeat ≡ 1
    → j.time_remain ≡ 1
    → step (j, k) ≡ (record j { time_remain = j.sec }, k + 1)
unfolding step
step-last j k run again one = ground arith

step-wait :
    (j : Job) (k : ℕ)
    → j.job_state ≡ running
    → 1 < j.time_remain
    → j.time_remain < 2 ^ 32
    → step (j, k) ≡ (record j { time_remain = j.time_remain - 1 }, k)
unfolding step
step-wait j k run more small = ground arith

step-IsPeriodic :
    (sec n : ℕ) (h : History)
    → 0 < sec
    → sec < 2 ^ 31
    → IsPeriodic sec n h
    → IsPeriodic sec (suc n) (step h)
step-IsPeriodic sec n (j, k) pos small p = elim (dec_lt 1 j.time_remain) [
  | yes more ↦ rw (step-wait j k p.state more (omega (arith, p.left))) record {
    state = p.state;
    again = p.again;
    same_sec = p.same_sec;
    left = omega (arith, p.left);
    rounds = omega (arith, p.rounds);
  }
  | no last ↦ rw (step-last j k p.state p.again (omega (arith, p.left))) record {
    state = p.state;
    again = p.again;
    same_sec = p.same_sec;
    left = omega (arith, p.same_sec);
    rounds = omega (arith, p.rounds, p.left, p.same_sec);
  }
]

-- A periodic job of `sec` seconds, with `0 < sec < 2 ^ 31`, has run after `n` alarms once for each
-- full `sec` of them, and never ends: `calls * sec` is `n` less the part of the current period that
-- has passed.
pub after-periodic :
    (sec jobp arg n : ℕ)
    → 0 < sec
    → sec < 2 ^ 31
    → IsPeriodic sec n (after n (periodic sec jobp arg))
unfolding after
after-periodic sec jobp arg zero pos small = ground arith
after-periodic sec jobp arg (suc n) pos small =
    step-IsPeriodic sec n (after n (periodic sec jobp arg)) pos small
      (after-periodic sec jobp arg n pos small)

-- A one-shot job of `sec` seconds, with `0 < sec`, runs at the alarm number `sec`: before it the job
-- waits with the rest of its time, from then on it is over with one call.
pub after-one_shot :
    (sec jobp arg n : ℕ)
    → 0 < sec
    → sec < 2 ^ 31
    → after n (one_shot sec jobp arg) ≡ (
        if ltb n sec
        then (record (one_shot sec jobp arg) { time_remain = sec - n }, 0)
        else (record (one_shot sec jobp arg) { time_remain = 0; job_state = over }, 1))
unfolding after step
after-one_shot sec jobp arg zero pos small = ground arith
after-one_shot sec jobp arg (suc n) pos small =
    ground (arith, after-one_shot sec jobp arg n pos small)

-- A job of 0 seconds, of either kind, is accepted and does not run at any of the first 2 ^ 32 - 1
-- alarms: its time is decremented below 0 before the test.
after-zero :
    (jobp arg again n : ℕ)
    → n < 2 ^ 32
    → after n (record (one_shot 0 jobp arg) { repeat = again })
      ≡ (record (one_shot 0 jobp arg) { time_remain = (2 ^ 32 - n) % 2 ^ 32; repeat = again }, 0)
unfolding after step
after-zero jobp arg again zero h = refl
after-zero jobp arg again (suc n) h = ground (arith, after-zero jobp arg again n)
