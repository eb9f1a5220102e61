-- ===== src/Timer/Tests.antt =====
-- Runs of the timers of 30.信号专题/anytimer/anytimer.c, and the theorems at concrete tables.
use apue_li_huiqin.Base.{◌≡◌, refl, true, none, some, [], ◌∷◌, arith}
use apue_li_huiqin.Timer.{Timer, ret, tick_slots, alrm_action, alarms, at_waitjob, release}
use apue_li_huiqin.Timer.Periods.{after, one_shot, periodic, IsPeriodic, after-periodic}
use apue_li_huiqin.Timer.Wait.{at_waitjob-ends}

-- A table of three entries: a one-shot job of 2 seconds, nothing, and a periodic one of 1 second.
abbrev small : Timer
small = record {
  job = some (one_shot 2 71 5) ∷ none ∷ some (periodic 1 72 6) ∷ [];
  inited = true;
  loads = 1;
  calls = [];
}

abbrev full : Timer
full = record small { job = some (one_shot 2 71 5) ∷ [] }

calls_after : (alarms 3 small).calls ≡ (72, 6) ∷ (71, 5) ∷ (72, 6) ∷ (72, 6) ∷ []
unfolding alarms alrm_action tick_slots
calls_after = refl

after-periodic_example : IsPeriodic 3 10 (after 10 (periodic 3 7 0))
after-periodic_example = after-periodic 3 7 0 10 (omega arith) (omega arith)

-- The job ends at the second alarm, which comes between the test and `pause`: without the third alarm
-- `at_waitjob` would not return.
at_waitjob-ends_example :
    (at_waitjob (0 ∷ 1 ∷ []) 0 small ≡ some (release 0 (alarms 3 small), ret 0))
    × (at_waitjob (0 ∷ []) 0 small ≡ none)
at_waitjob-ends_example =
    at_waitjob-ends (0 ∷ []) [] 1 1 0 small (one_shot 2 71 5) (omega arith) refl
      (record { state = refl; once = omega arith; time = refl; small = omega arith }) (omega arith)
      (omega arith)
