-- ===== src/Bucket/Tests.antt =====
-- Runs of the token buckets of 31.线程专题/mytbf_thread_cond/mytbf.c and 30.信号专题/mytab/mytbf.c, and
-- the theorems about them at concrete buckets.
use apue_li_huiqin.Base.{
  first_none, false, ◌+◌, ◌≤◌, count_by, ◌≡◌, refl, true, none, some, List, [], ◌∷◌, arith,
}
use apue_li_huiqin.Bucket.Rearm
use apue_li_huiqin.Bucket.Rearm.{Clock}
use apue_li_huiqin.Bucket.Rearm.Seconds.{
  Event, tick, make, run_rearm, run_timer, IsGoing, run_rearm-run_timer,
}
use apue_li_huiqin.Bucket.Threads.{
  by_cond, by_yield, filler, fetch_leave, add_lock, add_cap, Shared, wait_step, thread_step,
  call_fetch, Reach, begin, runs, calls,
}
use apue_li_huiqin.Bucket.Threads.Inside.{is_inside}
use apue_li_huiqin.Bucket.Threads.Metered.{Reach-taken}
use apue_li_huiqin.Bucket.{entry, min, Mytbf, Jobs}
use apue_li_huiqin.Bucket.Traffic.{
  Op, second, fetch, give, Meter, run, step, IsMetered, run-IsMetered,
}
use apue_li_huiqin.Bucket.Signal
use apue_li_huiqin.Bucket.Signal.{Tbf}

-- The rate and burst of the program, with 30 tokens, at entry 0.
abbrev filled : Mytbf
filled = record { cps = 10; burst = 100; token = 30; pos = 0 }

abbrev empty : Mytbf
empty = record filled { token = 0 }

abbrev two_entries : Jobs
two_entries = some filled ∷ none ∷ []

abbrev empty_meter : Meter
empty_meter = record { bucket = empty; rounds = 0; fetched = 0; given = 0 }

abbrev traffic : List Op
traffic = second ∷ fetch 1024 ∷ second ∷ second ∷ fetch 15 ∷ give 4 ∷ []

abbrev of_signals : Jobs → Tbf
of_signals job = record { job = job; inited = true; loads = 1 }

run-traffic :
    run empty_meter traffic
    ≡ record { bucket = record empty { token = 9 }; rounds = 3; fetched = 25; given = 4 }
unfolding run step
run-traffic = refl

run-IsMetered_example : IsMetered 0 10 100 (run empty_meter traffic)
run-IsMetered_example = run-IsMetered 0 10 100 traffic empty_meter (omega arith)

abbrev stuck : Mytbf
stuck = record empty { cps = 0 }

-- The filling thread adds 10 tokens, and another fetches 4 of them.
abbrev four_taken : Shared
four_taken = record {
  token = 6;
  locked = true;
  threads = add_lock filler 10 ∷ fetch_leave ∷ [];
  taken = 4;
  poured = 10;
}

four_taken-Reach : Reach by_cond 10 100 1 four_taken
unfolding thread_step min wait_step
four_taken-Reach = runs 1 (
    runs 1 (
      runs 1 (
        runs 1 (
          runs 1 (
            runs 0 (
              runs 0 (
                runs 0
                  (runs 0 (runs 0 (runs 1 (runs 1 (calls 1 (call_fetch 4) begin refl))))))))))))

Reach-taken_example :
    (count_by is_inside four_taken.threads ≤ 1) × (four_taken.taken + four_taken.token ≤ 10)
Reach-taken_example = Reach-taken four_taken-Reach

-- With the busy wait, a fetch that has waited stores what it has computed while the filling thread has the
-- mutex: 10 tokens are taken, and there are still all of the 20 that were added.
abbrev overdrawn : Shared
overdrawn = record {
  token = 20;
  locked = true;
  threads = add_cap filler 10 ∷ fetch_leave ∷ [];
  taken = 10;
  poured = 20;
}

overdrawn_runs : Reach by_yield 10 100 1 overdrawn
unfolding thread_step min wait_step
overdrawn_runs = runs 0 (
    runs 1 (
      runs 0 (
        runs 0 (
          runs 1 (
            runs 1 (
              runs 1 (
                runs 0 (
                  runs 0 (
                    runs 0 (
                      runs 0 (
                        runs 0 (
                          runs 1 (
                            runs 1
                              (runs 1 (runs 1 (calls 1 (call_fetch 50) begin refl))))))))))))))))

-- A program that has not made a bucket yet.
abbrev stopped : Clock
stopped = record {
  tbf = record { job = none ∷ none ∷ []; inited = false; loads = 0 };
  armed = false;
  installed = false;
}

abbrev two_seconds : List Event
two_seconds = tick ∷ make true 10 15 ∷ tick ∷ make true 1 1 ∷ tick ∷ []

rearm_runs :
    entry (run_rearm two_seconds stopped).tbf.job 0
    ≡ some (record { cps = 10; burst = 15; token = 15; pos = 0 })
unfolding Rearm.second Rearm.sigalrm Rearm.alrm_handler Rearm.mytbf_init Rearm.load_once
    Rearm.module_load Signal.fill Signal.fill_all Signal.open_at Signal.get_free_pos first_none
rearm_runs = refl

run_rearm-run_timer_example :
    ((run_rearm two_seconds stopped).tbf ≡ run_timer two_seconds stopped.tbf)
    × IsGoing (run_rearm two_seconds stopped)
run_rearm-run_timer_example =
    run_rearm-run_timer two_seconds stopped (record { armed = refl; installed = refl })
