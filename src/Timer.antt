-- ===== src/Timer.antt =====
-- 30.信号专题/anytimer/anytimer.c: many timers over one SIGALRM a second. The static table `job`, the
-- flag `inited`, and the functions over them. An `int` is its 32-bit pattern, so that `time_remain--`
-- wraps as the machine does; `job[i] == NULL` is `none`. What `malloc` answers is an argument. The
-- callbacks are recorded in `calls`, in the order in which they run, and are taken not to call back
-- into this module. `loads` counts the calls of `module_load`.
pub mod Periods
pub mod Alarm
pub mod Slots
pub mod Wait
mod Tests
use mathlib.Core.Option
use apue_li_huiqin.Base.{
  ℕ, zero, suc, ◌+◌, ◌-◌, ◌%◌, ◌^◌, Bool, true, false, not, ◌&&◌, ◌||◌, Option, none, some, List,
  [], ◌∷◌, ◌++◌, leb, ◌==◌, if◌then◌else◌, set, get_elem?, replicate, first_none,
}

pub data JobState : Type 0 where
  running canceled over : JobState

-- `struct at_job_st`
pub record Job : Type 0 where
  pub job_state : JobState
  pub sec : ℕ
  pub time_remain : ℕ
  pub repeat : ℕ
  pub jobp : ℕ
  pub arg : ℕ

abbrev pub Call : Type 0
Call = ℕ × ℕ

pub record Timer : Type 0 where
  pub job : List (Option Job)
  pub inited : Bool
  pub loads : ℕ
  pub calls : List Call

-- The results: a number from 0 on, or a negated `errno`.
pub data Code : Type 0 where
  ret : ℕ → Code
  einval enospc enomem ebusy ecanceled : Code

abbrev pub job_max : ℕ
job_max = 1024

-- The sign of an `int`, and its decrement.
abbrev pub is_negative : ℕ → Bool
is_negative w = leb (2 ^ 31) w

abbrev pub dec32 : ℕ → ℕ
dec32 w = (w + 2 ^ 32 - 1) % 2 ^ 32

abbrev pub is_running : JobState → Bool
is_running running = true
is_running _ = false

-- The body of the loop of `alrm_action` at a running job.
pub tick_job : Job → Job × List Call
tick_job j =
    let t = dec32 j.time_remain in
    if t == 0
    then (
      if j.repeat == 1
          then record j { time_remain = j.sec }
          else record j { time_remain = t; job_state = over },
      (j.jobp, j.arg) ∷ [],
    )
    else (record j { time_remain = t }, [])

pub tick_slot : Option Job → Option Job × List Call
unfolding tick_job
tick_slot none = (none, [])
tick_slot (some j) =
    if is_running j.job_state then (some (tick_job j).0, (tick_job j).1) else (some j, [])

pub tick_slots : List (Option Job) → List (Option Job) × List Call
unfolding tick_slot
tick_slots [] = ([], [])
tick_slots (s ∷ ss) =
    let rest = tick_slots ss in ((tick_slot s).0 ∷ rest.0, (tick_slot s).1 ++ rest.1)

-- `alrm_action`; the argument is `infop->si_code == SI_KERNEL`.
pub alrm_action : Bool → Timer → Timer
alrm_action kernel t =
    let out = tick_slots t.job in
    if kernel then record t { job = out.0; calls = t.calls ++ out.1 } else t

-- The search of `get_free_pos`; `none` is -1.
pub get_free_pos : List (Option Job) → Option ℕ
get_free_pos job = first_none job 0

-- The part of both functions after the test of `sec`.
load_once : Timer → Timer
load_once t = if t.inited then t else record t { inited = true; loads = t.loads + 1 }

place : Bool → Job → Timer → Timer × Code
place memory me t = elim (get_free_pos t.job) [
  | none ↦ (t, enospc)
  | some pos ↦ if memory then (record t { job = set t.job pos (some me) }, ret pos) else (t, enomem)
]

pub at_addjob : Bool → ℕ → ℕ → ℕ → Timer → Timer × Code
unfolding load_once place
at_addjob memory sec jobp arg t =
    if is_negative sec
    then (t, einval)
    else place memory
        (record {
          job_state = running;
          sec = sec;
          time_remain = sec;
          repeat = 0;
          jobp = jobp;
          arg = arg;
        })
        (load_once t)

pub at_addjob_repeat : Bool → ℕ → ℕ → ℕ → Timer → Timer × Code
unfolding load_once place
at_addjob_repeat memory sec jobp arg t =
    if is_negative sec
    then (t, einval)
    else place memory
        (record {
          job_state = running;
          sec = sec;
          time_remain = sec;
          repeat = 1;
          jobp = jobp;
          arg = arg;
        })
        (load_once t)

-- `job[id]`, and NULL outside the table.
abbrev pub entry : List (Option Job) → ℕ → Option Job
entry ss id = elim (get_elem? ss id) [ none ↦ none | some o ↦ o ]

abbrev pub slot : Timer → ℕ → Option Job
slot t id = entry t.job id

abbrev pub out_of_range : ℕ → Bool
out_of_range id = is_negative id || leb job_max id

-- The last statement before `return 0` is the comparison `job[id]->job_state == STATE_CANCELED;`,
-- which stores nothing.
cancel : Job → Code
cancel j = elim (j.job_state) [ canceled ↦ ecanceled | over ↦ ebusy | running ↦ ret 0 ]

pub at_canceljob : ℕ → Timer → Timer × Code
unfolding cancel
at_canceljob id t =
    if out_of_range id
    then (t, einval)
    else elim (slot t id) [ none ↦ (t, einval) | some j ↦ (t, cancel j) ]

-- `free(job[id]); job[id] = NULL;`
abbrev pub release : ℕ → Timer → Timer
release id t = record t { job = set t.job id none }

abbrev pub is_waiting : Option Job → Bool
is_waiting none = false
is_waiting (some j) = is_running j.job_state

-- Many alarms, one after the other.
pub alarms : ℕ → Timer → Timer
alarms zero t = t
alarms (suc n) t = alrm_action true (alarms n t)

-- `while (job[id]->job_state == STATE_RUNNING) pause();` Each turn is given the number of alarms that come
-- between its test and its `pause`, which they do not end; one more alarm ends the `pause`. `none` means
-- that the loop has not ended with these turns.
pub wait_loop : List ℕ → ℕ → Timer → Option Timer
unfolding alarms
wait_loop [] id t = if is_waiting (slot t id) then none else some t
wait_loop (early ∷ turns) id t =
    let rest = wait_loop turns id (alarms (suc early) t) in
    if is_waiting (slot t id) then rest else some t

-- `at_waitjob`. After the loop the state is not RUNNING, so the last test always passes. No alarm is taken
-- to come behind the last test of the loop.
pub at_waitjob : List ℕ → ℕ → Timer → Option (Timer × Code)
at_waitjob turns id t = if out_of_range id then some (t, einval) else elim (slot t id) [
  | none ↦ some (t, einval)
  | some j ↦
      if j.repeat == 1
      then some (t, ebusy)
      else Option.map (λ (u : Timer). (release id u, ret 0)) (wait_loop turns id t)
]

-- The static variables at the start of the program.
abbrev pub initial : Timer
initial = record { job = replicate job_max none; inited = false; loads = 0; calls = [] }
