-- ===== src/Timer/Alarm.antt =====
-- `alrm_action` of 30.信号专题/anytimer/anytimer.c as a map over the table: an alarm moves each job
-- by itself, and the calls come in the order of the table.
use apue_li_huiqin.Base.{
  ℕ, zero, suc, ◌≡◌, refl, ap, ◌∙◌, true, false, Option, some, List, [], ◌∷◌, ◌++◌, arith, map,
}
use apue_li_huiqin.Timer.Periods.{History, step, after}
use apue_li_huiqin.Timer.{entry, Job, Call, Timer, tick_slot, tick_slots, alrm_action, alarms, slot}

-- What an alarm makes of one entry, and the calls that it makes for it.
abbrev pub ticked : Option Job → Option Job
ticked s = (tick_slot s).0

abbrev pub called : Option Job → List Call
called s = (tick_slot s).1

-- The calls of a whole table, entry by entry.
abbrev pub all_called : List (Option Job) → List Call
all_called [] = []
all_called (s ∷ ss) = called s ++ all_called ss

tick_slots_lem : (ss : List (Option Job)) → tick_slots ss ≡ (map ticked ss, all_called ss)
unfolding tick_slots
tick_slots_lem [] = refl
tick_slots_lem (s ∷ ss) = rw (tick_slots_lem ss) refl

-- A SIGALRM of the kernel moves every entry of the table by itself, and makes the calls of the
-- entries in the order of the table; one that a process sent changes nothing.
alrm_action-map :
    (t : Timer)
    → (alrm_action true t
        ≡ record t { job = map ticked t.job; calls = t.calls ++ all_called t.job })
      × (alrm_action false t ≡ t)
unfolding alrm_action
alrm_action-map t = (rw (tick_slots_lem t.job) refl, refl)

ticked-step : (h : History) → ticked (some h.0) ≡ some (step h).0
unfolding step tick_slot
ticked-step h = ground arith

entry-map : (ss : List (Option Job)) (id : ℕ) → entry (map ticked ss) id ≡ ticked (entry ss id)
unfolding tick_slot
entry-map [] id = refl
entry-map (s ∷ ss) zero = refl
entry-map (s ∷ ss) (suc id) = entry-map ss id

-- The entry `id` after an alarm is that entry moved by one tick.
pub slot-alrm_action : (t : Timer) (id : ℕ) → slot (alrm_action true t) id ≡ ticked (slot t id)
slot-alrm_action t id = rw ((alrm_action-map t).0) (entry-map t.job id)

pub alarms-first : (n : ℕ) (t : Timer) → alarms n (alrm_action true t) ≡ alarms (suc n) t
unfolding alarms
alarms-first zero t = refl
alarms-first (suc n) t = ap (alrm_action true) (alarms-first n t)

-- The job at `id` after `n` alarms is the job alone after them.
pub slot-alarms :
    (n : ℕ) (t : Timer) (id : ℕ) {j : Job}
    → slot t id ≡ some j
    → slot (alarms n t) id ≡ some (after n j).0
unfolding alarms after
slot-alarms zero t id h = h
slot-alarms (suc n) t id {j} h =
    slot-alrm_action (alarms n t) id ∙ rw (slot-alarms n t id h) (ticked-step (after n j))
