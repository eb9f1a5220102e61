-- ===== src/Timer/Slots.antt =====
-- `at_addjob` and `at_addjob_repeat` of 30.信号专题/anytimer/anytimer.c: where a job is put.
use apue_li_huiqin.Base.{
  IsTaken, first_none-ne_none, first_none-vacant, first_none-full, ltb, leb, ap, ◌∙◌, ◌-◌,
  if◌then◌else◌, ℕ, ◌^◌, ◌<◌, ◌≡◌, Bool, true, false, Option, none, some, List, arith, length, set,
  get_elem?, All, Option-cases, inl, inr, get_elem?-set_self, lt-length_of_get_elem?,
}
use apue_li_huiqin.Timer.{
  alarms, Job, Timer, Code, over, ret, enospc, einval, get_free_pos, load_once, place, at_addjob,
  slot, entry, at_addjob_repeat,
}
use apue_li_huiqin.Timer.Periods.{History, one_shot, periodic, after-one_shot}
use apue_li_huiqin.Timer.Alarm.{slot-alarms}

-- The job `me` was put into an empty entry, whose number is the result; every other entry is as
-- before, nothing is called, and the alarm is on.
pub record Placed (t : Timer) (me : Job) (out : Timer × Code) : Type 0 where
  pub pos : ℕ
  pub code : out.1 ≡ ret pos
  pub was : get_elem? t.job pos ≡ some none
  pub now : slot out.0 pos ≡ some me
  pub table : out.0.job ≡ set t.job pos (some me)
  pub quiet : out.0.calls ≡ t.calls
  pub on : out.0.inited ≡ true

entry-set :
    (ss : List (Option Job)) (i : ℕ) (me : Job)
    → i < length ss
    → entry (set ss i (some me)) i ≡ some me
entry-set ss i me h = ground (arith, get_elem?-set_self ss i (some me) h)

place-Placed :
    (me : Job) (t : Timer) (i : ℕ)
    → get_elem? t.job i ≡ some none
    → Placed t me (place true me (load_once t))
unfolding place load_once get_free_pos
place-Placed me t i h = elim (Option-cases (get_free_pos t.job)) [
  | inl full ↦ absurd (first_none-ne_none t.job 0 i h full)
  | inr (pos, e) ↦
      let here = first_none-vacant t.job e in
      let room = lt-length_of_get_elem? t.job pos here in
      record {
        pos = pos;
        code = ground (arith, e);
        was = here;
        now = ground (arith, e, entry-set t.job pos me room);
        table = ground (arith, e);
        quiet = ground (arith, e);
        on = ground (arith, e);
      }
]

-- Where the table has an empty entry and memory is left, both functions accept a job of `sec` seconds
-- that is not negative, and put it, running and with its whole time to go, into an entry that was
-- empty.
at_addjob-Placed :
    (sec jobp arg i : ℕ) (t : Timer)
    → sec < 2 ^ 31
    → get_elem? t.job i ≡ some none
    → Placed t (one_shot sec jobp arg) (at_addjob true sec jobp arg t)
      × Placed t (periodic sec jobp arg) (at_addjob_repeat true sec jobp arg t)
unfolding at_addjob at_addjob_repeat
at_addjob-Placed sec jobp arg i t h free =
    let e : leb (2 ^ 31) sec ≡ false = ground arith in
    rw (e, at_addjob, at_addjob_repeat)
      (place-Placed (one_shot sec jobp arg) t i free, place-Placed (periodic sec jobp arg) t i free)

-- A job put by `at_addjob` with `sec > 0` stands, after any `n` alarms, at the number that was
-- returned: before the alarm number `sec` it waits with the rest of its time, from then on it is over.
pub at_addjob-on_time :
    (sec jobp arg i n : ℕ) (t : Timer)
    → 0 < sec
    → sec < 2 ^ 31
    → get_elem? t.job i ≡ some none
    → let (u, code) = at_addjob true sec jobp arg t in
      (pos : ℕ) × (code ≡ ret pos)
      × (slot (alarms n u) pos
          ≡ some (
              if ltb n sec
              then record (one_shot sec jobp arg) { time_remain = sec - n }
              else record (one_shot sec jobp arg) { time_remain = 0; job_state = over }))
at_addjob-on_time sec jobp arg i n t pos small free =
    let p = (at_addjob-Placed sec jobp arg i t small free).0 in
    (
      p.pos,
      p.code,
      slot-alarms n (at_addjob true sec jobp arg t).0 p.pos p.now
          ∙ ap (λ (h : History). some h.0) (after-one_shot sec jobp arg n pos small)
          ∙ ground arith,
    )

-- A table with no empty entry: ENOSPC for a `sec` that is not negative, with or without memory, and
-- EINVAL for a negative one; the table stays as it is.
at_addjob-full :
    (memory : Bool) (sec jobp arg : ℕ) (t : Timer)
    → All IsTaken t.job
    → let (u, code) = at_addjob memory sec jobp arg t in
      (code ≡ (if leb (2 ^ 31) sec then einval else enospc)) × (u.job ≡ t.job)
unfolding at_addjob place load_once get_free_pos
at_addjob-full memory sec jobp arg t h = ground (arith, first_none-full t.job 0 h)
