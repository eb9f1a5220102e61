-- ===== src/Bucket/Rearm/Seconds.antt =====
-- The alarms of 30.信号专题/mytfb_2/mytbf.c, which the handler asks for one after the other, against the timer
-- of 30.信号专题/mytab/mytbf.c, which repeats.
use apue_li_huiqin.Base.{
  ℕ, ◌≡◌, refl, sym, ap, ◌∙◌, Bool, true, false, Option, none, some, List, [], ◌∷◌, if◌then◌else◌,
}
use apue_li_huiqin.Bucket.{Jobs}
use apue_li_huiqin.Bucket.Signal.{Tbf, open_at, get_free_pos, alrm_action}
use apue_li_huiqin.Bucket.Signal
use apue_li_huiqin.Bucket.Rearm.{
  Clock, alrm_handler, sigalrm, second, module_load, load_once, mytbf_init,
}

-- The handler is installed and an alarm is to come, once `mytbf_init` has been called.
pub record IsGoing (c : Clock) : Type 0 where
  pub armed : c.armed ≡ c.tbf.inited
  pub installed : c.installed ≡ c.tbf.inited

-- A second goes by, or a bucket is made, with what `malloc` answers, a rate and a burst.
pub data Event : Type 0 where
  tick : Event
  make : Bool → (cps burst : ℕ) → Event

-- What happens with `alarm(1)`.
abbrev pub run_rearm : List Event → Clock → Clock
run_rearm [] c = c
run_rearm (tick ∷ es) c = run_rearm es (second c)
run_rearm (make memory cps burst ∷ es) c = run_rearm es (mytbf_init memory cps burst c).0

-- What happens with the timer, which `mytbf_init` starts.
abbrev pub run_timer : List Event → Tbf → Tbf
run_timer [] t = t
run_timer (tick ∷ es) t = run_timer es (if t.inited then alrm_action true t else t)
run_timer (make memory cps burst ∷ es) t = run_timer es (Signal.mytbf_init memory cps burst t).0

open_at-inited :
    (memory : Bool) (cps burst : ℕ) (t : Tbf) (o : Option ℕ)
    → (open_at memory cps burst t o).0.inited ≡ t.inited
unfolding open_at
open_at-inited memory cps burst t none = refl
open_at-inited true cps burst t (some pos) = refl
open_at-inited false cps burst t (some pos) = refl

record Agrees (c : Clock) (t : Tbf) : Type 0 where
  pub going : IsGoing c
  pub same : c.tbf ≡ t

abbrev clock : Jobs → ℕ → (inited armed installed : Bool) → Clock
clock job loads inited armed installed = record {
  tbf = record { job = job; inited = inited; loads = loads };
  armed = armed;
  installed = installed;
}

second-Agrees :
    (job : Jobs) (loads : ℕ) (i a h : Bool)
    → a ≡ i
    → h ≡ i
    → let c = clock job loads i a h in
      Agrees (second c) (if i then alrm_action true c.tbf else c.tbf)
unfolding second sigalrm alrm_handler alrm_action
second-Agrees job loads true true true e f = record {
  going = record { armed = refl; installed = refl };
  same = refl;
}
second-Agrees job loads true false h e f = absurd (cc)
second-Agrees job loads true true false e f = absurd (cc)
second-Agrees job loads false false h e f = record {
  going = record { armed = refl; installed = f };
  same = refl;
}
second-Agrees job loads false true h e f = absurd (cc)

load_once-Agrees :
    (job : Jobs) (loads : ℕ) (i a h : Bool)
    → a ≡ i
    → h ≡ i
    → let c = clock job loads i a h in Agrees (load_once c) (Signal.load_once c.tbf)
unfolding load_once module_load Signal.load_once
load_once-Agrees job loads true a h e f = record {
  going = record { armed = e; installed = f };
  same = refl;
}
load_once-Agrees job loads false a h e f = record {
  going = record { armed = refl; installed = refl };
  same = refl;
}

mytbf_init-Agrees :
    (memory : Bool) (cps burst : ℕ) (c : Clock)
    → IsGoing c
    → Agrees (mytbf_init memory cps burst c).0 (Signal.mytbf_init memory cps burst c.tbf).0
unfolding mytbf_init Signal.mytbf_init
mytbf_init-Agrees memory cps burst c h =
    let l =
      load_once-Agrees c.tbf.job c.tbf.loads c.tbf.inited c.armed c.installed h.armed h.installed in
    let t : Tbf = (load_once c).tbf in
    let stays = sym (open_at-inited memory cps burst t (get_free_pos t.job)) in
    record {
      going = record { armed = l.going.armed ∙ stays; installed = l.going.installed ∙ stays };
      same = ap (λ u. (open_at memory cps burst u (get_free_pos u.job)).0) l.same;
    }

-- However many buckets are made and seconds go by, from a state in which the handler is installed and an
-- alarm is to come just when `mytbf_init` has been called: the alarms that the handler asks for itself
-- leave the same table, filled as often, as a timer that repeats, and an alarm stays to come.
pub run_rearm-run_timer :
    (es : List Event) (c : Clock)
    → IsGoing c
    → ((run_rearm es c).tbf ≡ run_timer es c.tbf) × IsGoing (run_rearm es c)
run_rearm-run_timer [] c h = (refl, h)
run_rearm-run_timer (tick ∷ es) c h =
    let s =
      second-Agrees c.tbf.job c.tbf.loads c.tbf.inited c.armed c.installed h.armed h.installed in
    let r = run_rearm-run_timer es (second c) s.going in (r.0 ∙ ap (run_timer es) s.same, r.1)
run_rearm-run_timer (make memory cps burst ∷ es) c h =
    let s = mytbf_init-Agrees memory cps burst c h in
    let r = run_rearm-run_timer es (mytbf_init memory cps burst c).0 s.going in
    (r.0 ∙ ap (run_timer es) s.same, r.1)
