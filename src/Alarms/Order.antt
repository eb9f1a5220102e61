-- ===== src/Alarms/Order.antt =====
-- The order of the calls in `module_unload` of 30.信号专题/anytimer/anytimer.c.
use mathlib.Core.Path.{subst}
use apue_li_huiqin.Base.{
  ℕ, ◌≡◌, refl, ◌⊎◌, inl, inr, Bool, true, false, List, [], ◌∷◌, sym, ◌∙◌, ◌<◌, length, arith,
}
use apue_li_huiqin.Alarms.{
  Handler, earlier, alrm_action, Action, set_handler, start_timer, work, stop_timer, put_back,
  Process, perform, call_fails, turn, deliver, alarm, Event, second, calls, run, module_load,
  module_unload, begin,
}

-- With this action and timer, the calls leave the earlier action and no timer, and the timer runs only
-- with the handler of the module.
abbrev Safe : Handler → Bool → List Action → Type 0
Safe handler timer [] = (handler ≡ earlier) × (timer ≡ false)
Safe handler timer (set_handler ∷ rest) = Safe alrm_action timer rest
Safe handler timer (start_timer ∷ rest) = (handler ≡ alrm_action) × Safe handler true rest
Safe handler timer (work ∷ rest) = Safe handler timer rest
Safe handler timer (stop_timer ∷ rest) = Safe handler false rest
Safe handler timer (put_back ∷ rest) = (timer ≡ false) × Safe earlier timer rest

abbrev process : Handler → Bool → List Action → Bool → ℕ → Process
process handler timer todo exited ticks = record {
  handler = handler;
  timer = timer;
  todo = todo;
  exited = exited;
  ticks = ticks;
  strays = 0;
}

-- A process that no alarm can harm.
record IsGuarded (s : Process) : Type 0 where
  guarded : (s.timer ≡ true) → s.handler ≡ alrm_action
  next : (s.exited ≡ true) × (s.todo ≡ []) ⊎ Safe s.handler s.timer s.todo
  unharmed : s.strays ≡ 0

perform-IsGuarded :
    (a : Action) (handler : Handler) (timer : Bool) (rest todo : List Action) (exited : Bool)
    (ticks : ℕ)
    → ((timer ≡ true) → handler ≡ alrm_action)
    → Safe handler timer (a ∷ rest)
    → IsGuarded (perform a rest (process handler timer todo exited ticks))
unfolding perform
perform-IsGuarded set_handler handler timer rest todo exited ticks g safe = record {
  guarded = λ _. refl;
  next = inr safe;
  unharmed = refl;
}
perform-IsGuarded start_timer handler timer rest todo exited ticks g safe = record {
  guarded = λ _. safe.0;
  next = inr safe.1;
  unharmed = refl;
}
perform-IsGuarded work handler timer rest todo exited ticks g safe = record {
  guarded = g;
  next = inr safe;
  unharmed = refl;
}
perform-IsGuarded stop_timer handler timer rest todo exited ticks g safe = record {
  guarded = λ e. absurd cc;
  next = inr safe;
  unharmed = refl;
}
perform-IsGuarded put_back handler timer rest todo exited ticks g safe = record {
  guarded = λ e. absurd (let both : false ≡ true = sym safe.0 ∙ e in cc);
  next = inr safe.1;
  unharmed = refl;
}

gave_up :
    (handler : Handler) (timer : Bool) (rest todo : List Action) (exited : Bool) (ticks : ℕ)
    → IsGuarded (call_fails true rest (process handler timer todo exited ticks))
unfolding call_fails
gave_up handler timer rest todo exited ticks = record {
  guarded = λ e. absurd cc;
  next = inl (refl, refl);
  unharmed = refl;
}

turn-IsGuarded :
    (ok : Bool) (handler : Handler) (timer : Bool) (todo : List Action) (exited : Bool) (ticks : ℕ)
    → ((timer ≡ true) → handler ≡ alrm_action)
    → (exited ≡ true) × (todo ≡ []) ⊎ Safe handler timer todo
    → IsGuarded (turn true ok todo (process handler timer todo exited ticks))
unfolding turn
turn-IsGuarded ok handler timer [] exited ticks g next = record {
  guarded = g;
  next = next;
  unharmed = refl;
}
turn-IsGuarded ok handler timer (a ∷ rest) exited ticks g (inl gone) = absurd cc
turn-IsGuarded true handler timer (a ∷ rest) exited ticks g (inr safe) =
    perform-IsGuarded a handler timer rest (a ∷ rest) exited ticks g safe
turn-IsGuarded false handler timer (work ∷ rest) exited ticks g (inr safe) =
    perform-IsGuarded work handler timer rest (work ∷ rest) exited ticks g safe
turn-IsGuarded false handler timer (set_handler ∷ rest) exited ticks g (inr safe) =
    gave_up handler timer rest (set_handler ∷ rest) exited ticks
turn-IsGuarded false handler timer (start_timer ∷ rest) exited ticks g (inr safe) =
    gave_up handler timer rest (start_timer ∷ rest) exited ticks
turn-IsGuarded false handler timer (stop_timer ∷ rest) exited ticks g (inr safe) =
    gave_up handler timer rest (stop_timer ∷ rest) exited ticks
turn-IsGuarded false handler timer (put_back ∷ rest) exited ticks g (inr safe) =
    gave_up handler timer rest (put_back ∷ rest) exited ticks

alarm-IsGuarded :
    (handler : Handler) (timer : Bool) (todo : List Action) (exited : Bool) (ticks : ℕ)
    → ((timer ≡ true) → handler ≡ alrm_action)
    → (exited ≡ true) × (todo ≡ []) ⊎ Safe handler timer todo
    → IsGuarded (alarm timer (process handler timer todo exited ticks))
unfolding alarm deliver
alarm-IsGuarded alrm_action true todo exited ticks g next = record {
  guarded = λ _. refl;
  next = next;
  unharmed = refl;
}
alarm-IsGuarded earlier true todo exited ticks g next = absurd (let wrong = g refl in cc)
alarm-IsGuarded handler false todo exited ticks g next = record {
  guarded = g;
  next = next;
  unharmed = refl;
}

-- A process without strays is its own fields with 0.
unharmed-process :
    (s : Process) → s.strays ≡ 0 → s ≡ process s.handler s.timer s.todo s.exited s.ticks
unharmed-process s e = λ i. record s { strays = e i }

run-IsGuarded : (es : List Event) (s : Process) → IsGuarded s → IsGuarded (run true es s)
unfolding run
run-IsGuarded [] s v = v
run-IsGuarded (second ∷ es) s v = run-IsGuarded es (alarm s.timer s) (
    subst (λ t. IsGuarded (alarm s.timer t)) (sym (unharmed-process s v.unharmed))
      (alarm-IsGuarded s.handler s.timer s.todo s.exited s.ticks v.guarded v.next))
run-IsGuarded (calls ok ∷ es) s v = run-IsGuarded es (turn true ok s.todo s) (
    subst (λ t. IsGuarded (turn true ok s.todo t)) (sym (unharmed-process s v.unharmed))
      (turn-IsGuarded ok s.handler s.timer s.todo s.exited s.ticks v.guarded v.next))

at_end :
    (handler : Handler) (timer exited : Bool) (todo : List Action)
    → (exited ≡ true) × (todo ≡ []) ⊎ Safe handler timer todo
    → (exited ≡ true) ⊎ ((0 < length todo) ⊎ ((handler ≡ earlier) × (timer ≡ false)))
at_end handler timer exited todo (inl gone) = inl gone.0
at_end handler timer exited [] (inr safe) = inr (inr safe)
at_end handler timer exited (a ∷ rest) (inr safe) = inr (inl (omega arith))

begin-IsGuarded : IsGuarded (begin module_load module_unload)
unfolding begin module_load module_unload
begin-IsGuarded = record {
  guarded = λ e. absurd cc;
  next = inr (refl, (refl, (refl, refl)));
  unharmed = refl;
}

-- Whenever alarms come and whatever calls fail, no alarm of anytimer.c meets the action that the program
-- had before for SIGALRM; and it has exited at a call that fails, or has calls left, or that action is in
-- force again and no timer runs.
pub run-module :
    (es : List Event)
    → ((run true es (begin module_load module_unload)).strays ≡ 0)
      × (((run true es (begin module_load module_unload)).exited ≡ true)
          ⊎ ((0 < length (run true es (begin module_load module_unload)).todo)
              ⊎ (((run true es (begin module_load module_unload)).handler ≡ earlier)
                  × ((run true es (begin module_load module_unload)).timer ≡ false))))
run-module es =
    let s : Process = run true es (begin module_load module_unload) in
    let v = run-IsGuarded es (begin module_load module_unload) begin-IsGuarded in
    (v.unharmed, at_end s.handler s.timer s.exited s.todo v.next)
