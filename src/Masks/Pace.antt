-- ===== src/Masks/Pace.antt =====
-- suspend.c of 30.信号专题 waits for a signal behind each row.
use apue_li_huiqin.Base.{
  ℕ, zero, suc, ◌+◌, ◌≡◌, ◌≤◌, refl, ap, Bool, true, false, List, [], ◌∷◌, ◌++◌, arith, count_by,
  count_by-append, one_if,
}
use apue_li_huiqin.Masks.{
  Mark, star, newline, bang, Action, print, block, unblock, restore, pause, sigsuspend, Wait, awake,
  paused, suspended, Process, behind, sig_handler, arrive, let_through, sigsuspend_call, call, turn,
  run, row, suspend_rows, real_signal_rows, suspend_main, real_signal_main, begin,
}

abbrev pub is_newline : Mark → Bool
is_newline star = false
is_newline newline = true
is_newline bang = false

abbrev pub is_bang : Mark → Bool
is_bang star = false
is_bang newline = false
is_bang bang = true

abbrev pub rows : List Mark → ℕ
rows out = count_by is_newline out

abbrev pub handled : List Mark → ℕ
handled out = count_by is_bang out

-- The calls wait for a signal between a row and the next; `ready` is whether the next row may be printed.
abbrev Paced : Bool → List Action → Type 0
Paced ready [] = Unit {0}
Paced ready (print newline ∷ rest) = (ready ≡ true) × Paced false rest
Paced ready (print star ∷ rest) = Paced ready rest
Paced ready (print bang ∷ rest) = ⊥
Paced ready (block ∷ rest) = Paced ready rest
Paced ready (unblock ∷ rest) = Paced ready rest
Paced ready (restore blocks ∷ rest) = Paced ready rest
Paced ready (pause ∷ rest) = Paced true rest
Paced ready (sigsuspend ∷ rest) = Paced true rest

abbrev Next : Wait → Bool → List Action → Type 0
Next awake ready todo = Paced ready todo
Next paused ready todo = Paced true (behind todo)
Next (suspended blocks) ready todo = Paced true (behind todo)

-- A row is ahead of the signals where none may be printed.
record InPace (s : Process) : Type 0 where
  ready : Bool
  ahead : rows s.out + one_if ready ≤ handled s.out + 1
  next : Next s.wait ready s.todo

abbrev process : Bool → Bool → Wait → List Action → List Mark → Process
process b p w todo out = record { blocked = b; pending = p; wait = w; todo = todo; out = out }

Paced-ready : (ready : Bool) (todo : List Action) → Paced ready todo → Paced true todo
Paced-ready ready [] h = h
Paced-ready ready (print star ∷ rest) h = Paced-ready ready rest h
Paced-ready ready (print newline ∷ rest) h = (refl, h.1)
Paced-ready ready (print bang ∷ rest) h = h
Paced-ready ready (block ∷ rest) h = Paced-ready ready rest h
Paced-ready ready (unblock ∷ rest) h = Paced-ready ready rest h
Paced-ready ready (restore blocks ∷ rest) h = Paced-ready ready rest h
Paced-ready ready (pause ∷ rest) h = h
Paced-ready ready (sigsuspend ∷ rest) h = h

-- A signal that is handled makes the process ready.
delivered :
    (b p : Bool) (todo : List Action) (out : List Mark) (ready : Bool)
    → rows out + one_if ready ≤ handled out + 1
    → Paced true todo
    → InPace (sig_handler (process b p awake todo out))
unfolding sig_handler
delivered b p todo out ready h next = record {
  ready = true;
  ahead =
      omega (
        arith,
        count_by-append is_newline out (bang ∷ []),
        count_by-append is_bang out (bang ∷ []),
      );
  next = next;
}

let_through-InPace :
    (b p ready : Bool) (todo rest : List Action) (out : List Mark)
    → rows out + one_if ready ≤ handled out + 1
    → Paced ready rest
    → InPace (let_through p rest (process b p awake todo out))
unfolding let_through
let_through-InPace b true ready todo rest out h next =
    delivered false false rest out ready h (Paced-ready ready rest next)
let_through-InPace b false ready todo rest out h next = record {
  ready = ready;
  ahead = h;
  next = next;
}

call-InPace :
    (a : Action) (b p ready : Bool) (rest : List Action) (out : List Mark)
    → rows out + one_if ready ≤ handled out + 1
    → Paced ready (a ∷ rest)
    → InPace (call a rest (process b p awake (a ∷ rest) out))
unfolding call sigsuspend_call
call-InPace (print star) b p ready rest out h next = record {
  ready = ready;
  ahead =
      omega (
        arith,
        count_by-append is_newline out (star ∷ []),
        count_by-append is_bang out (star ∷ []),
      );
  next = next;
}
call-InPace (print newline) b p ready rest out h next = record {
  ready = false;
  ahead = omega (
    arith,
    ap one_if next.0,
    count_by-append is_newline out (newline ∷ []),
    count_by-append is_bang out (newline ∷ []),
  );
  next = next.1;
}
call-InPace (print bang) b p ready rest out h next = absurd next
call-InPace block b p ready rest out h next = record { ready = ready; ahead = h; next = next }
call-InPace unblock b p ready rest out h next =
    let_through-InPace b p ready (unblock ∷ rest) rest out h next
call-InPace (restore true) b p ready rest out h next = record {
  ready = ready;
  ahead = h;
  next = next;
}
call-InPace (restore false) b p ready rest out h next =
    let_through-InPace b p ready (restore false ∷ rest) rest out h next
call-InPace pause b p ready rest out h next = record { ready = ready; ahead = h; next = next }
call-InPace sigsuspend b true ready rest out h next = delivered b false rest out ready h next
call-InPace sigsuspend b false ready rest out h next = record {
  ready = ready;
  ahead = h;
  next = next;
}

turn-InPace :
    (b p ready : Bool) (w : Wait) (todo : List Action) (out : List Mark)
    → rows out + one_if ready ≤ handled out + 1
    → Next w ready todo
    → InPace (turn w todo (process b p w todo out))
unfolding turn
turn-InPace b p ready awake (a ∷ rest) out h next = call-InPace a b p ready rest out h next
turn-InPace b p ready awake [] out h next = record { ready = ready; ahead = h; next = next }
turn-InPace b p ready paused todo out h next = record { ready = ready; ahead = h; next = next }
turn-InPace b p ready (suspended blocks) todo out h next = record {
  ready = ready;
  ahead = h;
  next = next;
}

arrive-InPace :
    (b p ready : Bool) (w : Wait) (todo : List Action) (out : List Mark)
    → rows out + one_if ready ≤ handled out + 1
    → Next w ready todo
    → InPace (arrive w b (process b p w todo out))
unfolding arrive
arrive-InPace true p ready awake todo out h next = record { ready = ready; ahead = h; next = next }
arrive-InPace false p ready awake todo out h next =
    delivered false p todo out ready h (Paced-ready ready todo next)
arrive-InPace true p ready paused todo out h next = record { ready = ready; ahead = h; next = next }
arrive-InPace false p ready paused todo out h next =
    delivered false p (behind todo) out ready h next
arrive-InPace b p ready (suspended blocks) todo out h next =
    delivered blocks p (behind todo) out ready h next

run-InPace : (es : List Bool) (s : Process) → InPace s → InPace (run es s)
unfolding run
run-InPace [] s v = v
run-InPace (true ∷ es) s v =
    run-InPace es (arrive s.wait s.blocked s)
      (arrive-InPace s.blocked s.pending v.ready s.wait s.todo s.out v.ahead v.next)
run-InPace (false ∷ es) s v =
    run-InPace es (turn s.wait s.todo s)
      (turn-InPace s.blocked s.pending v.ready s.wait s.todo s.out v.ahead v.next)

row-Paced : (rest : List Action) → Paced false rest → Paced true (row ++ rest)
row-Paced rest h = (refl, h)

suspend_rows-Paced :
    (n : ℕ) (rest : List Action) → Paced true rest → Paced true (suspend_rows n rest)
unfolding suspend_rows
suspend_rows-Paced zero rest h = h
suspend_rows-Paced (suc n) rest h =
    row-Paced (sigsuspend ∷ suspend_rows n rest) (suspend_rows-Paced n rest h)

real_signal_rows-Paced :
    (n : ℕ) (rest : List Action) → Paced true rest → Paced true (real_signal_rows n rest)
unfolding real_signal_rows
real_signal_rows-Paced zero rest h = h
real_signal_rows-Paced (suc n) rest h =
    row-Paced (unblock ∷ pause ∷ real_signal_rows n rest) (real_signal_rows-Paced n rest h)

from_begin :
    (es : List Bool) (b : Bool) (todo : List Action)
    → Paced true todo
    → rows (run es (begin b todo)).out ≤ handled (run es (begin b todo)).out + 1
unfolding begin
from_begin es b todo h =
    let v = run-InPace es (begin b todo) (record { ready = true; ahead = omega arith; next = h }) in
    omega (arith, v.ahead)

real_signal-Paced : (n : ℕ) (unblocks saved : Bool) → Paced true (real_signal_main n unblocks saved)
unfolding real_signal_main
real_signal-Paced n true saved = real_signal_rows-Paced n (restore saved ∷ []) tt
real_signal-Paced n false saved = real_signal_rows-Paced n (restore saved ∷ []) tt

-- Whenever signals come, suspend.c and real_signal.c wait behind each row until one has been handled:
-- they have never printed more rows than one more than the handler has run.
pub run-rows :
    (es : List Bool) (n : ℕ) (blocks unblocks saved : Bool)
    → (rows (run es (begin blocks (suspend_main n blocks))).out
        ≤ handled (run es (begin blocks (suspend_main n blocks))).out + 1)
      × (rows (run es (begin blocks (real_signal_main n unblocks saved))).out
          ≤ handled (run es (begin blocks (real_signal_main n unblocks saved))).out + 1)
unfolding suspend_main
run-rows es n blocks unblocks saved = (
  from_begin es blocks (suspend_main n blocks) (suspend_rows-Paced n (restore blocks ∷ []) tt),
  from_begin es blocks (real_signal_main n unblocks saved) (real_signal-Paced n unblocks saved),
)
