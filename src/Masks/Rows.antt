-- ===== src/Masks/Rows.antt =====
-- No mark of the handler of 30.信号专题/block.c and the programs like it stands within a row.
use mathlib.Core.Path.{subst}
use apue_li_huiqin.Base.{
  ℕ, zero, suc, ◌+◌, ◌≡◌, refl, ap, ◌∙◌, Bool, true, false, List, [], ◌∷◌, ◌++◌, arith, ◌==◌,
  Option, some, none, eq_of_some,
}
use apue_li_huiqin.Masks.{
  Mark, star, newline, bang, Action, print, block, unblock, restore, pause, sigsuspend, Wait, awake,
  paused, suspended, Process, behind, sig_handler, arrive, let_through, sigsuspend_call, call, turn,
  run, row, block_rows, suspend_rows, real_signal_rows, block_main, block_2_main, suspend_main,
  real_signal_main, begin,
}

-- The stars since the last newline, for an output in which each row has five stars and no other mark
-- within it, from `column` stars on; `none` for another output.
pub stars : ℕ → List Mark → Option ℕ
stars column [] = some column
stars column (star ∷ ms) = stars (column + 1) ms
stars column (newline ∷ ms) = elim (column == 5) [ true ↦ stars 0 ms | false ↦ none ]
stars column (bang ∷ ms) = elim (column == 0) [ true ↦ stars 0 ms | false ↦ none ]

-- With so many stars in the row and this mask, the calls print whole rows, and the mask blocks within one.
abbrev Fits : ℕ → Bool → List Action → Type 0
Fits column blocked [] = Unit {0}
Fits column blocked (print star ∷ rest) = (blocked ≡ true) × Fits (column + 1) blocked rest
Fits column blocked (print newline ∷ rest) = (column ≡ 5) × Fits 0 blocked rest
Fits column blocked (print bang ∷ rest) = ⊥
Fits column blocked (block ∷ rest) = (column ≡ 0) × Fits 0 true rest
Fits column blocked (unblock ∷ rest) = (column ≡ 0) × Fits 0 false rest
Fits column blocked (restore blocks ∷ rest) = (column ≡ 0) × Fits 0 blocks rest
Fits column blocked (pause ∷ rest) = (column ≡ 0) × Fits 0 blocked rest
Fits column blocked (sigsuspend ∷ rest) = (column ≡ 0) × Fits 0 blocked rest

abbrev Waits : Wait → Bool → ℕ → List Action → Type 0
Waits awake blocked column todo = Fits column blocked todo × ((blocked ≡ false) → column ≡ 0)
Waits paused blocked column todo = (column ≡ 0) × Fits 0 blocked (behind todo)
Waits (suspended blocks) blocked column todo = (column ≡ 0) × Fits 0 blocks (behind todo)

stars-append :
    (column : ℕ) (ms : List Mark) (m : Mark) {d : ℕ}
    → stars column ms ≡ some d
    → stars column (ms ++ m ∷ []) ≡ stars d (m ∷ [])
unfolding stars
stars-append column [] m {d} h = ap (λ e. stars e (m ∷ [])) (eq_of_some h)
stars-append column (star ∷ ms) m h = stars-append (column + 1) ms m h
stars-append column (newline ∷ ms) m {d} h = ground (arith, stars-append 0 ms m {d = d})
stars-append column (bang ∷ ms) m {d} h = ground (arith, stars-append 0 ms m {d = d})

-- A process in the middle of a run.
record Whole (s : Process) : Type 0 where
  column : ℕ
  printed : stars 0 s.out ≡ some column
  next : Waits s.wait s.blocked column s.todo

abbrev process : Bool → Bool → Wait → List Action → List Mark → Process
process b p w todo out = record { blocked = b; pending = p; wait = w; todo = todo; out = out }

bang-printed :
    (out : List Mark) (column : ℕ)
    → column ≡ 0
    → stars 0 out ≡ some column
    → stars 0 (out ++ bang ∷ []) ≡ some 0
unfolding stars
bang-printed out column e h = stars-append 0 out bang h ∙ rw e refl

-- The handler runs between two rows.
delivered :
    (b p : Bool) (w : Wait) (todo : List Action) (out : List Mark) (column : ℕ)
    → column ≡ 0
    → stars 0 out ≡ some column
    → Waits w b 0 todo
    → Whole (sig_handler (process b p w todo out))
unfolding sig_handler
delivered b p w todo out column e h next = record {
  column = 0;
  printed = bang-printed out column e h;
  next = next;
}

let_through-Whole :
    (b p : Bool) (todo rest : List Action) (out : List Mark) (column : ℕ)
    → column ≡ 0
    → stars 0 out ≡ some column
    → Fits 0 false rest
    → Whole (let_through p rest (process b p awake todo out))
unfolding let_through
let_through-Whole b true todo rest out column e h fits =
    delivered false false awake rest out column e h (fits, λ _. refl)
let_through-Whole b false todo rest out column e h fits = record {
  column = 0;
  printed = h ∙ ap some e;
  next = (fits, λ _. refl);
}

sigsuspend_call-Whole :
    (b p : Bool) (todo rest : List Action) (out : List Mark) (column : ℕ)
    → column ≡ 0
    → stars 0 out ≡ some column
    → Fits 0 b rest
    → todo ≡ sigsuspend ∷ rest
    → Whole (sigsuspend_call p rest (process b p awake todo out))
unfolding sigsuspend_call
sigsuspend_call-Whole b true todo rest out column e h fits t =
    delivered b false awake rest out column e h (fits, λ _. refl)
sigsuspend_call-Whole b false todo rest out column e h fits t = record {
  column = 0;
  printed = h ∙ ap some e;
  next = (refl, rw t fits);
}

call-Whole :
    (a : Action) (b p : Bool) (rest : List Action) (out : List Mark) (column : ℕ)
    → stars 0 out ≡ some column
    → Waits awake b column (a ∷ rest)
    → Whole (call a rest (process b p awake (a ∷ rest) out))
unfolding call stars
call-Whole (print star) b p rest out column h next = record {
  column = column + 1;
  printed = stars-append 0 out star h;
  next = (next.0.1, λ e. absurd cc);
}
call-Whole (print newline) b p rest out column h next = record {
  column = 0;
  printed = stars-append 0 out newline h ∙ rw next.0.0 refl;
  next = (next.0.1, λ _. refl);
}
call-Whole (print bang) b p rest out column h next = absurd next.0
call-Whole block b p rest out column h next = record {
  column = 0;
  printed = h ∙ ap some next.0.0;
  next = (next.0.1, λ _. refl);
}
call-Whole unblock b p rest out column h next =
    let_through-Whole b p (unblock ∷ rest) rest out column next.0.0 h next.0.1
call-Whole (restore true) b p rest out column h next = record {
  column = 0;
  printed = h ∙ ap some next.0.0;
  next = (next.0.1, λ _. refl);
}
call-Whole (restore false) b p rest out column h next =
    let_through-Whole b p (restore false ∷ rest) rest out column next.0.0 h next.0.1
call-Whole pause b p rest out column h next = record {
  column = 0;
  printed = h ∙ ap some next.0.0;
  next = (refl, next.0.1);
}
call-Whole sigsuspend b p rest out column h next =
    sigsuspend_call-Whole b p (sigsuspend ∷ rest) rest out column next.0.0 h next.0.1 refl

turn-Whole :
    (b p : Bool) (w : Wait) (todo : List Action) (out : List Mark) (column : ℕ)
    → stars 0 out ≡ some column
    → Waits w b column todo
    → Whole (turn w todo (process b p w todo out))
unfolding turn
turn-Whole b p awake (a ∷ rest) out column h next = call-Whole a b p rest out column h next
turn-Whole b p awake [] out column h next = record { column = column; printed = h; next = next }
turn-Whole b p paused todo out column h next = record { column = column; printed = h; next = next }
turn-Whole b p (suspended blocks) todo out column h next = record {
  column = column;
  printed = h;
  next = next;
}

arrive-Whole :
    (b p : Bool) (w : Wait) (todo : List Action) (out : List Mark) (column : ℕ)
    → stars 0 out ≡ some column
    → Waits w b column todo
    → Whole (arrive w b (process b p w todo out))
unfolding arrive
arrive-Whole true p awake todo out column h next = record {
  column = column;
  printed = h;
  next = next;
}
arrive-Whole false p awake todo out column h next =
    delivered false p awake todo out column (next.1 refl) h
      (subst (λ c. Waits awake false c todo) (next.1 refl) next)
arrive-Whole true p paused todo out column h next = record {
  column = column;
  printed = h;
  next = next;
}
arrive-Whole false p paused todo out column h next =
    delivered false p awake (behind todo) out column next.0 h (next.1, λ _. refl)
arrive-Whole b p (suspended blocks) todo out column h next =
    delivered blocks p awake (behind todo) out column next.0 h (next.1, λ _. refl)

run-Whole : (es : List Bool) (s : Process) → Whole s → Whole (run es s)
unfolding run
run-Whole [] s v = v
run-Whole (true ∷ es) s v =
    run-Whole es (arrive s.wait s.blocked s)
      (arrive-Whole s.blocked s.pending s.wait s.todo s.out v.column v.printed v.next)
run-Whole (false ∷ es) s v =
    run-Whole es (turn s.wait s.todo s)
      (turn-Whole s.blocked s.pending s.wait s.todo s.out v.column v.printed v.next)

row-Fits : (rest : List Action) → Fits 0 true rest → Fits 0 true (row ++ rest)
row-Fits rest h = (refl, (refl, (refl, (refl, (refl, (refl, h))))))

block_rows-Fits :
    (n : ℕ) (blocked : Bool) (rest : List Action)
    → ((b : Bool) → Fits 0 b rest)
    → Fits 0 blocked (block_rows n rest)
unfolding block_rows
block_rows-Fits zero blocked rest h = h blocked
block_rows-Fits (suc n) blocked rest h =
    (refl, row-Fits (unblock ∷ block_rows n rest) (refl, block_rows-Fits n false rest h))

suspend_rows-Fits :
    (n : ℕ) (rest : List Action) → Fits 0 true rest → Fits 0 true (suspend_rows n rest)
unfolding suspend_rows
suspend_rows-Fits zero rest h = h
suspend_rows-Fits (suc n) rest h =
    row-Fits (sigsuspend ∷ suspend_rows n rest) (refl, suspend_rows-Fits n rest h)

real_signal_rows-Fits :
    (n : ℕ) (blocked : Bool) (rest : List Action)
    → ((b : Bool) → Fits 0 b rest)
    → Fits 0 blocked (real_signal_rows n rest)
unfolding real_signal_rows
real_signal_rows-Fits zero blocked rest h = h blocked
real_signal_rows-Fits (suc n) blocked rest h = (
  refl,
  row-Fits (unblock ∷ pause ∷ real_signal_rows n rest)
      (refl, (refl, real_signal_rows-Fits n false rest h)),
)

-- Rows of five stars, the last perhaps begun, with marks of the handler only between them.
abbrev pub HasWholeRows : Process → Type 0
HasWholeRows s = (column : ℕ) × (stars 0 s.out ≡ some column)

from_begin :
    (es : List Bool) (b : Bool) (todo : List Action)
    → Fits 0 b todo
    → HasWholeRows (run es (begin b todo))
unfolding begin stars
from_begin es b todo h =
    let v =
      run-Whole es (begin b todo) (record { column = 0; printed = refl; next = (h, λ _. refl) }) in
    (v.column, v.printed)

real_signal-Fits :
    (n : ℕ) (blocked unblocks blocks : Bool) → Fits 0 blocked (real_signal_main n unblocks blocks)
unfolding real_signal_main
real_signal-Fits n blocked true blocks =
    (refl, real_signal_rows-Fits n false (restore blocks ∷ []) (λ b. (refl, tt)))
real_signal-Fits n blocked false blocks =
    real_signal_rows-Fits n blocked (restore blocks ∷ []) (λ b. (refl, tt))

-- Whatever the mask is at the start and whenever signals come, in each of the four programs no mark of
-- the handler stands within a row: its output is rows of five stars, the last perhaps only begun, with
-- all marks between rows. For real_signal.c, whatever stands in the mask that it never sets.
pub run-HasWholeRows :
    (es : List Bool) (n : ℕ) (blocks unblocks saved : Bool)
    → HasWholeRows (run es (begin blocks (block_main n blocks)))
      × HasWholeRows (run es (begin blocks (block_2_main n blocks)))
      × HasWholeRows (run es (begin blocks (suspend_main n blocks)))
      × HasWholeRows (run es (begin blocks (real_signal_main n unblocks saved)))
unfolding block_main block_2_main suspend_main
run-HasWholeRows es n blocks unblocks saved =
    let last : (b : Bool) → Fits 0 b (restore blocks ∷ []) = λ b. (refl, tt) in
    (
      from_begin es blocks (block_main n blocks)
          (refl, block_rows-Fits n false (restore blocks ∷ []) last),
      from_begin es blocks (block_2_main n blocks)
          (refl, block_rows-Fits n false (restore blocks ∷ []) last),
      from_begin es blocks (suspend_main n blocks)
          (refl, (refl, suspend_rows-Fits n (restore blocks ∷ []) (last true))),
      from_begin es blocks (real_signal_main n unblocks saved)
          (real_signal-Fits n blocks unblocks saved),
    )
