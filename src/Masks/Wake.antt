-- ===== src/Masks/Wake.antt =====
-- A signal that comes in a row of suspend.c and of real_signal.c of 30.信号专题.
use mathlib.Core.List.{append_assoc}
use apue_li_huiqin.Base.{
  ℕ, zero, suc, ◌-◌, ◌≡◌, ◌≤◌, refl, ap, ◌∙◌, Bool, true, false, List, [], ◌∷◌, ◌++◌, arith, drop,
  replicate,
}
use apue_li_huiqin.Masks.{
  Mark, star, newline, bang, Action, pause, awake, paused, Process, sig_handler, arrive,
  let_through, sigsuspend_call, call, turn, run, suspend_rows, real_signal_rows,
}

abbrev pub row_marks : List Mark
row_marks = star ∷ star ∷ star ∷ star ∷ star ∷ newline ∷ []

-- Between two calls, with SIGINT blocked.
abbrev pub in_row : Bool → List Action → List Mark → Process
in_row pending todo out = record {
  blocked = true;
  pending = pending;
  wait = awake;
  todo = todo;
  out = out;
}

-- More than one signal and then, with no other, so many turns.
abbrev pub signals_and : ℕ → ℕ → Process → Process
signals_and more n s = run (replicate (suc more) true ++ replicate n false) s

merged :
    (more : ℕ) (es : List Bool) (todo : List Action) (out : List Mark)
    → run (replicate more true ++ es) (in_row true todo out) ≡ run es (in_row true todo out)
unfolding run arrive
merged zero es todo out = refl
merged (suc more) es todo out = merged more es todo out

suspend_row :
    (k n : ℕ) (last : List Action) (out : List Mark)
    → k ≤ 5
    → run (replicate (7 - k) false) (in_row true (drop k (suspend_rows (suc n) last)) out)
      ≡ in_row false (suspend_rows n last) (out ++ (drop k row_marks ++ bang ∷ []))
unfolding run turn call sigsuspend_call sig_handler suspend_rows
suspend_row zero n last out h = simp append_assoc refl
suspend_row (suc zero) n last out h = simp append_assoc refl
suspend_row (suc (suc zero)) n last out h = simp append_assoc refl
suspend_row (suc (suc (suc zero))) n last out h = simp append_assoc refl
suspend_row (suc (suc (suc (suc zero)))) n last out h = simp append_assoc refl
suspend_row (suc (suc (suc (suc (suc zero))))) n last out h = simp append_assoc refl
suspend_row (suc (suc (suc (suc (suc (suc k)))))) n last out h = absurd (omega arith)

-- In `pause`, with SIGINT let through and none pending.
abbrev pub in_pause : List Action → List Mark → Process
in_pause rest out = record {
  blocked = false;
  pending = false;
  wait = paused;
  todo = pause ∷ rest;
  out = out;
}

at_pause :
    (m : ℕ) (rest : List Action) (out : List Mark)
    → run (replicate m false) (in_pause rest out) ≡ in_pause rest out
unfolding run turn
at_pause zero rest out = refl
at_pause (suc m) rest out = at_pause m rest out

real_signal_row :
    (k n : ℕ) (last : List Action) (out : List Mark)
    → k ≤ 5
    → run (replicate (8 - k) false) (in_row true (drop (suc k) (real_signal_rows (suc n) last)) out)
      ≡ in_pause (real_signal_rows n last) (out ++ (drop k row_marks ++ bang ∷ []))
unfolding run turn call let_through sig_handler real_signal_rows
real_signal_row zero n last out h = simp append_assoc refl
real_signal_row (suc zero) n last out h = simp append_assoc refl
real_signal_row (suc (suc zero)) n last out h = simp append_assoc refl
real_signal_row (suc (suc (suc zero))) n last out h = simp append_assoc refl
real_signal_row (suc (suc (suc (suc zero)))) n last out h = simp append_assoc refl
real_signal_row (suc (suc (suc (suc (suc zero))))) n last out h = simp append_assoc refl
real_signal_row (suc (suc (suc (suc (suc (suc k)))))) n last out h = absurd (omega arith)

signalled :
    (more : ℕ) (es : List Bool) (todo : List Action) (out : List Mark)
    → run (replicate (suc more) true ++ es) (in_row false todo out) ≡ run es (in_row true todo out)
unfolding run arrive
signalled more es todo out = merged more es todo out

-- When signals come in a row of which `k` calls are over, however many, they count as one: both programs
-- print the rest of the row and one mark. suspend.c then goes on with the next row; real_signal.c has used
-- the signal up before its `pause`, and stays there as long as no other comes.
pub run-in_row :
    (k more n m : ℕ) (last : List Action) (out : List Mark)
    → k ≤ 5
    → (signals_and more (7 - k) (in_row false (drop k (suspend_rows (suc n) last)) out)
        ≡ in_row false (suspend_rows n last) (out ++ (drop k row_marks ++ bang ∷ [])))
      × (run (replicate m false) (
            signals_and more
              (8 - k)
              (in_row false (drop (suc k) (real_signal_rows (suc n) last)) out))
          ≡ in_pause (real_signal_rows n last) (out ++ (drop k row_marks ++ bang ∷ [])))
run-in_row k more n m last out h =
    let marks : List Mark = out ++ (drop k row_marks ++ bang ∷ []) in
    (
      signalled more (replicate (7 - k) false) (drop k (suspend_rows (suc n) last)) out
          ∙ suspend_row k n last out h,
      ap (run (replicate m false)) (
            signalled more (replicate (8 - k) false) (drop (suc k) (real_signal_rows (suc n) last))
              out
            ∙ real_signal_row k n last out h)
          ∙ at_pause m (real_signal_rows n last) marks,
    )
