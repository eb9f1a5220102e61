-- ===== src/Masks/Tests.antt =====
-- Runs of block.c, suspend.c and real_signal.c of 30.信号专题, and the theorems about them.
use apue_li_huiqin.Base.{
  ◌-◌, ◌≡◌, refl, Bool, true, false, List, [], ◌∷◌, ◌++◌, arith, drop, replicate,
}
use apue_li_huiqin.Masks.{
  star, bang, run, suspend_rows, real_signal_rows, block_main, block_2_main, suspend_main,
  real_signal_main, begin,
}
use apue_li_huiqin.Masks.Rows.{HasWholeRows, run-HasWholeRows}
use apue_li_huiqin.Masks.Wake.{row_marks, in_row, signals_and, in_pause, run-in_row}

-- Two signals in the first row, and one while the program waits or is between two rows.
abbrev two_come : List Bool
two_come = false ∷ false ∷ false ∷ true ∷ true ∷ (replicate 6 false ++ (true ∷ replicate 9 false))

block_two :
    (run two_come (begin true (block_main 2 true))).out ≡ row_marks ++ (bang ∷ bang ∷ row_marks)
unfolding block_main begin run
block_two = refl

run-HasWholeRows_example :
    HasWholeRows (run two_come (begin true (block_main 2 true)))
    × HasWholeRows (run two_come (begin true (block_2_main 2 true)))
    × HasWholeRows (run two_come (begin true (suspend_main 2 true)))
    × HasWholeRows (run two_come (begin true (real_signal_main 2 true true)))
run-HasWholeRows_example = run-HasWholeRows two_come 2 true true true

run-in_row_example :
    (signals_and 1 (7 - 3) (in_row false (drop 3 (suspend_rows 2 [])) (star ∷ star ∷ star ∷ []))
      ≡ in_row false
          (suspend_rows 1 [])
          ((star ∷ star ∷ star ∷ []) ++ (drop 3 row_marks ++ bang ∷ [])))
    × (run (replicate 4 false) (
          signals_and 1
            (8 - 3)
            (in_row false (drop 4 (real_signal_rows 2 [])) (star ∷ star ∷ star ∷ [])))
        ≡ in_pause
            (real_signal_rows 1 [])
            ((star ∷ star ∷ star ∷ []) ++ (drop 3 row_marks ++ bang ∷ [])))
run-in_row_example = run-in_row 3 1 1 4 [] (star ∷ star ∷ star ∷ []) (omega arith)
