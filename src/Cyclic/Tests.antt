-- ===== src/Cyclic/Tests.antt =====
-- Runs of 31.线程专题/abcd_cond.c and abcd.c with two threads, and the theorems about their states.
use apue_li_huiqin.Base.{◌+◌, ◌%◌, ◌≡◌, refl, true, some, [], ◌∷◌, ◌++◌, arith, length, get_elem?}
use apue_li_huiqin.Cyclic.{
  next, letter, awake, Shared, func_cond, turn, CondReach, begin, after, at_lock, at_unlock, Chain,
  func_ring, main_ring, main, func, RingReach,
}
use apue_li_huiqin.Cyclic.Letters.{letters}
use apue_li_huiqin.Cyclic.Cond.{CondReach-letters, CondReach-goes_on}
use apue_li_huiqin.Cyclic.Ring.{RingReach-letters}

-- Thread 1 comes too early and waits; each then writes once.
abbrev both_written : Shared
both_written = record { num = 0; threads = awake ∷ awake ∷ []; out = 97 ∷ 98 ∷ [] }

both_written-CondReach : CondReach 2 both_written
unfolding func_cond next letter
both_written-CondReach = after (after (after begin (turn 1 refl)) (turn 0 refl)) (turn 1 refl)

CondReach-letters_example : both_written.out ≡ letters 2 (length both_written.out)
CondReach-letters_example = CondReach-letters (omega arith) both_written-CondReach

CondReach-goes_on_example :
    (get_elem? both_written.threads both_written.num ≡ some awake)
    × ((func_cond 2 both_written.num both_written).out
        ≡ both_written.out ++ (b'a' + length both_written.out % 2) ∷ [])
CondReach-goes_on_example = CondReach-goes_on (omega arith) both_written-CondReach

abbrev second_letter : Chain
second_letter = record {
  mux = true ∷ true ∷ [];
  threads = at_lock ∷ at_unlock ∷ [];
  started = true;
  out = 97 ∷ 98 ∷ [];
}

second_letter-RingReach : RingReach 2 second_letter
unfolding func_ring main_ring next letter
second_letter-RingReach =
    RingReach.after
      (RingReach.after
        (RingReach.after
          (RingReach.after
            (RingReach.after (RingReach.after (RingReach.after RingReach.begin (func 1)) main)
              (func 0))
            (func 0))
          (func 0))
        (func 1))
      (func 1)

RingReach-letters_example : second_letter.out ≡ letters 2 (length second_letter.out)
RingReach-letters_example = RingReach-letters (omega arith) second_letter-RingReach
