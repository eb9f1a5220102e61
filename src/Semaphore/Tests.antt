-- ===== src/Semaphore/Tests.antt =====
-- A run of 31.线程专题/mysem/main.c with a semaphore of 1 and the numbers 2 and 3, and the theorems about
-- its last state.
use apue_li_huiqin.Base.{◌≡◌, ◌<◌, ◌⊎◌, ◌+◌, refl, true, some, [], ◌∷◌, arith, count_by}
use apue_li_huiqin.Primes.{primer_flag}
use apue_li_huiqin.Semaphore.{
  Mysem, mysem_init, left, starting, joining, System, main_turn, func_turn, main_runs, func_runs,
  Reach, begin, next,
}
use apue_li_huiqin.Semaphore.Bounded.{is_working, Reach-units, Reach-goes_on}

abbrev one_unit : Mysem
one_unit = record { value = 1 }

abbrev finished : System
finished = record {
  sem = one_unit;
  i = 4;
  main = joining;
  threads = left ∷ left ∷ [];
  printed = 2 ∷ 3 ∷ [];
}

-- The main thread waits for the first thread before it starts the second.
finished-Reach : Reach one_unit 2 3 finished
unfolding main_turn func_turn primer_flag
finished-Reach =
    next
      (next
        (next
          (next (next (next (next (next begin main_runs) main_runs) (func_runs 0)) (func_runs 0))
            main_runs)
          (func_runs 1))
        (func_runs 1))
      main_runs

init-one_unit : mysem_init true 1 ≡ some one_unit
unfolding mysem_init
init-one_unit = refl

Reach-units_example : finished.sem.value + count_by is_working finished.threads ≡ 1
Reach-units_example = Reach-units 1 init-one_unit (omega arith) finished-Reach

Reach-goes_on_example :
    (finished.main ≡ starting)
    ⊎ (0 < count_by is_working finished.threads)
    ⊎ ((finished.main ≡ joining) × (count_by is_working finished.threads ≡ 0))
Reach-goes_on_example = Reach-goes_on 1 init-one_unit (omega arith) (omega arith) finished-Reach
