-- ===== src/Primes/Tests.antt =====
-- A run of 31.线程专题/primer_1_pool_cond.c with one thread and the interval from 2 to 4, and the theorems
-- about its states; runs of the programs that share no variable, 29.进程专题/primer1.c and primer3.c.
use apue_li_huiqin.Base.{
  one_if, ℕ, Bool, not, ◌≡◌, ◌<◌, ◌⊎◌, ◌&&◌, ◌==◌, refl, inl, inr, [], ◌∷◌, arith, count_by, leb,
}
use apue_li_huiqin.Primes.{
  System, empty, awake, is_asleep, closed, putting, joining, gone, main_turn, func_turn, trial,
  primer_flag, main_runs, func_runs, Reach, begin, next,
}
use apue_li_huiqin.Primes.Counts.{is_gone, is_active}
use apue_li_huiqin.Primes.Live.{Reach-runs}
use apue_li_huiqin.Primes.Polling.{main_polling, func_polling, PollReach}
use apue_li_huiqin.Primes.Polling.Refines.{PollReach-Reach}
use apue_li_huiqin.Primes.Shares.{
  short_flag, print_primer, primer0, spawn, primer1, share, primer3, Prints, line,
}
use apue_li_huiqin.Primes.Shares.Outputs.{process, Prints-primer3}
use apue_li_huiqin.Primes.Once.{Reach-printed}

-- The thread waits first; then it takes each number as soon as it is put.
abbrev finished : System
finished = record {
  num = closed;
  i = 5;
  main = joining;
  workers = gone ∷ [];
  taken = 2 ∷ 3 ∷ 4 ∷ [];
  printed = 2 ∷ 3 ∷ [];
}

finished-Reach : Reach 1 2 4 finished
unfolding main_turn func_turn
finished-Reach =
    next
      (next
        (next
          (next
            (next
              (next
                (next
                  (next
                    (next
                      (next (next (next begin (func_runs 0)) (main_runs 0 (inl refl)))
                        (func_runs 0))
                      (main_runs 0 (inr refl)))
                    (func_runs 0))
                  (func_runs 0))
                (main_runs 0 (inr refl)))
              (func_runs 0))
            (func_runs 0))
          (main_runs 0 (inr refl)))
        (func_runs 0))
      (func_runs 0)

Reach-runs_example :
    (finished.main ≡ putting)
    ⊎ (0 < count_by is_active finished.workers)
    ⊎ ((finished.main ≡ joining) × (count_by is_gone finished.workers ≡ 1))
Reach-runs_example = Reach-runs (omega arith) finished-Reach

Reach-printed_example :
    count_by (λ n. n == 3) finished.printed ≡ one_if (leb 2 3 && leb 3 4 && primer_flag 3)
Reach-printed_example = Reach-printed 3 (omega arith) (omega arith) finished-Reach refl refl

abbrev polled : System
polled = record {
  num = empty;
  i = 3;
  main = putting;
  workers = awake ∷ [];
  taken = 2 ∷ [];
  printed = 2 ∷ [];
}

-- Each finds `num` not ready once.
polled-PollReach : PollReach 1 2 4 polled
unfolding main_polling func_polling primer_flag
polled-PollReach = PollReach.func_runs 0 (
    PollReach.func_runs 0
      (PollReach.main_runs (PollReach.main_runs (PollReach.func_runs 0 PollReach.begin))))

PollReach-Reach_example : Reach 1 2 4 polled × (count_by is_asleep polled.workers ≡ 0)
PollReach-Reach_example = PollReach-Reach polled-PollReach

-- Two processes of primer3.c, of which the second fails to start.
abbrev one_started : ℕ → Bool
one_started n = n == 0

five_and_seven-Prints : Prints (primer3 2 one_started 5 8) ([] ∷ []) (5 ∷ 7 ∷ [])
unfolding primer3 spawn share print_primer short_flag trial
five_and_seven-Prints = line 0 7 [] (line 0 5 (7 ∷ []) Prints.begin refl) refl

Prints-primer3_example :
    count_by (λ i. i == 7) (5 ∷ 7 ∷ [])
    ≡ count_by (λ i. one_started (process 2 5 i) && (i == 7)) (primer0 5 8)
Prints-primer3_example =
    Prints-primer3 (λ i. i == 7) one_started 2 5 8 (omega arith) (omega arith) (omega arith)
      five_and_seven-Prints refl

-- A process for each number; that of 5 fails to start.
abbrev not_five : ℕ → Bool
not_five i = not (i == 5)

seven-Prints : Prints (primer1 not_five 5 7) ([] ∷ [] ∷ []) (7 ∷ [])
unfolding primer1 spawn print_primer primer_flag trial
seven-Prints = line 1 7 [] Prints.begin refl
