-- ===== src/Counter/Tests.antt =====
-- Runs of the counting programs (31.线程专题/mutex.c and conflict.c, 32.高级IO/add.c,
-- 34.进、线程通信专题/add_semarr.c), and the theorems about their states.
use apue_li_huiqin.Base.{◌+◌, ◌≡◌, refl, false, [], ◌∷◌, count_by}
use apue_li_huiqin.Counter.{
  semaphore, finished, given_up, File, done, eintr, sem_p, enter, func, at_guard, leave, Reach,
  begin, next,
}
use apue_li_huiqin.Counter.Counts.{has_given_up}
use apue_li_huiqin.Counter.Locked.{Reach-total}

-- The second process is interrupted in its `semop` and exits; the first goes on.
abbrev one_gone : File
one_gone = record { number = 8; locked = false; workers = finished ∷ given_up ∷ [] }

one_gone-Reach : Reach semaphore 2 7 one_gone
unfolding func at_guard enter leave sem_p
one_gone-Reach =
    next 0 [] (next 0 [] (next 1 (eintr ∷ done ∷ []) (next 0 [] (next 0 (done ∷ []) begin))))

Reach-total_example : one_gone.number + count_by has_given_up one_gone.workers ≡ 7 + 2
Reach-total_example = Reach-total (cc) one_gone-Reach refl
