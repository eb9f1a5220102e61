-- ===== src/Service/Tests.antt =====
-- A run of 35.网络编程专题/静态进程池/server.c, and the theorems about it.
use apue_li_huiqin.Base.{refl, ℕ, ◌+◌, ◌≡◌, Bool, true, false, [], ◌∷◌, ltb, ◌==◌, count_by}
use apue_li_huiqin.Service.Serial.Whole.{all_succeed}
use apue_li_huiqin.Service.{
  set_up, Server, accepting, serving, gone, start, accept, server_loop, Reach, begin, comes, runs,
}
use apue_li_huiqin.Service.Once.{holds, Reach-once}

-- The third `fork` fails.
abbrev forks : ℕ → Bool
forks i = ltb i 2

-- The second process is busy with a connection, the first has answered one and its next `send` has failed.
abbrev one_left : Server
one_left = record {
  backlog = 9 ∷ [];
  processes = gone ∷ serving 7 ∷ [];
  sent = 6 ∷ [];
  dropped = 8 ∷ [];
}

one_left-Reach : Reach all_succeed 4 forks (6 ∷ 7 ∷ 8 ∷ 9 ∷ []) one_left
unfolding start accept server_loop set_up
one_left-Reach = runs 0 true (
    runs 0 false (
      runs 0 false
        (runs 1 false (runs 0 false (comes 9 (comes 8 (comes 7 (comes 6 (begin refl)))))))))

Reach-once_example :
    count_by (λ c. c == 8) one_left.sent
      + count_by (λ c. c == 8) one_left.dropped
      + count_by (holds (λ c. c == 8)) one_left.processes
      + count_by (λ c. c == 8) one_left.backlog
    ≡ count_by (λ c. c == 8) (6 ∷ 7 ∷ 8 ∷ 9 ∷ [])
Reach-once_example = Reach-once (λ c. c == 8) one_left-Reach

abbrev two_left : Server
two_left = record one_left { backlog = 9 ∷ 5 ∷ []; processes = gone ∷ accepting ∷ [] }
