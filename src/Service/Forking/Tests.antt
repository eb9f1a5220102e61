-- ===== src/Service/Forking/Tests.antt =====
-- A run of 35.网络编程专题/流式套接字_并发版/server.c, and the theorem about it.
use apue_li_huiqin.Base.{refl, ℕ, ◌+◌, ◌≡◌, Bool, not, true, false, [], ◌∷◌, ◌==◌, count_by}
use apue_li_huiqin.Service.Serial.Whole.{all_succeed}
use apue_li_huiqin.Service.Forking.{
  set_up, Server, working, left, ended, accept, parent_step, child_step, Reach, begin, comes,
  parent_runs, child_runs,
}
use apue_li_huiqin.Service.Forking.Finish.{finish, finish-each}
use apue_li_huiqin.Service.Forking.Each.{holds, in_parent, Reach-each}

abbrev fails : ℕ → Bool
fails c = c == 6

-- The child of 6 has dropped it, that of 7 has answered, that of 8 is at work, and the `fork` for 9 has failed.
abbrev one_waits : Server
one_waits = record {
  backlog = 5 ∷ [];
  parent = ended;
  children = left ∷ left ∷ working 8 ∷ [];
  sent = 7 ∷ [];
  dropped = 6 ∷ [];
  refused = 9 ∷ [];
}

one_waits-Reach : Reach all_succeed fails (6 ∷ 7 ∷ 8 ∷ 9 ∷ 5 ∷ []) one_waits
unfolding accept parent_step child_step set_up
one_waits-Reach =
    let all_come : Reach all_succeed fails (6 ∷ 7 ∷ 8 ∷ 9 ∷ 5 ∷ []) _ =
      comes 5 (comes 9 (comes 8 (comes 7 (comes 6 (begin refl))))) in
    parent_runs true (
      parent_runs false (
        parent_runs false (
          parent_runs false (
            child_runs 1 (
              child_runs 0 (
                parent_runs false
                  (parent_runs false (parent_runs false (parent_runs false all_come)))))))))

Reach-each_example :
    (count_by (λ c. c == 8) one_waits.sent
        + count_by (λ c. c == 8) one_waits.dropped
        + count_by (λ c. c == 8) one_waits.refused
        + count_by (holds (λ c. c == 8)) one_waits.children
        + in_parent (λ c. c == 8) one_waits.parent
        + count_by (λ c. c == 8) one_waits.backlog
      ≡ count_by (λ c. c == 8) (6 ∷ 7 ∷ 8 ∷ 9 ∷ 5 ∷ []))
    × (count_by fails one_waits.sent ≡ 0)
    × (count_by (λ c. not (fails c)) one_waits.dropped ≡ 0)
Reach-each_example = Reach-each (λ c. c == 8) one_waits-Reach

finish-each_example :
    count_by (λ c. c == 8) (finish fails 3 one_waits).sent
      + count_by (λ c. c == 8) (finish fails 3 one_waits).dropped
      + count_by (λ c. c == 8) one_waits.refused
      + in_parent (λ c. c == 8) one_waits.parent
      + count_by (λ c. c == 8) one_waits.backlog
    ≡ count_by (λ c. c == 8) (6 ∷ 7 ∷ 8 ∷ 9 ∷ 5 ∷ [])
finish-each_example = finish-each (λ c. c == 8) one_waits-Reach
