-- ===== src/Pool/Tests.antt =====
-- Runs of the pool of 36.项目实例/动态进程/server.c and of its drafts, and its theorems at concrete pools.
use apue_li_huiqin.Base.{ℕ, ◌+◌, ◌≡◌, refl, Option, none, some, ◌∷◌, replicate}
use apue_li_huiqin.Pool.{
  Pool, maxclients, state_idel, del_1_server, control, fresh, find_slot, shrink, kill_first_idle,
}
use apue_li_huiqin.Pool.Drafts.{
  start_at, add_at, add_uncounted, grow_draft, grow_if_few, control_uncounted, and_then,
}

-- The parent's `fork` number `j` answers the pid 100 + j.
abbrev forks : ℕ → Option ℕ
forks j = some (100 + j)

-- Twenty servers, all idle.
abbrev twenty_idle : Pool
twenty_idle = record fresh {
  serverpool = replicate maxclients (record { pid = some 7; state = state_idel });
  idle_count = 20;
}

-- One idle and one busy server.
abbrev two_servers : Pool
two_servers = record fresh {
  serverpool =
      record { pid = some 3; state = 0 }
      ∷ record { pid = some 4; state = 1 }
      ∷ replicate 18 (record { pid = none; state = 0 });
  idle_count = 1;
  busy_count = 1;
}

-- Of ten servers too many, five are killed.
control_runs : (control forks twenty_idle).idle_count ≡ 15
unfolding control shrink del_1_server kill_first_idle
control_runs = refl

-- A draft whose `fork` fails ends.
failed_fork_runs : control_uncounted (λ j. none) two_servers ≡ none
unfolding control_uncounted grow_if_few grow_draft add_uncounted add_at start_at find_slot and_then
failed_fork_runs = refl
