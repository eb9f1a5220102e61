-- ===== src/Pool/Drafts.antt =====
-- Two drafts of the process pool: 36.项目实例/动态进程/server_test.c, which leaves the counting of idle
-- servers to `scan_pool`, and 36.项目实例/动态进程池/server_test.c, which counts as server.c does. Both
-- have their own `del_1_server`. A `fork` that fails ends the parent: `none` is `exit(1)`.
pub mod Kills
pub mod Starts
use apue_li_huiqin.Base.{
  ℕ, zero, suc, ◌+◌, ◌-◌, Bool, true, false, Option, none, some, List, [], ◌∷◌, ◌++◌, ltb, leb,
  if◌then◌else◌, set, get_elem?,
}
use apue_li_huiqin.Pool.{
  Server, state_idel, minspareserver, maxspareserver, maxclients, Pool, is_idle, find_slot,
}

-- The `else` branch behind `fork`, in the parent; server_test.c of 动态进程 has `idle_cnt++` in a comment.
unfoldable pub start_at : Option ℕ → ℕ → Pool → ℕ → Option Pool
start_at none counted p slot = none
start_at (some pid) counted p slot = some (record p {
  serverpool = set p.serverpool slot (record { pid = some pid; state = state_idel });
  idle_count = p.idle_count + counted;
})

-- `add_1_server` behind the limit on servers.
unfoldable pub add_at : Option ℕ → ℕ → Pool → Option Pool
unfolding start_at find_slot
add_at fork counted p = elim (find_slot p.serverpool 0) [
  | none ↦ some p
  | some slot ↦ start_at fork counted p slot
]

-- `add_1_server` of 动态进程/server_test.c.
unfoldable pub add_uncounted : Option ℕ → Pool → Option Pool
unfolding add_at
add_uncounted fork p = add_at fork 0 p

-- `add_1_server` of 动态进程池/server_test.c.
unfoldable pub add_counted : Option ℕ → Pool → Option Pool
unfolding add_at
add_counted fork p =
    if leb maxclients (p.idle_count + p.busy_count) then some p else add_at fork 1 p

-- The test in the loop of `del_1_server`, which looks at `serverpool[0]`.
unfoldable pub first_idle : List Server → Bool
first_idle [] = false
first_idle (s ∷ ss) = is_idle s

-- That loop, with so many rounds left: the index at its `break`.
unfoldable pub search_idle : ℕ → ℕ → List Server → Option ℕ
unfolding first_idle
search_idle zero i ss = none
search_idle (suc n) i ss =
    let later = search_idle n (i + 1) ss in if first_idle ss then some i else later

-- `kill`, and the process is struck off. The SIG_NOTIFY to `getppid()` is left out: it does not go to a
-- process of the pool.
unfoldable pub kill_server : Pool → ℕ → Option Server → Pool
kill_server p i none = p
kill_server p i (some s) = record p {
  serverpool = set p.serverpool i (record s { pid = none });
  idle_count = p.idle_count - 1;
  signalled = elim (s.pid) [ none ↦ p.signalled | some pid ↦ p.signalled ++ pid ∷ [] ];
}

-- Behind the loop of `del_1_server`; `true` is the return value 0.
unfoldable pub del_at : Pool → Option ℕ → Pool × Bool
unfolding kill_server
del_at p none = (p, false)
del_at p (some i) = (kill_server p i (get_elem? p.serverpool i), true)

-- `del_1_server`. It is called where `idle_count` is above 10.
unfoldable pub del_first : Pool → Pool × Bool
unfolding search_idle del_at
del_first p = del_at p (search_idle maxclients 0 p.serverpool)

-- The kill loop of `main`, on fuel.
unfoldable pub shrink_first : ℕ → ℕ → Pool → Pool
unfolding del_first
shrink_first zero i p = p
shrink_first (suc fuel) i p =
    let rest = shrink_first fuel (i + 1) (del_first p).0 in
    if ltb i (p.idle_count - maxspareserver) then rest else p

-- A call that may end the parent, and what follows.
unfoldable pub and_then : Option Pool → (Pool → Option Pool) → Option Pool
and_then none k = none
and_then (some p) k = k p

-- The add loop, with the `add_1_server` of the draft; round `i` is given the result `forks i`.
unfoldable pub grow_draft :
    (Option ℕ → Pool → Option Pool) → ℕ → ℕ → (ℕ → Option ℕ) → Pool → Option Pool
unfolding and_then
grow_draft add zero i forks p = some p
grow_draft add (suc fuel) i forks p =
    let rest = and_then (add (forks i) p) (grow_draft add fuel (i + 1) forks) in
    if ltb i (minspareserver - p.idle_count) then rest else some p

-- The second `if` of `main`.
unfoldable pub grow_if_few : (Option ℕ → Pool → Option Pool) → (ℕ → Option ℕ) → Pool → Option Pool
unfolding grow_draft
grow_if_few add forks p =
    if ltb p.idle_count minspareserver then grow_draft add minspareserver 0 forks p else some p

-- The two `if`s of 动态进程/server_test.c, one behind the other.
unfoldable pub control_uncounted : (ℕ → Option ℕ) → Pool → Option Pool
unfolding shrink_first grow_if_few add_uncounted
control_uncounted forks p =
    grow_if_few add_uncounted forks
      (if ltb maxspareserver p.idle_count then shrink_first p.idle_count 0 p else p)

-- `if` and `else if` of 动态进程池/server_test.c.
unfoldable pub control_counted : (ℕ → Option ℕ) → Pool → Option Pool
unfolding shrink_first grow_if_few add_counted
control_counted forks p =
    if ltb maxspareserver p.idle_count
    then some (shrink_first p.idle_count 0 p)
    else grow_if_few add_counted forks p
