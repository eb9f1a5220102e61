-- ===== src/Pool.antt =====
-- 36.项目实例/动态进程/server.c: the dynamic process pool. The shared array of `struct server_st`, the
-- two counters, and the parent's functions over them. `pid == -1` is `none`; `state` is the `int`
-- that a child stores through the shared mapping. What the kernel answers is an argument: the result
-- of each `fork` (`none` for a failure). The list `signalled` records the pids that were sent
-- SIGTERM, and `shown` the characters printed. The functions here are those of the parent between the
-- stores of children; Pool/Notify interleaves them.
pub mod Slots
pub mod Counts
pub mod Resize
pub mod Notify
pub mod Child
pub mod Drafts
mod Tests
use apue_li_huiqin.Base.{
  ℕ, zero, suc, ◌+◌, ◌-◌, ◌<◌, Bool, true, false, not, ◌&&◌, Option, none, some, List, [], ◌∷◌,
  ◌++◌, map, ltb, leb, ◌==◌, if◌then◌else◌, set, replicate,
}

-- `struct server_st`.
pub record Server : Type 0 where
  pub pid : Option ℕ
  pub state : ℕ

abbrev pub state_idel : ℕ
state_idel = 0

abbrev pub state_busy : ℕ
state_busy = 1

abbrev pub minspareserver : ℕ
minspareserver = 5

abbrev pub maxspareserver : ℕ
maxspareserver = 10

abbrev pub maxclients : ℕ
maxclients = 20

-- The static variables of the parent, and what it has sent and printed.
pub record Pool : Type 0 where
  pub serverpool : List Server
  pub idle_count : ℕ
  pub busy_count : ℕ
  pub signalled : List ℕ
  pub shown : List ℕ

-- `serverpool[i].pid == -1`
abbrev pub is_vacant : Server → Bool
is_vacant s = elim (s.pid) [ none ↦ true | some _ ↦ false ]

-- `serverpool[i].pid != -1 && serverpool[i].state == STATE_IDEL`
abbrev pub is_idle : Server → Bool
is_idle s = not (is_vacant s) && (s.state == state_idel)

abbrev pub is_busy : Server → Bool
is_busy s = not (is_vacant s) && (s.state == state_busy)

-- The search for a vacant slot; `none` is `slot >= MAXCLIENTS`.
pub find_slot : List Server → ℕ → Option ℕ
find_slot [] slot = none
find_slot (s ∷ ss) slot = if is_vacant s then some slot else find_slot ss (slot + 1)

-- The state is stored before `fork`, and stays stored when it fails.
pub fork_at : Option ℕ → Pool → ℕ → Pool × Bool
fork_at none p slot = (
  record p { serverpool = set p.serverpool slot (record { pid = none; state = state_idel }) },
  false,
)
fork_at (some pid) p slot = (
  record p {
    serverpool = set p.serverpool slot (record { pid = some pid; state = state_idel });
    idle_count = p.idle_count + 1;
  },
  true,
)

-- `add_1_server` in the parent; `true` is the return value 0.
pub add_1_server : Option ℕ → Pool → Pool × Bool
unfolding fork_at
add_1_server fork p =
    if leb maxclients (p.idle_count + p.busy_count)
    then (p, false)
    else elim (find_slot p.serverpool 0) [ none ↦ (p, false) | some slot ↦ fork_at fork p slot ]

-- The loop of `del_1_server`: the array after it, and the pid that got SIGTERM.
pub kill_first_idle : List Server → List Server × Option ℕ
kill_first_idle [] = ([], none)
kill_first_idle (s ∷ ss) =
    let rest = kill_first_idle ss in
    if is_idle s then (record s { pid = none } ∷ ss, s.pid) else (s ∷ rest.0, rest.1)

after_kill : Pool → List Server × Option ℕ → Pool
after_kill p (ss, none) = record p { serverpool = ss }
after_kill p (ss, some pid) = record p {
  serverpool = ss;
  idle_count = p.idle_count - 1;
  signalled = p.signalled ++ (pid ∷ []);
}

-- `del_1_server`; `idle_count--` runs only where it is not 0.
pub del_1_server : Pool → Pool × Bool
unfolding after_kill
del_1_server p =
    if p.idle_count == 0 then (p, false) else (after_kill p (kill_first_idle p.serverpool), true)

-- `for (i = 0; i < (idle_count - MAXSPARESERVER); i++) del_1_server();` The bound is read again in
-- each round. At `idle_count < MAXSPARESERVER` the `int` difference is negative and the truncated one
-- is 0: the test fails in both.
pub shrink : ℕ → ℕ → Pool → Pool
shrink zero i p = p
shrink (suc fuel) i p =
    let rest = shrink fuel (i + 1) (del_1_server p).0 in
    if ltb i (p.idle_count - maxspareserver) then rest else p

-- `for (i = 0; i < (MINSPARESERVER - idle_count); i++) add_1_server();` Round `i` is given the
-- result `forks i`, should it come to fork.
pub grow : ℕ → ℕ → (ℕ → Option ℕ) → Pool → Pool
grow zero i forks p = p
grow (suc fuel) i forks p =
    let rest = grow fuel (i + 1) forks (add_1_server (forks i) p).0 in
    if ltb i (minspareserver - p.idle_count) then rest else p

-- "control the poll" of `main`, where no child stores meanwhile; with their stores the steps are those of
-- Pool/Notify. Both loops end by their test within the fuel (Resize).
pub control : (ℕ → Option ℕ) → Pool → Pool
control forks p =
    if ltb maxspareserver p.idle_count
    then shrink p.idle_count 0 p
    else if ltb p.idle_count minspareserver
    then grow minspareserver 0 forks p
    else p

-- One character for a slot: ' ', '.' or 'X'.
pub glyph : Server → ℕ
glyph s = if is_vacant s then b' ' else if s.state == state_idel then b'.' else b'X'

-- The mapping is zero-filled; `main` then sets each `pid` to -1.
abbrev pub fresh : Pool
fresh = record {
  serverpool = replicate maxclients (record { pid = none; state = 0 });
  idle_count = 0;
  busy_count = 0;
  signalled = [];
  shown = [];
}
