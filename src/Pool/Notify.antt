-- ===== src/Pool/Notify.antt =====
-- `main` of 36.项目实例/动态进程/server.c with its set-up and SIG_NOTIFY, step by step: the children store
-- states into the shared array and send signals between any two reads that the parent makes of a slot.
-- `oset` is taken not to block SIG_NOTIFY, which is blocked but in `sigsuspend`; it has one pending bit for
-- any number of calls of `kill`. A child stores its state first and sends the signal then; between the
-- two, or if it dies there, it is one of the `unreported`.
pub mod Slots
pub mod Held
pub mod Always
pub mod Exact
pub mod Current
mod Tests
use apue_li_huiqin.Base.{
  ℕ, suc, ◌+◌, ◌-◌, ◌≤◌, ◌≡◌, Bool, true, false, not, ◌||◌, Option, none, some, [], ◌∷◌, ◌++◌, ltb,
  ◌==◌, if◌then◌else◌, get_elem?, set,
}
use apue_li_huiqin.Pool.{
  Server, Pool, is_vacant, is_idle, state_idel, state_busy, minspareserver, maxspareserver,
  maxclients, add_1_server, glyph, fresh,
}

-- Where the parent stands.
pub data Phase : Type 0 where
  starts : (i : ℕ) → Phase  -- for (i = 0; i < MINSPARESERVER; i++) add_1_server();
  waits : Phase  -- in sigsuspend
  scans : (i idle busy : ℕ) → Phase  -- at the head of the loop of scan_pool
  tests_busy : (i idle busy : ℕ) → Phase  -- behind `state == STATE_IDEL`, which was false
  shrinks : (i : ℕ) → Phase  -- at the head of the loop over del_1_server
  kills : (i j : ℕ) → Phase  -- in del_1_server, at the slot j
  grows : (i : ℕ) → Phase  -- at the head of the loop over add_1_server
  shows : (j : ℕ) → Phase  -- at the head of the loop that prints
  aborted : Phase

-- `between` is not of the program: whether a child has stored since the parent last found a state that is
-- not STATE_IDEL in `scan_pool`.
pub record System : Type 0 where
  pub pool : Pool
  pub phase : Phase
  pub blocked : Bool
  pub pending : Bool
  pub unreported : ℕ
  pub between : Bool

-- "control the poll": the loop that follows `scan_pool`.
unfoldable pub decide : Pool → Phase
decide p =
    if ltb maxspareserver p.idle_count
    then shrinks 0
    else if ltb p.idle_count minspareserver
    then grows 0
    else shows 0

-- The body of the loop of `scan_pool` up to the second read of the state; `alive` is what kill(pid, 0) says.
unfoldable pub scan_slot : Bool → ℕ → ℕ → ℕ → Pool → Option Server → Phase × Pool
scan_slot alive i idle busy p none = (scans (i + 1) idle busy, p)
scan_slot alive i idle busy p (some s) =
    if is_vacant s
    then (scans (i + 1) idle busy, p)
    else if not alive
    then (
      scans (i + 1) idle busy,
      record p { serverpool = set p.serverpool i (record s { pid = none }) },
    )
    else if s.state == state_idel
    then (scans (i + 1) (idle + 1) busy, p)
    else (tests_busy i idle busy, p)

-- The second read of the state.
unfoldable pub test_busy : ℕ → ℕ → ℕ → Option Server → Phase
test_busy i idle busy none = aborted
test_busy i idle busy (some s) =
    if s.state == state_busy then scans (i + 1) idle (busy + 1) else aborted

-- SIGTERM for the process of a slot, which becomes vacant.
unfoldable pub kill_at : ℕ → Pool → Server → Option ℕ → Pool
kill_at j p s none = p
kill_at j p s (some pid) = record p {
  serverpool = set p.serverpool j (record s { pid = none });
  idle_count = p.idle_count - 1;
  signalled = p.signalled ++ (pid ∷ []);
}

-- The body of the loop of `del_1_server`.
unfoldable pub kill_slot : ℕ → ℕ → Pool → Option Server → Phase × Pool
unfolding kill_at
kill_slot i j p none = (kills i (j + 1), p)
kill_slot i j p (some s) =
    if is_idle s then (shrinks (i + 1), kill_at j p s s.pid) else (kills i (j + 1), p)

-- `putchar` for a slot.
unfoldable pub show_slot : Pool → Option Server → Pool
unfolding glyph
show_slot p none = p
show_slot p (some s) = record p { shown = p.shown ++ (glyph s ∷ []) }

-- A step of the parent: `alive` is what kill(pid, 0) says in it, `fork` what fork() answers. `add_1_server`
-- reads no state, and is one step.
unfoldable pub advance : Bool → Option ℕ → Phase → Pool → Phase × Pool
unfolding decide scan_slot test_busy kill_slot show_slot
advance alive fork (starts i) p =
    if ltb i minspareserver then (starts (i + 1), (add_1_server fork p).0) else (waits, p)
advance alive fork waits p = (waits, p)
advance alive fork (scans i idle busy) p =
    let q = record p { idle_count = idle; busy_count = busy } in
    if ltb i maxclients
    then scan_slot alive i idle busy p (get_elem? p.serverpool i)
    else (decide q, q)
advance alive fork (tests_busy i idle busy) p =
    (test_busy i idle busy (get_elem? p.serverpool i), p)
advance alive fork (shrinks i) p =
    if ltb i (p.idle_count - maxspareserver)
    then (if p.idle_count == 0 then shrinks (i + 1) else kills i 0, p)
    else (shows 0, p)
advance alive fork (kills i j) p =
    if ltb j maxclients then kill_slot i j p (get_elem? p.serverpool j) else (shrinks (i + 1), p)
advance alive fork (grows i) p =
    if ltb i (minspareserver - p.idle_count)
    then (grows (i + 1), (add_1_server fork p).0)
    else (shows 0, p)
advance alive fork (shows j) p =
    if ltb j maxclients
    then (shows (j + 1), show_slot p (get_elem? p.serverpool j))
    else (waits, record p { shown = p.shown ++ (10 ∷ []) })
advance alive fork aborted p = (aborted, p)

-- `between` behind a step to this phase.
unfoldable pub marked : Phase → Bool → Bool
marked (tests_busy i idle busy) b = false
marked _ b = b

unfoldable pub move : Bool → Option ℕ → System → System
unfolding advance marked
move alive fork s =
    let out = advance alive fork s.phase s.pool in
    record s { pool = out.1; phase = out.0; between = marked out.0 s.between }

-- serverpool[pos].state = … in `server_job`, of a child at this slot or of one that has lost it.
unfoldable pub store : ℕ → ℕ → Server → System → System
store pos state server s = record s {
  pool = record s.pool { serverpool = set s.pool.serverpool pos (record server { state = state }) };
  unreported = s.unreported + 1;
  between = true;
}

abbrev pub is_waiting : Phase → Bool
is_waiting waits = true
is_waiting _ = false

-- kill(ppid, SIG_NOTIFY). Where the signal is not blocked and the parent does not wait, `usr2_handler`
-- returns at once, and the signal is gone.
unfoldable pub notify : ℕ → System → System
notify others s = record s {
  pending = if s.blocked || is_waiting s.phase then true else s.pending;
  unreported = others;
}

-- `sigsuspend` returns.
unfoldable pub wake : System → System
wake s = record s { phase = scans 0 0 0; pending = false }

pub data Step : System → System → Type 0 where
  stores :
      {s : System} (pos state : ℕ) (server : Server)
      → get_elem? s.pool.serverpool pos ≡ some server
      → state ≤ 1
      → Step s (store pos state server s)
  notifies : {s : System} (others : ℕ) → s.unreported ≡ suc others → Step s (notify others s)
  wakes : {s : System} → s.phase ≡ waits → s.pending ≡ true → Step s (wake s)
  moves : {s : System} (alive : Bool) (fork : Option ℕ) → Step s (move alive fork s)

-- Which calls of the set-up succeed.
pub record Setup : Type 0 where
  pub mmap : Bool
  pub socket : Bool
  pub setsockopt : Bool
  pub bind : Bool
  pub listen : Bool

-- The call behind which `main` exits with status 1, or the state in which it begins to start children.
pub data SetUp : Type 0 where
  mmap_failed : SetUp
  socket_failed : SetUp
  setsockopt_failed : SetUp
  bind_failed : SetUp
  listen_failed : SetUp
  ready : System → SetUp

-- sigprocmask(SIG_BLOCK, &set, &oset)
unfoldable pub block : System → System
block s = record s { blocked = true }

-- `main` before the signal is blocked; the array is that of `fresh` once it is mapped.
abbrev pub loaded : System
loaded = record {
  pool = fresh;
  phase = starts 0;
  blocked = false;
  pending = false;
  unreported = 0;
  between = false;
}

unfoldable pub set_up : Setup → SetUp
unfolding block
set_up calls =
    if calls.mmap
    then if calls.socket
      then if calls.setsockopt
        then if calls.bind
          then if calls.listen then ready (block loaded) else listen_failed
          else bind_failed
        else setsockopt_failed
      else socket_failed
    else mmap_failed

pub data Reach (calls : Setup) : System → Type 0 where
  begin : (s : System) → set_up calls ≡ ready s → Reach calls s
  later : {s t : System} → Reach calls s → Step s t → Reach calls t
