-- ===== src/Service.antt =====
-- 35.网络编程专题/静态进程池/server.c: a fixed number of processes that accept on one socket. A connection is
-- a number; `backlog` is what the kernel holds ready for `accept`, which gives each connection to one
-- process. Whether an `accept` or a `send` fails is an argument.
pub mod Forking
pub mod Once
pub mod Serial
mod Tests
use apue_li_huiqin.Service.Serial.{
  Setup, Exit, socket_failed, setsockopt_failed, bind_failed, listen_failed,
}
use apue_li_huiqin.Base.{
  ℕ, zero, suc, ◌+◌, Bool, true, false, Option, none, some, List, [], ◌∷◌, ◌++◌, ◌≡◌, if◌then◌else◌,
  set, get_elem?,
}

-- A process in `accept`, in `server_job` with a connection, or behind its `exit(1)`.
pub data Process : Type 0 where
  accepting : Process
  serving : ℕ → Process
  gone : Process

-- The sockets and processes; `sent` and `dropped` are the connections whose `send` has succeeded or failed.
pub record Server : Type 0 where
  pub backlog : List ℕ
  pub processes : List Process
  pub sent : List ℕ
  pub dropped : List ℕ

-- The loop of `main` from round `i` on, for so many rounds: it ends at the first `fork` that fails, with
-- the parent, but the children that it has started stay.
unfoldable pub start : ℕ → ℕ → (ℕ → Bool) → List Process
start zero i forks = []
start (suc n) i forks =
    let others = start n (i + 1) forks in if forks i then accepting ∷ others else []

-- `accept` that does not fail: it blocks where there is no connection.
unfoldable pub accept : ℕ → List ℕ → Server → Server
accept k [] s = s
accept k (c ∷ cs) s = record s { backlog = cs; processes = set s.processes k (serving c) }

-- A step of process `k` in `server_loop` and `server_job`; `fails` is what its next call does.
unfoldable pub server_loop : ℕ → Bool → Option Process → Server → Server
unfolding accept
server_loop k fails none s = s
server_loop k false (some accepting) s = accept k s.backlog s
server_loop k true (some accepting) s = record s { processes = set s.processes k gone }
server_loop k false (some (serving c)) s = record s {
  processes = set s.processes k accepting;
  sent = s.sent ++ c ∷ [];
}
server_loop k true (some (serving c)) s = record s {
  processes = set s.processes k gone;
  dropped = s.dropped ++ c ∷ [];
}
server_loop k fails (some gone) s = s

-- The set-up of the socket; `none` where every call succeeds, and else the call behind which the process
-- exits with status 1.
unfoldable pub set_up : Setup → Option Exit
set_up calls =
    if calls.socket
    then if calls.setsockopt
      then if calls.bind
        then if calls.listen then none else some listen_failed
        else some bind_failed
      else some setsockopt_failed
    else some socket_failed

-- The states of a run behind a set-up that succeeds, with `procnum` rounds of `main`, and the connections
-- that have come.
pub data Reach (calls : Setup) (procnum : ℕ) (forks : ℕ → Bool) : List ℕ → Server → Type 0 where
  begin :
      set_up calls ≡ none
      → Reach calls procnum forks []
          (record { backlog = []; processes = start procnum 0 forks; sent = []; dropped = [] })
  comes :
      {arrived : List ℕ} {s : Server} (c : ℕ)
      → Reach calls procnum forks arrived s
      → Reach calls procnum forks (arrived ++ c ∷ []) (record s { backlog = s.backlog ++ c ∷ [] })
  runs :
      {arrived : List ℕ} {s : Server} (k : ℕ) (fails : Bool)
      → Reach calls procnum forks arrived s
      → Reach calls procnum forks arrived (server_loop k fails (get_elem? s.processes k) s)
