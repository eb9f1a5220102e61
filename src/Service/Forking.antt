-- ===== src/Service/Forking.antt =====
-- 35.网络编程专题/流式套接字_并发版/server.c: the parent accepts, and forks a child for each connection. A
-- connection is a number; whether its `send` fails belongs to it, and whether an `accept` or a `fork`
-- fails is an argument.
pub mod Each
pub mod Finish
mod Tests
use apue_li_huiqin.Service.Serial.{
  Setup, Exit, socket_failed, setsockopt_failed, bind_failed, listen_failed,
}
use apue_li_huiqin.Base.{
  ◌≡◌, ℕ, zero, suc, ◌+◌, Bool, true, false, Option, none, some, List, [], ◌∷◌, ◌++◌, if◌then◌else◌,
  set, get_elem?,
}

-- The parent in `accept`, with a connection before `fork`, or behind its `exit(1)`.
pub data Parent : Type 0 where
  accepting : Parent
  accepted : ℕ → Parent
  ended : Parent

-- A child with its connection, or behind its `exit`.
pub data Child : Type 0 where
  working : ℕ → Child
  left : Child

-- `refused` are the connections that the parent took and could not hand on.
pub record Server : Type 0 where
  pub backlog : List ℕ
  pub parent : Parent
  pub children : List Child
  pub sent : List ℕ
  pub dropped : List ℕ
  pub refused : List ℕ

-- `accept` that does not fail: it blocks where there is no connection.
unfoldable pub accept : List ℕ → Server → Server
accept [] s = s
accept (c ∷ cs) s = record s { backlog = cs; parent = accepted c }

-- A step of the parent; `fails` is what its next call does.
unfoldable pub parent_step : Bool → Parent → Server → Server
unfolding accept
parent_step false accepting s = accept s.backlog s
parent_step true accepting s = record s { parent = ended }
parent_step false (accepted c) s = record s {
  parent = accepting;
  children = s.children ++ working c ∷ [];
}
parent_step true (accepted c) s = record s { parent = ended; refused = s.refused ++ c ∷ [] }
parent_step fails ended s = s

-- Child `k` in `server_job`: it exits with status 1 or 0, and its connection is closed.
unfoldable pub child_step : (ℕ → Bool) → ℕ → Option Child → Server → Server
child_step fails k (some (working c)) s =
    let children = set s.children k left in
    if fails c
    then record s { children = children; dropped = s.dropped ++ c ∷ [] }
    else record s { children = children; sent = s.sent ++ c ∷ [] }
child_step fails k (some left) s = s
child_step fails k none s = s

-- The set-up of the socket; `none` where every call succeeds, and else the call behind which the process
-- exits with status 1.
unfoldable pub set_up : Setup → Option Exit
set_up calls =
    if calls.socket
    then if calls.setsockopt
      then if calls.bind
        then if calls.listen then none else some listen_failed
        else some bind_failed
      else some setsockopt_failed
    else some socket_failed

-- The states of a run behind a set-up that succeeds, and the connections that have come. The parent and the children go on in any order.
pub data Reach (calls : Setup) (fails : ℕ → Bool) : List ℕ → Server → Type 0 where
  begin :
      set_up calls ≡ none
      → Reach calls fails [] (record {
        backlog = [];
        parent = accepting;
        children = [];
        sent = [];
        dropped = [];
        refused = [];
      })
  comes :
      {arrived : List ℕ} {s : Server} (c : ℕ)
      → Reach calls fails arrived s
      → Reach calls fails (arrived ++ c ∷ []) (record s { backlog = s.backlog ++ c ∷ [] })
  parent_runs :
      {arrived : List ℕ} {s : Server} (call_fails : Bool)
      → Reach calls fails arrived s
      → Reach calls fails arrived (parent_step call_fails s.parent s)
  child_runs :
      {arrived : List ℕ} {s : Server} (k : ℕ)
      → Reach calls fails arrived s
      → Reach calls fails arrived (child_step fails k (get_elem? s.children k) s)
