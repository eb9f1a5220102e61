-- ===== src/Service/Serial.antt =====
-- `main` of 35.网络编程专题/流式套接字/server.c: the set-up of the socket, and the loop that serves one
-- connection after the other. The answers of `accept`, and of `send` for each connection, are a list; at
-- its end the server blocks in `accept`.
pub mod Whole
mod Tests
use apue_li_huiqin.Base.{
  ℕ, zero, suc, Bool, true, false, Option, none, some, List, [], ◌∷◌, if◌then◌else◌,
}
use apue_li_huiqin.Stamp.{server_job}

-- Which of the calls succeed.
pub record Setup : Type 0 where
  pub socket : Bool
  pub setsockopt : Bool
  pub bind : Bool
  pub listen : Bool

-- The call behind which the process exits with status 1.
pub data Exit : Type 0 where
  socket_failed : Exit
  setsockopt_failed : Exit
  bind_failed : Exit
  listen_failed : Exit
  accept_failed : Exit
  send_failed : Exit

pub data Accept : Type 0 where
  failed : Accept
  client : (stamp : ℕ) (send : Option ℕ) → Accept  -- a connection at this time, and the answer of `send`

-- What each client has got, and how the run has ended; `none` is a server that blocks in `accept`.
pub record Run : Type 0 where
  pub texts : List (List ℕ)
  pub exit : Option Exit

unfoldable pub answered : Option (List ℕ) → Run → Run
answered none rest = record { texts = []; exit = some send_failed }
answered (some text) rest = record rest { texts = text ∷ rest.texts }

unfoldable pub serve : List Accept → Run
unfolding answered server_job
serve [] = record { texts = []; exit = none }
serve (failed ∷ rest) = record { texts = []; exit = some accept_failed }
serve (client stamp send ∷ rest) = answered (server_job stamp send) (serve rest)

unfoldable pub exits : Exit → Run
exits e = record { texts = []; exit = some e }

unfoldable pub main : Setup → List Accept → Run
unfolding exits serve
main calls accepts =
    if calls.socket
    then if calls.setsockopt
      then if calls.bind
        then if calls.listen then serve accepts else exits listen_failed
        else exits bind_failed
      else exits setsockopt_failed
    else exits socket_failed
