-- ===== src/Datagram/Queue.antt =====
-- 34.进、线程通信专题/msg: the same message through a message queue of the kernel, on one machine, so that
-- numbers stay as they are. The receiver makes the queue, and it holds the messages in their order.
pub mod Order
use apue_li_huiqin.Base.{
  ℕ, suc, ◌+◌, ◌%◌, Bool, true, false, List, [], ◌∷◌, ◌++◌, map, length, drop, if◌then◌else◌,
}
use apue_li_huiqin.Datagram.{until_zero, Shown}
use apue_li_huiqin.Datagram.Fixed.{strcpy, alan}

-- struct msg_st; the array `name` has 32 bytes.
pub record Message : Type 0 where
  pub mtype : ℕ
  pub name : List ℕ
  pub math : ℕ
  pub chinese : ℕ

-- The receiver before `msgget`, in `msgrcv`, or behind its `exit(1)`.
pub data Receiver : Type 0 where
  starting : Receiver
  receiving : Receiver
  ended : Receiver

-- The queue of the kernel, which stays when a process ends; what the receiver has printed; and how many
-- senders have found no queue.
pub record System : Type 0 where
  pub created : Bool
  pub queue : List Message
  pub receiver : Receiver
  pub shown : List Shown
  pub turned_away : ℕ

pub data Event : Type 0 where
  sender : (field : List ℕ) (rand_math rand_chinese : ℕ) (msgsnd : Bool) → Event
  receiver_runs : (succeeds : Bool) → Event

-- `sbuf` of snder.c, whose array `name` has held `field`.
unfoldable pub message : List ℕ → ℕ → ℕ → Message
unfolding strcpy
message field rand_math rand_chinese = record {
  mtype = 1;
  name = strcpy alan field;
  math = rand_math % 100;
  chinese = rand_chinese % 100;
}

-- The three prints of rcver.c.
unfoldable pub show : Message → Shown
unfolding until_zero
show m = record { name = until_zero m.name; math = m.math; chinese = m.chinese }

-- `main` of snder.c: `msgget` without IPC_CREAT, and `msgsnd`.
unfoldable pub snder : Message → Bool → System → System
snder m msgsnd s =
    if s.created
    then if msgsnd then record s { queue = s.queue ++ m ∷ [] } else s
    else record s { turned_away = s.turned_away + 1 }

-- `msgrcv` that does not fail: it takes the first message, and blocks where there is none.
unfoldable pub msgrcv : List Message → System → System
unfolding show
msgrcv [] s = s
msgrcv (m ∷ ms) s = record s { queue = ms; shown = s.shown ++ show m ∷ [] }

-- The next call of rcver.c.
unfoldable pub rcver : Bool → Receiver → System → System
unfolding msgrcv
rcver true starting s = record s { created = true; receiver = receiving }
rcver true receiving s = msgrcv s.queue s
rcver false starting s = record s { receiver = ended }
rcver false receiving s = record s { receiver = ended }
rcver succeeds ended s = s

unfoldable pub step : Event → System → System
unfolding snder message rcver
step (sender field rand_math rand_chinese msgsnd) s =
    snder (message field rand_math rand_chinese) msgsnd s
step (receiver_runs succeeds) s = rcver succeeds s.receiver s

unfoldable pub run : List Event → System → System
unfolding step
run [] s = s
run (e ∷ es) s = run es (step e s)
