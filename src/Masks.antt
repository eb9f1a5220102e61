-- ===== src/Masks.antt =====
-- block.c, block_2.c, suspend.c and real_signal.c of 30.信号专题: programs that print rows of five stars, with
-- SIGINT blocked in a row, and a handler that prints a mark. The kernel keeps one bit for a blocked signal,
-- however often it is sent. A program is the list of its calls; a signal may come before any of them, and
-- `sleep` only makes room for that.
pub mod Rows
pub mod Pace
pub mod Wake
mod Tests
use apue_li_huiqin.Base.{ℕ, zero, suc, Bool, true, false, List, [], ◌∷◌, ◌++◌, if◌then◌else◌}

-- `write(1, "*", 1)`, `write(1, "\n", 1)`, and `write(1, "!", 1)` of the handler.
pub data Mark : Type 0 where
  star : Mark
  newline : Mark
  bang : Mark

pub data Action : Type 0 where
  print : Mark → Action
  block : Action  -- sigprocmask(SIG_BLOCK, &set, …)
  unblock : Action  -- sigprocmask(SIG_UNBLOCK, &set, …)
  restore : (blocks : Bool) → Action  -- sigprocmask(SIG_SETMASK, &saveset, NULL)
  pause : Action
  sigsuspend : Action  -- with `oset`, in which SIGINT is not blocked

-- `suspended` holds the mask that `sigsuspend` puts back.
pub data Wait : Type 0 where
  awake : Wait
  paused : Wait
  suspended : (blocks : Bool) → Wait

-- A process: the mask and the pending bit for SIGINT, what it waits for, the calls to come, and its output.
pub record Process : Type 0 where
  pub blocked : Bool
  pub pending : Bool
  pub wait : Wait
  pub todo : List Action
  pub out : List Mark

abbrev pub behind : List Action → List Action
behind [] = []
behind (a ∷ rest) = rest

unfoldable pub sig_handler : Process → Process
sig_handler s = record s { out = s.out ++ bang ∷ [] }

-- SIGINT comes.
unfoldable pub arrive : Wait → Bool → Process → Process
unfolding sig_handler
arrive awake true s = record s { pending = true }
arrive awake false s = sig_handler s
arrive paused true s = record s { pending = true }
arrive paused false s = sig_handler (record s { wait = awake; todo = behind s.todo })
arrive (suspended blocks) b s =
    sig_handler (record s { blocked = blocks; wait = awake; todo = behind s.todo })

-- The mask lets SIGINT through: if it is pending, it is delivered at once.
unfoldable pub let_through : Bool → List Action → Process → Process
unfolding sig_handler
let_through true rest s = sig_handler (record s { blocked = false; pending = false; todo = rest })
let_through false rest s = record s { blocked = false; todo = rest }

-- With the mask of `sigsuspend`, a pending signal is delivered at once and ends the wait.
unfoldable pub sigsuspend_call : Bool → List Action → Process → Process
unfolding sig_handler
sigsuspend_call true rest s = sig_handler (record s { pending = false; todo = rest })
sigsuspend_call false rest s = record s { blocked = false; wait = suspended s.blocked }

-- The next call.
unfoldable pub call : Action → List Action → Process → Process
unfolding let_through sigsuspend_call
call (print m) rest s = record s { todo = rest; out = s.out ++ m ∷ [] }
call block rest s = record s { blocked = true; todo = rest }
call unblock rest s = let_through s.pending rest s
call (restore true) rest s = record s { blocked = true; todo = rest }
call (restore false) rest s = let_through s.pending rest s
call pause rest s = record s { wait = paused }
call sigsuspend rest s = sigsuspend_call s.pending rest s

unfoldable pub turn : Wait → List Action → Process → Process
unfolding call
turn awake (a ∷ rest) s = call a rest s
turn awake [] s = s
turn paused todo s = s
turn (suspended blocks) todo s = s

-- What happens, in its order: `true` is a signal, and `false` a turn of the program.
unfoldable pub run : List Bool → Process → Process
unfolding arrive turn
run [] s = s
run (true ∷ es) s = run es (arrive s.wait s.blocked s)
run (false ∷ es) s = run es (turn s.wait s.todo s)

abbrev pub row : List Action
row = print star ∷ print star ∷ print star ∷ print star ∷ print star ∷ print newline ∷ []

-- The loops, for so many rounds, and what comes behind them.
unfoldable pub block_rows : ℕ → List Action → List Action
block_rows zero rest = rest
block_rows (suc n) rest = block ∷ (row ++ (unblock ∷ block_rows n rest))

unfoldable pub suspend_rows : ℕ → List Action → List Action
suspend_rows zero rest = rest
suspend_rows (suc n) rest = row ++ (sigsuspend ∷ suspend_rows n rest)

unfoldable pub real_signal_rows : ℕ → List Action → List Action
real_signal_rows zero rest = rest
real_signal_rows (suc n) rest = block ∷ (row ++ (unblock ∷ pause ∷ real_signal_rows n rest))

-- `main` of the four programs, for 1000 rounds in the source and a process that starts with this mask.
unfoldable pub block_main : ℕ → Bool → List Action
unfolding block_rows
block_main n blocks = unblock ∷ block_rows n (restore blocks ∷ [])

unfoldable pub block_2_main : ℕ → Bool → List Action
unfolding block_rows
block_2_main n blocks = unblock ∷ block_rows n (restore blocks ∷ [])

unfoldable pub suspend_main : ℕ → Bool → List Action
unfolding suspend_rows
suspend_main n blocks = unblock ∷ block ∷ suspend_rows n (restore blocks ∷ [])

-- `unblocks` and `blocks` are what stands for SIGINT in `saveset`, which is never set.
unfoldable pub real_signal_main : ℕ → Bool → Bool → List Action
unfolding real_signal_rows
real_signal_main n unblocks blocks =
    let loop = real_signal_rows n (restore blocks ∷ []) in if unblocks then unblock ∷ loop else loop

unfoldable pub begin : Bool → List Action → Process
begin blocks todo = record {
  blocked = blocks;
  pending = false;
  wait = awake;
  todo = todo;
  out = [];
}
