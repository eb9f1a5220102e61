-- ===== src/Primes/Polling.antt =====
-- 31.线程专题/primer_1_pool.c: the numbers are handed out as in primer_1_pool_cond.c, but whoever finds
-- `num` not ready gives the mutex up, yields, and tries again. The states are those of Primes, in which
-- nobody waits for a condition.
pub mod Refines
use apue_li_huiqin.Base.{
  ℕ, ◌+◌, Option, none, some, List, [], ◌∷◌, ◌++◌, leb, if◌then◌else◌, set, get_elem?,
}
use apue_li_huiqin.Primes.{
  primer_flag, Num, empty, filled, closed, Worker, awake, asleep, busy, gone, Main, putting,
  sleeping, joining, System, fresh,
}

-- The main thread behind its loop: the next number, or -1 behind `last`.
unfoldable pub put_polling : ℕ → System → System
put_polling last s =
    if leb s.i last
    then record s { num = filled s.i; i = s.i + 1 }
    else record s { num = closed; main = joining }

-- `while (num != 0)` unlocks, yields and locks again.
unfoldable pub main_polling : ℕ → Num → Main → System → System
unfolding put_polling
main_polling last empty putting s = put_polling last s
main_polling last (filled n) putting s = s
main_polling last closed putting s = s
main_polling last num sleeping s = s
main_polling last num joining s = s

-- `while (num == 0)` does the same in `func`; `w` is the thread.
unfoldable pub take_polling : ℕ → Num → System → System
take_polling w empty s = s
take_polling w closed s = record s { workers = set s.workers w gone }
take_polling w (filled n) s = record s {
  num = empty;
  workers = set s.workers w (busy n);
  taken = s.taken ++ n ∷ [];
}

unfoldable pub func_polling : ℕ → Option Worker → System → System
unfolding take_polling primer_flag
func_polling w none s = s
func_polling w (some awake) s = take_polling w s.num s
func_polling w (some asleep) s = s
func_polling w (some gone) s = s
func_polling w (some (busy n)) s = record s {
  workers = set s.workers w awake;
  printed = if primer_flag n then s.printed ++ n ∷ [] else s.printed;
}

-- The states of a run.
pub data PollReach (threads first last : ℕ) : System → Type 0 where
  begin : PollReach threads first last (fresh threads first)
  main_runs :
      {s : System}
      → PollReach threads first last s
      → PollReach threads first last (main_polling last s.num s.main s)
  func_runs :
      {s : System} (w : ℕ)
      → PollReach threads first last s
      → PollReach threads first last (func_polling w (get_elem? s.workers w) s)
