-- ===== src/Primes.antt =====
-- 31.线程专题/primer_1_pool_cond.c: the main thread hands the numbers of an interval one by one, through
-- the variable `num` under a mutex and a condition variable, to threads that look for primes. The
-- threads of `workers` and the main thread are what runs; a turn of a thread is what it does from one
-- point where it has the mutex, or wakes, to the next where it gives it up. `pthread_cond_signal` wakes
-- one of the waiting threads, if any waits; `pthread_cond_broadcast` wakes them all; a wake-up for no
-- reason is a turn too. The interval, which begins above 0, and the number of threads are parameters.
pub mod Trial
pub mod Counts
pub mod Live
pub mod Held
pub mod Once
pub mod Polling
pub mod Shares
mod Tests
use apue_li_huiqin.Base.{
  ℕ, zero, suc, ◌+◌, ◌-◌, ◌/◌, ◌%◌, ◌≤◌, ◌≡◌, ◌⊎◌, Bool, true, false, Option, none, some, List, [],
  ◌∷◌, ◌++◌, leb, ◌==◌, if◌then◌else◌, set, get_elem?, map, count_by, replicate,
}

-- `for (j = 2; j <= i/2; j++)` of `func`, from `j` on, for so many rounds.
unfoldable pub trial : ℕ → ℕ → ℕ → Bool
trial zero j i = true
trial (suc n) j i = let more = trial n (j + 1) i in if i % j == 0 then false else more

unfoldable pub primer_flag : ℕ → Bool
unfolding trial
primer_flag i = trial (i / 2 - 1) 2 i

-- `num`: 0, a number, or -1.
pub data Num : Type 0 where
  empty : Num
  filled : ℕ → Num
  closed : Num

-- A thread that can run, waits for the condition, has taken a number, or has left its loop.
pub data Worker : Type 0 where
  awake asleep : Worker
  busy : ℕ → Worker
  gone : Worker

-- The main thread: it puts numbers and at last -1, it waits for the condition, or it joins the others.
pub data Main : Type 0 where
  putting sleeping joining : Main

pub record System : Type 0 where
  pub num : Num
  pub i : ℕ  -- of the loop in `main`
  pub main : Main
  pub workers : List Worker
  pub taken : List ℕ  -- what the threads have taken from `num`, in order
  pub printed : List ℕ

-- A thread is woken.
abbrev pub wake : Worker → Worker
wake asleep = awake
wake awake = awake
wake (busy n) = busy n
wake gone = gone

abbrev pub wake_main : Main → Main
wake_main sleeping = putting
wake_main putting = putting
wake_main joining = joining

abbrev pub woken_at : List Worker → ℕ → Option Worker → List Worker
woken_at ws k none = ws
woken_at ws k (some w) = set ws k (wake w)

-- `pthread_cond_signal`, where thread `k` is the one that it wakes.
abbrev pub signal : ℕ → List Worker → List Worker
signal k ws = woken_at ws k (get_elem? ws k)

-- The main thread after the wait: the next number, or -1 behind `last`.
unfoldable pub put : ℕ → ℕ → System → System
put last k s =
    if leb s.i last
    then record s { num = filled s.i; i = s.i + 1; workers = signal k s.workers }
    else record s { num = closed; main = joining; workers = map wake s.workers }

-- A turn of the main thread with the mutex: `while (num != 0) pthread_cond_wait(...)`.
unfoldable pub main_at : ℕ → ℕ → Num → System → System
unfolding put
main_at last k empty s = put last k s
main_at last k (filled n) s = record s { main = sleeping }
main_at last k closed s = record s { main = sleeping }

unfoldable pub main_turn : ℕ → ℕ → Main → System → System
unfolding main_at
main_turn last k putting s = main_at last k s.num s
main_turn last k sleeping s = s
main_turn last k joining s = s

-- A turn of thread `w` of `func` with the mutex.
unfoldable pub func_at : ℕ → Num → System → System
func_at w empty s = record s { workers = set s.workers w asleep }
func_at w closed s = record s { workers = set s.workers w gone }
func_at w (filled n) s = record s {
  num = empty;
  main = wake_main s.main;
  workers = map wake (set s.workers w (busy n));
  taken = s.taken ++ n ∷ [];
}

-- A turn of thread `w`; one that has a number tries it, and prints it if it is a prime.
unfoldable pub func_turn : ℕ → Option Worker → System → System
unfolding func_at primer_flag
func_turn w none s = s
func_turn w (some awake) s = func_at w s.num s
func_turn w (some asleep) s = s
func_turn w (some gone) s = s
func_turn w (some (busy n)) s = record s {
  workers = set s.workers w awake;
  printed = if primer_flag n then s.printed ++ n ∷ [] else s.printed;
}

abbrev pub is_asleep : Worker → Bool
is_asleep asleep = true
is_asleep awake = false
is_asleep (busy n) = false
is_asleep gone = false

-- What may happen next: a turn of the main thread, where `k` is a waiting thread if one waits, a turn
-- of another thread, or a waking of either for no reason.
pub data Step (last : ℕ) (s : System) : System → Type 0 where
  main_runs :
      (k : ℕ)
      → (get_elem? s.workers k ≡ some asleep) ⊎ (count_by is_asleep s.workers ≡ 0)
      → Step last s (main_turn last k s.main s)
  func_runs : (w : ℕ) → Step last s (func_turn w (get_elem? s.workers w) s)
  wake_up : (k : ℕ) → Step last s (record s { workers = signal k s.workers })
  wake_up_main : Step last s (record s { main = wake_main s.main })

-- The begin of `main`, with `threads` threads.
abbrev pub fresh : ℕ → ℕ → System
fresh threads first = record {
  num = empty;
  i = first;
  main = putting;
  workers = replicate threads awake;
  taken = [];
  printed = [];
}

-- The states that a run can reach.
pub data Reach (threads first last : ℕ) : System → Type 0 where
  begin : Reach threads first last (fresh threads first)
  next : {s t : System} → Reach threads first last s → Step last s t → Reach threads first last t
