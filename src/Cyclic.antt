-- ===== src/Cyclic.antt =====
-- Threads that print letters in a fixed order: 31.线程专题/abcd_cond.c, with one variable under a mutex
-- and a condition variable, and 31.线程专题/abcd.c, with a ring of mutexes, each unlocked by the thread
-- before. The number of threads is `n`. A mutex is locked or not: that a thread unlocks the mutex that
-- another has locked is taken to work, as abcd.c relies on it. The programs do not end by themselves.
pub mod Letters
pub mod Cond
pub mod Ring
mod Tests
use apue_li_huiqin.Base.{
  ℕ, zero, suc, ◌+◌, ◌≡◌, Bool, true, false, Option, none, some, List, [], ◌∷◌, ◌++◌, ◌==◌,
  if◌then◌else◌, set, get_elem?, map, replicate,
}

-- `next` of both programs, with `THRNUM` threads.
unfoldable pub next : ℕ → ℕ → ℕ
next thrnum k = if k + 1 == thrnum then 0 else k + 1

-- `int c = 'a' + (int)p`
unfoldable pub letter : ℕ → ℕ
letter k = b'a' + k

-- A thread of abcd_cond.c that can run, or waits for the condition.
pub data Status : Type 0 where
  awake asleep : Status

abbrev pub woken : Status → Status
woken s = awake

-- abcd_cond.c: `num`, the threads, and what is written.
pub record Shared : Type 0 where
  pub num : ℕ
  pub threads : List Status
  pub out : List ℕ

-- What thread `k` does under the mutex: it waits, or it writes, passes `num` on and broadcasts.
unfoldable pub func_cond : ℕ → ℕ → Shared → Shared
unfolding next letter
func_cond thrnum k s =
    if s.num == k
    then record s {
      num = next thrnum s.num;
      threads = map woken s.threads;
      out = s.out ++ letter k ∷ [];
    }
    else record s { threads = set s.threads k asleep }

-- A turn of a thread that can run, or a waking of one for no reason.
pub data CondStep (n : ℕ) (s : Shared) : Shared → Type 0 where
  turn : (k : ℕ) → get_elem? s.threads k ≡ some awake → CondStep n s (func_cond n k s)
  wake_up : (k : ℕ) → CondStep n s (record s { threads = set s.threads k awake })

pub data CondReach (n : ℕ) : Shared → Type 0 where
  begin : CondReach n (record { num = 0; threads = replicate n awake; out = [] })
  after : {s t : Shared} → CondReach n s → CondStep n s t → CondReach n t

-- A thread of abcd.c before `pthread_mutex_lock`, before `write`, and before `pthread_mutex_unlock`.
pub data At : Type 0 where
  at_lock at_write at_unlock : At

-- abcd.c: which mutexes are locked, where the threads are, and what is written. `started` says that
-- `main` has unlocked the first mutex.
pub record Chain : Type 0 where
  pub mux : List Bool
  pub threads : List At
  pub started : Bool
  pub out : List ℕ

-- A step of thread `k`, with what its mutex holds; a locked one makes it wait.
unfoldable pub func_ring : ℕ → ℕ → Option At → Option Bool → Chain → Chain
unfolding next letter
func_ring thrnum k (some at_lock) (some false) s = record s {
  mux = set s.mux k true;
  threads = set s.threads k at_write;
}
func_ring thrnum k (some at_lock) (some true) s = s
func_ring thrnum k (some at_lock) none s = s
func_ring thrnum k (some at_write) m s = record s {
  threads = set s.threads k at_unlock;
  out = s.out ++ letter k ∷ [];
}
func_ring thrnum k (some at_unlock) m s = record s {
  mux = set s.mux (next thrnum k) false;
  threads = set s.threads k at_lock;
}
func_ring thrnum k none m s = s

-- `pthread_mutex_unlock(mux)` in `main`, which it does once.
unfoldable pub main_ring : Bool → Chain → Chain
main_ring false s = record s { mux = set s.mux 0 false; started = true }
main_ring true s = s

pub data RingStep (n : ℕ) (s : Chain) : Chain → Type 0 where
  main : RingStep n s (main_ring s.started s)
  func : (k : ℕ) → RingStep n s (func_ring n k (get_elem? s.threads k) (get_elem? s.mux k) s)

-- `main` locks each mutex before it creates the thread.
pub data RingReach (n : ℕ) : Chain → Type 0 where
  begin :
      RingReach n (record {
        mux = replicate n true;
        threads = replicate n at_lock;
        started = false;
        out = [];
      })
  after : {s t : Chain} → RingReach n s → RingStep n s t → RingReach n t
