-- ===== src/Semaphore.antt =====
-- 31.线程专题/mysem/mysem.c, a counting semaphore over a mutex and a condition variable, and main.c beside
-- it, which starts a thread for each number of an interval and lets only so many run at a time. A
-- function of mysem.c is one step under its mutex; a `mysem_sub` that would wait changes nothing. Values
-- and numbers are from 0 on, as main.c has them. A turn of a thread is what it does between two points
-- where others may run; the thread that `pthread_cond_broadcast` can wake is the main thread. The loop
-- of `func` that looks for a divisor is that of 31.线程专题/primer_1_pool_cond.c.
pub mod Bounded
mod Tests
use apue_li_huiqin.Base.{
  ℕ, zero, suc, ◌+◌, ◌-◌, Bool, true, false, Option, none, some, List, [], ◌∷◌, ◌++◌, leb, ltb,
  if◌then◌else◌, set, get_elem?,
}
use apue_li_huiqin.Primes.{primer_flag}

-- `struct mysem_st` without its mutex and condition.
pub record Mysem : Type 0 where
  pub value : ℕ

-- `mysem_init`; the `Bool` is what `malloc` answers, `none` is NULL.
unfoldable pub mysem_init : Bool → ℕ → Option Mysem
mysem_init memory initval = if memory then some (record { value = initval }) else none

unfoldable pub mysem_add : Mysem → ℕ → Mysem × ℕ
mysem_add me n = (record me { value = me.value + n }, n)

-- `mysem_sub`; `none`: the caller waits.
unfoldable pub mysem_sub : Mysem → ℕ → Option (Mysem × ℕ)
mysem_sub me n = if ltb me.value n then none else some (record me { value = me.value - n }, n)

-- A thread of `func` that tests a number, that has yet to call `mysem_add`, and that has left.
pub data Thread : Type 0 where
  testing : ℕ → Thread
  posting left : Thread

-- The main thread in its first loop, asleep in `mysem_sub`, and in its second loop.
pub data Main : Type 0 where
  starting asleep joining : Main

pub record System : Type 0 where
  pub sem : Mysem
  pub i : ℕ  -- of the first loop of `main`
  pub main : Main
  pub threads : List Thread  -- by the index in `tid`
  pub printed : List ℕ

-- The body of the first loop, at what `mysem_sub` answers.
unfoldable pub create : Option (Mysem × ℕ) → System → System
create none s = record s { main = asleep }
create (some (sem, n)) s = record s {
  sem = sem;
  i = s.i + 1;
  threads = s.threads ++ testing s.i ∷ [];
}

unfoldable pub main_turn : ℕ → Main → System → System
unfolding create mysem_sub
main_turn last starting s =
    if leb s.i last then create (mysem_sub s.sem 1) s else record s { main = joining }
main_turn last asleep s = s
main_turn last joining s = s

abbrev pub wake : Main → Main
wake asleep = starting
wake starting = starting
wake joining = joining

-- A turn of thread `t` of `func`: the test with its output, or `mysem_add` and the end.
unfoldable pub func_turn : ℕ → Option Thread → System → System
unfolding mysem_add
func_turn t none s = s
func_turn t (some left) s = s
func_turn t (some (testing n)) s = record s {
  threads = set s.threads t posting;
  printed = if primer_flag n then s.printed ++ n ∷ [] else s.printed;
}
func_turn t (some posting) s = record s {
  sem = (mysem_add s.sem 1).0;
  main = wake s.main;
  threads = set s.threads t left;
}

-- A turn of the main thread, a turn of another, or a waking of the main thread for no reason.
pub data Step (last : ℕ) (s : System) : System → Type 0 where
  main_runs : Step last s (main_turn last s.main s)
  func_runs : (t : ℕ) → Step last s (func_turn t (get_elem? s.threads t) s)
  wake_up : Step last s (record s { main = wake s.main })

-- The states of a run with the semaphore that `mysem_init` returned for `n`.
pub data Reach (sem : Mysem) (first last : ℕ) : System → Type 0 where
  begin :
      Reach sem first last
        (record { sem = sem; i = first; main = starting; threads = []; printed = [] })
  next : {s t : System} → Reach sem first last s → Step last s t → Reach sem first last t
