-- ===== src/Cyclic/Ring.antt =====
-- 31.线程专题/abcd.c is a machine with one token that goes round: in each state that it can reach one
-- mutex is unlocked, or one thread is behind its lock, and it is the one whose letter is next.
use mathlib.Core.Path.{subst}
use native.Mathlib.Nat.{mod-lt, zero-mod}
use apue_li_huiqin.Base.{
  ℕ, zero, suc, ◌%◌, ◌<◌, ◌≡◌, ◌≢◌, ◌⊎◌, refl, sym, ap, Bool, true, false, Option, none, some, [],
  arith, ◌==◌, length, length-replicate, get_elem?-replicate, set, set-set, set_same, get_elem?,
  get_elem?-set_self, get_elem?-set_ne, replicate, Bool-cases, inl, inr, ==_iff,
}
use apue_li_huiqin.Cyclic.{
  letter, At, at_lock, at_write, at_unlock, Chain, func_ring, main_ring, main, func, RingReach,
  begin, after,
}
use apue_li_huiqin.Cyclic.Letters.{letters, length-letters, next-mod}

-- Where the token is: `main` has it; the mutex whose turn it is has it; the thread behind that mutex has
-- it, before and after its `write`.
pub data Token : Type 0 where
  unsent free holding passing : Token

-- The state of the program, for the place of the token and the number of letters that were written when
-- it came there.
abbrev pub chain : ℕ → ℕ → Token → Chain
chain n m unsent = record {
  mux = replicate n true;
  threads = replicate n at_lock;
  started = false;
  out = [];
}
chain n m free = record {
  mux = set (replicate n true) (m % n) false;
  threads = replicate n at_lock;
  started = true;
  out = letters n m;
}
chain n m holding = record {
  mux = replicate n true;
  threads = set (replicate n at_lock) (m % n) at_write;
  started = true;
  out = letters n m;
}
chain n m passing = record {
  mux = replicate n true;
  threads = set (replicate n at_lock) (m % n) at_unlock;
  started = true;
  out = letters n (suc m);
}

-- A state that the token machine has.
abbrev pub IsChain : ℕ → Chain → Type 0
IsChain n s = (m : ℕ) × (t : Token) × (s ≡ chain n m t)

-- The entry of a list of equals, in range or not.
same_or_none :
    {A : Type 0} (n i : ℕ) (a : A)
    → (get_elem? (replicate n a) i ≡ some a) ⊎ (get_elem? (replicate n a) i ≡ none)
same_or_none zero i a = inr refl
same_or_none (suc n) zero a = inl refl
same_or_none (suc n) (suc i) a = same_or_none n i a

-- A thread that finds its mutex locked, or that there is not, changes nothing.
func_ring-waits :
    (n k : ℕ) (s : Chain) (o : Option At)
    → (o ≡ some at_lock) ⊎ (o ≡ none)
    → (m : Option Bool) → (m ≡ some true) ⊎ (m ≡ none)
    → func_ring n k o m s ≡ s
unfolding func_ring
func_ring-waits n k s o (inl e) m (inl f) = rw (e, f) refl
func_ring-waits n k s o (inl e) m (inr f) = rw (e, f) refl
func_ring-waits n k s o (inr e) m f = rw e refl

module _ (n m : ℕ) (pos : 0 < n) where
  -- The token, in the place that has it, moves on.
  free-step :
      func_ring n
        (m % n)
        (get_elem? (chain n m free).threads (m % n))
        (get_elem? (chain n m free).mux (m % n))
        (chain n m free)
      ≡ chain n m holding
  unfolding func_ring
  free-step =
      let lt : m % n < length (replicate n true) =
        omega (arith, mod-lt m pos, length-replicate n true) in
      rw
        (
          func_ring,
          get_elem?-replicate n (m % n) at_lock (mod-lt m pos),
          get_elem?-set_self (replicate n true) (m % n) false lt,
          set-set (replicate n true) (m % n) false true,
          set_same (replicate n true) (m % n) true
              (get_elem?-replicate n (m % n) true (mod-lt m pos)),
        )
        refl

  in_range : {A : Type 0} (a : A) → m % n < length (replicate n a)
  in_range a = omega (arith, mod-lt m pos, length-replicate n a)

  holding-step :
      func_ring n
        (m % n)
        (get_elem? (chain n m holding).threads (m % n))
        (get_elem? (chain n m holding).mux (m % n))
        (chain n m holding)
      ≡ chain n m passing
  unfolding func_ring letter
  holding-step =
      rw
        (
          func_ring,
          get_elem?-set_self (replicate n at_lock) (m % n) at_write (in_range at_lock),
          set-set (replicate n at_lock) (m % n) at_write at_unlock,
        )
        refl

  passing-step :
      func_ring n
        (m % n)
        (get_elem? (chain n m passing).threads (m % n))
        (get_elem? (chain n m passing).mux (m % n))
        (chain n m passing)
      ≡ chain n (suc m) free
  unfolding func_ring
  passing-step =
      rw
        (
          func_ring,
          get_elem?-set_self (replicate n at_lock) (m % n) at_unlock (in_range at_lock),
          set-set (replicate n at_lock) (m % n) at_unlock at_lock,
          set_same (replicate n at_lock) (m % n) at_lock
              (get_elem?-replicate n (m % n) at_lock (mod-lt m pos)),
          next-mod n m pos,
        )
        refl

  -- A thread that has not the token waits.
  other-step :
      (k : ℕ) (t : Token)
      → m % n ≢ k
      → func_ring n k
          (get_elem? (chain n m t).threads k)
          (get_elem? (chain n m t).mux k)
          (chain n m t)
        ≡ chain n m t
  other-step k unsent d =
      func_ring-waits n k (chain n m unsent) (get_elem? (replicate n at_lock) k)
        (same_or_none n k at_lock) (get_elem? (replicate n true) k) (same_or_none n k true)
  other-step k free d =
      func_ring-waits n k (chain n m free) (get_elem? (replicate n at_lock) k)
        (same_or_none n k at_lock) (get_elem? (set (replicate n true) (m % n) false) k)
        (rw (get_elem?-set_ne (replicate n true) (m % n) k false d) (same_or_none n k true))
  other-step k holding d =
      func_ring-waits n k (chain n m holding)
        (get_elem? (set (replicate n at_lock) (m % n) at_write) k)
        (rw (get_elem?-set_ne (replicate n at_lock) (m % n) k at_write d)
          (same_or_none n k at_lock))
        (get_elem? (replicate n true) k) (same_or_none n k true)
  other-step k passing d =
      func_ring-waits n k (chain n m passing)
        (get_elem? (set (replicate n at_lock) (m % n) at_unlock) k)
        (rw (get_elem?-set_ne (replicate n at_lock) (m % n) k at_unlock d)
          (same_or_none n k at_lock))
        (get_elem? (replicate n true) k) (same_or_none n k true)

  own-IsChain :
      (t : Token)
      → let s = chain n m t in
        IsChain n (func_ring n (m % n) (get_elem? s.threads (m % n)) (get_elem? s.mux (m % n)) s)
  own-IsChain unsent = (
    m,
    unsent,
    func_ring-waits n (m % n) (chain n m unsent) (get_elem? (replicate n at_lock) (m % n))
        (same_or_none n (m % n) at_lock) (get_elem? (replicate n true) (m % n))
        (same_or_none n (m % n) true),
  )
  own-IsChain free = (m, holding, free-step)
  own-IsChain holding = (m, passing, holding-step)
  own-IsChain passing = (suc m, free, passing-step)

-- A step of a thread, from a state of the machine to a state of the machine.
func-IsChain :
    (n m k : ℕ) (t : Token)
    → 0 < n
    → let s = chain n m t in IsChain n (func_ring n k (get_elem? s.threads k) (get_elem? s.mux k) s)
func-IsChain n m k t pos = elim (Bool-cases (m % n == k)) [
  | inr d ↦ (m, t, other-step n m pos k t (ground (arith, d)))
  | inl e ↦
      subst
        (λ j.
          let s = chain n m t in
          IsChain n (func_ring n j (get_elem? s.threads j) (get_elem? s.mux j) s))
        ((==_iff (m % n) k).0 e) (own-IsChain n m pos t)
]

main-IsChain :
    (n m : ℕ) (t : Token) → 0 < n → IsChain n (main_ring (chain n m t).started (chain n m t))
unfolding main_ring
main-IsChain n m unsent pos = (0, free, rw (main_ring, zero-mod n) refl)
main-IsChain n m free pos = (m, free, refl)
main-IsChain n m holding pos = (m, holding, refl)
main-IsChain n m passing pos = (m, passing, refl)

-- abcd.c implements the machine with one token: each state that it can reach, however the threads are
-- scheduled, is that of the machine for a place of the token and a number of letters.
RingReach-IsChain : {n : ℕ} {s : Chain} → 0 < n → RingReach n s → IsChain n s
RingReach-IsChain pos begin = (0, unsent, refl)
RingReach-IsChain {n = n} pos (after r main) =
    let (m, t, e) = RingReach-IsChain pos r in
    subst (λ s. IsChain n (main_ring s.started s)) (sym e) (main-IsChain n m t pos)
RingReach-IsChain {n = n} pos (after r (func k)) =
    let (m, t, e) = RingReach-IsChain pos r in
    subst (λ s. IsChain n (func_ring n k (get_elem? s.threads k) (get_elem? s.mux k) s)) (sym e)
      (func-IsChain n m k t pos)

chain-letters : (n m : ℕ) (t : Token) → (chain n m t).out ≡ letters n (length (chain n m t).out)
chain-letters n m unsent = refl
chain-letters n m free = ap (letters n) (sym (length-letters n m))
chain-letters n m holding = ap (letters n) (sym (length-letters n m))
chain-letters n m passing = ap (letters n) (sym (length-letters n (suc m)))

-- However the threads are scheduled, what abcd.c has written in a state that it can reach are the
-- letters of the threads in turn.
pub RingReach-letters :
    {n : ℕ} {s : Chain} → 0 < n → RingReach n s → s.out ≡ letters n (length s.out)
RingReach-letters {n = n} pos r =
    let (m, t, e) = RingReach-IsChain pos r in
    subst (λ s. s.out ≡ letters n (length s.out)) (sym e) (chain-letters n m t)
