-- ===== src/Primes/Shares.antt =====
-- The search for primes without a common variable: 29.进程专题/primer0.c, a single process;
-- 29.进程专题/primer1.c and primer2.c and 31.线程专题/primer_1.c, a process or thread for each number; and
-- 29.进程专题/primer3.c, some processes that each take every so manyth number. A `fork` that fails gives
-- no child, and none of the programs does anything about it. The parent waits for as many children as it
-- has tried to start, and a `wait` without a child returns at once.
pub mod Short
pub mod Sums
pub mod Outputs
use apue_li_huiqin.Base.{
  ℕ, zero, suc, ◌+◌, ◌-◌, ◌/◌, ◌≡◌, Bool, true, false, some, List, [], ◌∷◌, ◌++◌, leb,
  if◌then◌else◌, set, get_elem?,
}
use apue_li_huiqin.Primes.{trial, primer_flag}

-- The loop of primer2.c and primer3.c, `for (j = 2; j < i/2; j++)`.
unfoldable pub short_flag : ℕ → Bool
unfolding trial
short_flag i = trial (i / 2 - 2) 2 i

-- `if(primer_flag == 1) printf(…)`, with the loop that the program has.
unfoldable pub print_primer : (ℕ → Bool) → ℕ → List ℕ
print_primer flag i = if flag i then i ∷ [] else []

-- `for (i = MIN; i <= MAX; i++)` of primer0.c, with so many rounds left.
unfoldable pub search : (ℕ → Bool) → ℕ → ℕ → List ℕ
unfolding print_primer
search flag zero i = []
search flag (suc n) i = print_primer flag i ++ search flag n (i + 1)

-- primer0.c for an interval.
unfoldable pub primer0 : ℕ → ℕ → List ℕ
unfolding search primer_flag
primer0 first last = search primer_flag (last + 1 - first) first

-- The loop that forks: what each child prints that is started. `forks i` says whether the `fork` of
-- round `i` succeeds.
unfoldable pub spawn : (ℕ → Bool) → (ℕ → List ℕ) → ℕ → ℕ → List (List ℕ)
spawn forks child zero i = []
spawn forks child (suc n) i =
    let others = spawn forks child n (i + 1) in if forks i then child i ∷ others else others

-- primer1.c, and primer_1.c with `pthread_create` in place of `fork`.
unfoldable pub primer1 : (ℕ → Bool) → ℕ → ℕ → List (List ℕ)
unfolding spawn print_primer primer_flag
primer1 forks first last = spawn forks (print_primer primer_flag) (last + 1 - first) first

unfoldable pub primer2 : (ℕ → Bool) → ℕ → ℕ → List (List ℕ)
unfolding spawn print_primer short_flag
primer2 forks first last = spawn forks (print_primer short_flag) (last + 1 - first) first

-- `for (i = MIN+n; i <= MAX; i += N)` of a child of primer3.c, from `i` on.
unfoldable pub share : ℕ → ℕ → ℕ → ℕ → List ℕ
unfolding print_primer short_flag
share zero step last i = []
share (suc fuel) step last i =
    let others = share fuel step last (i + step) in
    if leb i last then print_primer short_flag i ++ others else []

-- primer3.c with `procs` processes.
unfoldable pub primer3 : ℕ → (ℕ → Bool) → ℕ → ℕ → List (List ℕ)
unfolding spawn share
primer3 procs forks first last = spawn forks (λ n. share (last + 1) procs last (first + n)) procs 0

-- The order in which the children print is open: what is still to be printed by each, and the output.
pub data Prints (children : List (List ℕ)) : List (List ℕ) → List ℕ → Type 0 where
  begin : Prints children children []
  line :
      {left : List (List ℕ)} {out : List ℕ} (k x : ℕ) (xs : List ℕ)
      → Prints children left out
      → get_elem? left k ≡ some (x ∷ xs)
      → Prints children (set left k xs) (out ++ x ∷ [])
