-- ===== src/Semaphore/Bounded.antt =====
-- What the semaphore of 31.线程专题/mysem guarantees to main.c beside it: never more threads at work than
-- its initial value, no lost wake-up, and each prime printed once.
use apue_li_huiqin.Base.{
  one_if, count_by-set, count_by-append, ℕ, zero, suc, ◌+◌, ◌≤◌, ◌<◌, ◌≡◌, refl, sym, ap, Bool,
  true, false, ◌&&◌, Option, none, some, List, [], ◌∷◌, ◌++◌, arith, ◌==◌, if◌then◌else◌, leb, ltb,
  get_elem?, count_by, ◌⊎◌, inl, inr, Bool-cases, eq_of_some,
}
use apue_li_huiqin.Primes.{primer_flag}
use apue_li_huiqin.Primes.Held.{numbers, hits}
use apue_li_huiqin.Primes.Once.{hits-numbers}
use apue_li_huiqin.Semaphore.{
  Mysem, mysem_init, mysem_add, mysem_sub, Thread, testing, posting, left, Main, starting, asleep,
  joining, System, create, main_turn, wake, func_turn, Step, main_runs, func_runs, wake_up, Reach,
  begin, next,
}

-- A thread that has not yet given its unit back.
abbrev pub is_working : Thread → Bool
is_working (testing n) = true
is_working posting = true
is_working left = false

abbrev holds : ℕ → Thread → Bool
holds x (testing n) = hits x n
holds x posting = false
holds x left = false

-- The main thread sleeps only at value 0, and joins behind the interval.
abbrev MainFits : Main → ℕ → ℕ → ℕ → Type 0
MainFits starting value i last = Unit
MainFits asleep value i last = value ≡ 0
MainFits joining value i last = last < i

record IsGuarded (n first last : ℕ) (s : System) : Type 0 where
  pub units : s.sem.value + count_by is_working s.threads ≡ n
  pub fits : MainFits s.main s.sem.value s.i last
  pub count : ℕ
  pub i_is : s.i ≡ first + count
  pub bound : s.i ≤ last + 1
  pub prints :
      (x : ℕ)
      → count_by (λ m. m == x) s.printed + count_by (holds x) s.threads
        ≡ count_by (hits x) (numbers first count)

wake-fits : (main : Main) (v w i last : ℕ) → MainFits main v i last → MainFits (wake main) w i last
wake-fits starting v w i last h = tt
wake-fits asleep v w i last h = tt
wake-fits joining v w i last h = h

abbrev state : ℕ → ℕ → Main → List Thread → List ℕ → System
state v i main threads printed = record {
  sem = record { value = v };
  i = i;
  main = main;
  threads = threads;
  printed = printed;
}

module _ (n first last v i : ℕ) (printed : List ℕ) where
  main_turn-IsGuarded :
      (main : Main) (ts : List Thread)
      → IsGuarded n first last (state v i main ts printed)
      → IsGuarded n first last (main_turn last main (state v i main ts printed))
  unfolding main_turn create mysem_sub
  main_turn-IsGuarded asleep ts h = h
  main_turn-IsGuarded joining ts h = h
  main_turn-IsGuarded starting ts h = elim (Bool-cases (leb i last)) [
    | inr e ↦
        rw (main_turn, e)
          (record {
            units = h.units;
            fits = ground arith;
            count = h.count;
            i_is = h.i_is;
            bound = h.bound;
            prints = h.prints;
          })
    | inl e ↦ elim (Bool-cases (ltb v 1)) [
      | inl z ↦
          rw (main_turn, e, z)
            (record {
              units = h.units;
              fits = ground arith;
              count = h.count;
              i_is = h.i_is;
              bound = h.bound;
              prints = h.prints;
            })
      | inr z ↦
          let some_left : 0 < v = ground arith in
          rw (main_turn, e, z)
            (record {
              units = omega (arith, h.units, count_by-append is_working ts (testing i ∷ []));
              fits = tt;
              count = suc h.count;
              i_is = omega (arith, h.i_is);
              bound = ground arith;
              prints = λ x. omega (
                arith,
                h.prints x,
                count_by-append (holds x) ts (testing i ∷ []),
                count_by-append (hits x) (numbers first h.count) ((first + h.count) ∷ []),
                ap (λ m. one_if (hits x m)) h.i_is,
              );
            })
    ]
  ]

  prints-tested :
      (x m : ℕ)
      → count_by (λ k. k == x) (if primer_flag m then printed ++ m ∷ [] else printed)
        ≡ count_by (λ k. k == x) printed + one_if (hits x m)
  prints-tested x m = elim (Bool-cases (primer_flag m)) [
    | inl e ↦ rw e (ground (arith, count_by-append (λ k. k == x) printed (m ∷ [])))
    | inr e ↦ rw e (ground arith)
  ]

  func_turn-IsGuarded :
      (t : ℕ) (main : Main) (ts : List Thread) (o : Option Thread)
      → get_elem? ts t ≡ o
      → IsGuarded n first last (state v i main ts printed)
      → IsGuarded n first last (func_turn t o (state v i main ts printed))
  unfolding func_turn mysem_add
  func_turn-IsGuarded t main ts none e h = h
  func_turn-IsGuarded t main ts (some left) e h = h
  func_turn-IsGuarded t main ts (some (testing m)) e h = record {
    units = omega (arith, h.units, count_by-set is_working ts t (testing m) posting e);
    fits = h.fits;
    count = h.count;
    i_is = h.i_is;
    bound = h.bound;
    prints = λ x.
        omega
          (arith, h.prints x, prints-tested x m, count_by-set (holds x) ts t (testing m) posting e);
  }
  func_turn-IsGuarded t main ts (some posting) e h = record {
    units = omega (arith, h.units, count_by-set is_working ts t posting left e);
    fits = wake-fits main v (v + 1) i last h.fits;
    count = h.count;
    i_is = h.i_is;
    bound = h.bound;
    prints = λ x. omega (arith, h.prints x, count_by-set (holds x) ts t posting left e);
  }

Step-IsGuarded :
    (n first last : ℕ) (s t : System)
    → Step last s t
    → IsGuarded n first last s
    → IsGuarded n first last t
Step-IsGuarded n first last s t main_runs h =
    main_turn-IsGuarded n first last s.sem.value s.i s.printed s.main s.threads h
Step-IsGuarded n first last s t (func_runs k) h =
    func_turn-IsGuarded n first last s.sem.value s.i s.printed k s.main s.threads
      (get_elem? s.threads k) refl h
Step-IsGuarded n first last s t wake_up h = record {
  units = h.units;
  fits = wake-fits s.main s.sem.value s.sem.value s.i last h.fits;
  count = h.count;
  i_is = h.i_is;
  bound = h.bound;
  prints = h.prints;
}

mysem_init-value : (n : ℕ) (sem : Mysem) → mysem_init true n ≡ some sem → sem.value ≡ n
unfolding mysem_init
mysem_init-value n sem e = sym (ap (λ m. m.value) (eq_of_some e))

Reach-IsGuarded :
    {n first last : ℕ} {sem : Mysem} {s : System}
    → sem.value ≡ n
    → first ≤ last + 1
    → Reach sem first last s
    → IsGuarded n first last s
Reach-IsGuarded e le begin = record {
  units = omega (arith, e);
  fits = tt;
  count = 0;
  i_is = omega arith;
  bound = le;
  prints = λ x. refl;
}
Reach-IsGuarded e le (next r step) = Step-IsGuarded _ _ _ _ _ step (Reach-IsGuarded e le r)

-- In every state that a run over an interval, which may be empty, can reach, the value of the semaphore
-- and the number of threads at work sum to the value that `mysem_init` was given, so that there are
-- never more of them than that.
pub Reach-units :
    {first last : ℕ} {sem : Mysem} {s : System} (n : ℕ)
    → mysem_init true n ≡ some sem
    → first ≤ last + 1
    → Reach sem first last s
    → s.sem.value + count_by is_working s.threads ≡ n
Reach-units {sem = sem} n e le r = (Reach-IsGuarded (mysem_init-value n sem e) le r).units

awake_main :
    (main : Main) (v i last n working : ℕ)
    → 0 < n
    → v + working ≡ n
    → MainFits main v i last
    → (main ≡ starting) ⊎ (0 < working) ⊎ ((main ≡ joining) × (working ≡ 0))
awake_main starting v i last n working pos u h = inl refl
awake_main asleep v i last n working pos u h = inr (inl (omega (arith, u, h)))
awake_main joining v i last n zero pos u h = inr (inr (refl, refl))
awake_main joining v i last n (suc working) pos u h = inr (inl (omega arith))

-- No wake-up is lost where the semaphore begins above 0: in every state that a run over an interval,
-- which may be empty, can reach, the main thread can go on, or another thread can, or the main thread has left its first loop and all threads
-- have left.
pub Reach-goes_on :
    {first last : ℕ} {sem : Mysem} {s : System} (n : ℕ)
    → mysem_init true n ≡ some sem
    → 0 < n
    → first ≤ last + 1
    → Reach sem first last s
    → (s.main ≡ starting)
      ⊎ (0 < count_by is_working s.threads)
      ⊎ ((s.main ≡ joining) × (count_by is_working s.threads ≡ 0))
Reach-goes_on {last = last} {sem = sem} {s = s} n e pos le r =
    let h = Reach-IsGuarded (mysem_init-value n sem e) le r in
    awake_main s.main s.sem.value s.i last n (count_by is_working s.threads) pos h.units h.fits

holds-left : (x : ℕ) (ts : List Thread) → count_by is_working ts ≡ 0 → count_by (holds x) ts ≡ 0
holds-left x [] h = refl
holds-left x (left ∷ ts) h = omega (arith, holds-left x ts (omega (arith, h)))
holds-left x (posting ∷ ts) h = absurd (omega (arith, h))
holds-left x (testing m ∷ ts) h = absurd (omega (arith, h))

joining-behind : (main : Main) (v i last : ℕ) → MainFits main v i last → main ≡ joining → last < i
joining-behind starting v i last h e = absurd (cc)
joining-behind asleep v i last h e = absurd (cc)
joining-behind joining v i last h e = h

-- In a run over an interval, which may be empty: when the main thread has left its first loop and all
-- threads have left, each number of the interval that passes the test has been printed once, and
-- nothing else has been printed.
Reach-printed_once :
    {first last : ℕ} {sem : Mysem} {s : System} (n x : ℕ)
    → mysem_init true n ≡ some sem
    → first ≤ last + 1
    → Reach sem first last s
    → s.main ≡ joining
    → count_by is_working s.threads ≡ 0
    → count_by (λ m. m == x) s.printed ≡ one_if (leb first x && leb x last && primer_flag x)
Reach-printed_once {first = first} {last = last} {sem = sem} {s = s} n x e le r m w =
    let h = Reach-IsGuarded (mysem_init-value n sem e) le r in
    let behind = joining-behind s.main s.sem.value s.i last h.fits m in
    let end : first + h.count ≡ last + 1 = omega (arith, h.i_is, h.bound, behind) in
    let range = ap (λ k. one_if (leb first x && ltb x k && primer_flag x)) end in
    let total = hits-numbers x first h.count in
    let p = h.prints x in
    let held = holds-left x s.threads w in ground (arith, p, held, total, range)
