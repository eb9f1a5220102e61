-- ===== src/Primes/Once.antt =====
-- What the threads of 31.线程专题/primer_1_pool_cond.c take and print: each number of the interval is
-- taken once, in order, and each that passes the test is printed once.
use mathlib.Core.List.{append-nil}
use apue_li_huiqin.Base.{
  one_if, count_by-append, ℕ, zero, suc, ◌+◌, ◌-◌, ◌≤◌, ◌<◌, ◌≡◌, refl, sym, ap, ◌∙◌, ◌&&◌, List,
  [], ◌∷◌, ◌++◌, arith, ◌==◌, leb, ltb, length, get_elem?, count_by, replicate, inl, inr,
  Bool-cases, ==_iff, count_by-le-length,
}
use apue_li_huiqin.Primes.{
  Num, empty, filled, closed, Worker, awake, asleep, busy, gone, Main, putting, sleeping, joining,
  System, primer_flag, Step, main_runs, func_runs, wake_up, wake_up_main, Reach, begin, next,
}
use apue_li_huiqin.Primes.Counts.{is_gone}
use apue_li_huiqin.Primes.Live.{MainFits, Reach-IsLive}
use apue_li_huiqin.Primes.Held.{
  numbers, content, hits, holds, Behind, IsHanded, holds-signal, Behind-wake, main_turn-IsHanded,
  func_turn-IsHanded,
}

Step-IsHanded :
    (first last : ℕ) (s t : System) → Step last s t → IsHanded first last s → IsHanded first last t
Step-IsHanded first last s t (main_runs k c) h =
    main_turn-IsHanded first last s.i s.taken s.printed k s.main s.num s.workers h
Step-IsHanded first last s t (func_runs w) h =
    func_turn-IsHanded first last s.i s.taken s.printed w s.main s.num s.workers
      (get_elem? s.workers w) refl h
Step-IsHanded first last s t (wake_up k) h = record {
  count = h.count;
  i_is = h.i_is;
  handed = h.handed;
  bound = h.bound;
  behind = h.behind;
  prints = λ x. omega (arith, h.prints x, holds-signal x s.workers k);
}
Step-IsHanded first last s t wake_up_main h = record {
  count = h.count;
  i_is = h.i_is;
  handed = h.handed;
  bound = h.bound;
  behind = Behind-wake s.main s.i last h.behind;
  prints = h.prints;
}

holds-replicate : (x n : ℕ) → count_by (holds x) (replicate n awake) ≡ 0
holds-replicate x zero = refl
holds-replicate x (suc n) = omega (arith, holds-replicate x n)

Reach-IsHanded :
    {threads first last : ℕ} {s : System}
    → first ≤ last + 1
    → Reach threads first last s
    → IsHanded first last s
Reach-IsHanded {threads = threads} le begin = record {
  count = 0;
  i_is = omega arith;
  handed = refl;
  bound = le;
  behind = tt;
  prints = λ x. omega (arith, holds-replicate x threads);
}
Reach-IsHanded le (next r step) = Step-IsHanded _ _ _ _ step (Reach-IsHanded le r)

-- In every state that a run over an interval, which may be empty, can reach, the numbers that the
-- threads have taken, and behind them the one in `num`, if any, are those from `first` up to the one
-- that the main thread puts next, each once and in order.
Reach-taken :
    {threads first last : ℕ} {s : System}
    → first ≤ last + 1
    → Reach threads first last s
    → s.taken ++ content s.num ≡ numbers first (s.i - first)
Reach-taken {first = first} {s = s} le r =
    let h = Reach-IsHanded le r in
    let e : h.count ≡ s.i - first = omega (arith, h.i_is) in h.handed ∙ ap (numbers first) e

gone-le-length : (ws : List Worker) → count_by is_gone ws ≤ length ws
gone-le-length ws = count_by-le-length is_gone ws

holds-gone :
    (x : ℕ) (ws : List Worker) → count_by is_gone ws ≡ length ws → count_by (holds x) ws ≡ 0
holds-gone x [] h = refl
holds-gone x (gone ∷ ws) h = omega (arith, holds-gone x ws (omega (arith, h)))
holds-gone x (awake ∷ ws) h = absurd (omega (arith, h, gone-le-length ws))
holds-gone x (asleep ∷ ws) h = absurd (omega (arith, h, gone-le-length ws))
holds-gone x (busy n ∷ ws) h = absurd (omega (arith, h, gone-le-length ws))

hits_lem : (x n : ℕ) → hits x n ≡ ((n == x) && primer_flag x)
hits_lem x n = elim (Bool-cases (n == x)) [
  | inl e ↦ let same : n ≡ x = (==_iff n x).0 e in ap (λ m. (n == x) && primer_flag m) same
  | inr e ↦ rw e refl
]

pub hits-numbers :
    (x first n : ℕ)
    → count_by (hits x) (numbers first n)
      ≡ one_if (leb first x && ltb x (first + n) && primer_flag x)
hits-numbers x first zero = ground arith
hits-numbers x first (suc n) =
    let a = count_by-append (hits x) (numbers first n) ((first + n) ∷ []) in
    let b = hits-numbers x first n in
    let c = ap one_if (hits_lem x (first + n)) in ground (arith, a, b, c)

joined-content : (main : Main) (num : Num) → MainFits main num → main ≡ joining → content num ≡ []
joined-content putting num f e = absurd (cc)
joined-content sleeping num f e = absurd (cc)
joined-content joining empty f e = refl
joined-content joining (filled n) f e = absurd f
joined-content joining closed f e = refl

joined-Behind : (main : Main) (i last : ℕ) → Behind main i last → main ≡ joining → last < i
joined-Behind putting i last h e = absurd (cc)
joined-Behind sleeping i last h e = absurd (cc)
joined-Behind joining i last h e = h

-- In a run of at least one thread over an interval, which may be empty: when the main thread has put -1
-- and all threads have left, each number of the interval that passes the test has been printed once,
-- and nothing else has been printed.
pub Reach-printed :
    {threads first last : ℕ} {s : System} (x : ℕ)
    → 0 < threads
    → first ≤ last + 1
    → Reach threads first last s
    → s.main ≡ joining
    → count_by is_gone s.workers ≡ threads
    → count_by (λ n. n == x) s.printed ≡ one_if (leb first x && leb x last && primer_flag x)
Reach-printed {first = first} {last = last} {s = s} x pos le r m g =
    let h = Reach-IsHanded le r in
    let live = Reach-IsLive pos r in
    let none_held = holds-gone x s.workers (g ∙ sym live.all_there) in
    let behind = joined-Behind s.main s.i last h.behind m in
    let all_taken : s.taken ≡ numbers first h.count =
      sym (append-nil s.taken)
      ∙ ap (λ l. s.taken ++ l) (sym (joined-content s.main s.num live.main_fits m))
      ∙ h.handed in
    let counted = ap (count_by (hits x)) all_taken in
    let e : first + h.count ≡ last + 1 = omega (arith, h.i_is, h.bound, behind) in
    let range = ap (λ n. one_if (leb first x && ltb x n && primer_flag x)) e in
    let total = hits-numbers x first h.count in
    let p = h.prints x in ground (arith, p, none_held, counted, total, range)
