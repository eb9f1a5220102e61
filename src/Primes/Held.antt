-- ===== src/Primes/Held.antt =====
-- What holds in a run of 31.线程专题/primer_1_pool_cond.c of the numbers taken, held and printed.
use mathlib.Core.List.{append-nil}
use apue_li_huiqin.Base.{
  one_if, count_by-set, count_by-append, ℕ, zero, suc, ◌+◌, ◌≤◌, ◌<◌, ◌≡◌, refl, sym, ap, ◌∙◌, Bool,
  false, ◌&&◌, Option, none, some, List, [], ◌∷◌, ◌++◌, arith, ◌==◌, if◌then◌else◌, leb, set,
  get_elem?, map, count_by, inl, inr, Bool-cases, Option-cases,
}
use apue_li_huiqin.Primes.{
  Num, empty, filled, closed, Worker, awake, asleep, busy, gone, Main, putting, sleeping, joining,
  System, wake, wake_main, signal, put, main_at, main_turn, func_at, func_turn, primer_flag,
}
use apue_li_huiqin.Primes.Live.{state}

-- So many numbers from `first` on.
abbrev pub numbers : ℕ → ℕ → List ℕ
numbers first zero = []
numbers first (suc n) = numbers first n ++ (first + n) ∷ []

abbrev pub content : Num → List ℕ
content empty = []
content (filled n) = n ∷ []
content closed = []

-- A number that is `x` and passes the test; a thread that has it.
abbrev pub hits : ℕ → ℕ → Bool
hits x n = (n == x) && primer_flag n

abbrev pub holds : ℕ → Worker → Bool
holds x awake = false
holds x asleep = false
holds x (busy n) = hits x n
holds x gone = false

abbrev pub Behind : Main → ℕ → ℕ → Type 0
Behind putting i last = Unit
Behind sleeping i last = Unit
Behind joining i last = last < i

pub record IsHanded (first last : ℕ) (s : System) : Type 0 where
  pub count : ℕ
  pub i_is : s.i ≡ first + count
  pub handed : s.taken ++ content s.num ≡ numbers first count
  pub bound : s.i ≤ last + 1
  pub behind : Behind s.main s.i last
  pub prints :
      (x : ℕ)
      → count_by (λ n. n == x) s.printed + count_by (holds x) s.workers ≡ count_by (hits x) s.taken

holds-wake : (x : ℕ) (w : Worker) → holds x (wake w) ≡ holds x w
holds-wake x awake = refl
holds-wake x asleep = refl
holds-wake x (busy n) = refl
holds-wake x gone = refl

holds-map-wake :
    (x : ℕ) (ws : List Worker) → count_by (holds x) (map wake ws) ≡ count_by (holds x) ws
holds-map-wake x [] = refl
holds-map-wake x (w ∷ ws) = rw (holds-wake x w) (omega (arith, holds-map-wake x ws))

pub holds-signal :
    (x : ℕ) (ws : List Worker) (k : ℕ) → count_by (holds x) (signal k ws) ≡ count_by (holds x) ws
holds-signal x ws k = elim (Option-cases (get_elem? ws k)) [
  | inl e ↦ rw e refl
  | inr (w, e) ↦
      rw e (omega (arith, count_by-set (holds x) ws k w (wake w) e, ap one_if (holds-wake x w)))
]

pub Behind-wake : (main : Main) (i last : ℕ) → Behind main i last → Behind (wake_main main) i last
Behind-wake putting i last h = h
Behind-wake sleeping i last h = tt
Behind-wake joining i last h = h

module _ (first last i : ℕ) (taken printed : List ℕ) where
  pub main_turn-IsHanded :
      (k : ℕ) (main : Main) (num : Num) (ws : List Worker)
      → IsHanded first last (state num i main ws taken printed)
      → IsHanded first last (main_turn last k main (state num i main ws taken printed))
  unfolding main_turn main_at put
  main_turn-IsHanded k sleeping num ws h = h
  main_turn-IsHanded k joining num ws h = h
  main_turn-IsHanded k putting closed ws h = record {
    count = h.count;
    i_is = h.i_is;
    handed = h.handed;
    bound = h.bound;
    behind = tt;
    prints = h.prints;
  }
  main_turn-IsHanded k putting (filled n) ws h = record {
    count = h.count;
    i_is = h.i_is;
    handed = h.handed;
    bound = h.bound;
    behind = tt;
    prints = h.prints;
  }
  main_turn-IsHanded k putting empty ws h = elim (Bool-cases (leb i last)) [
    | inl e ↦
        rw (put, e)
          (record {
            count = suc h.count;
            i_is = omega (arith, h.i_is);
            handed =
                ap (λ l. l ++ i ∷ []) (sym (append-nil taken) ∙ h.handed)
                ∙ ap (λ n. numbers first h.count ++ n ∷ []) h.i_is;
            bound = ground arith;
            behind = tt;
            prints = λ x. omega (arith, h.prints x, holds-signal x ws k);
          })
    | inr e ↦
        rw (put, e)
          (record {
            count = h.count;
            i_is = h.i_is;
            handed = h.handed;
            bound = h.bound;
            behind = ground arith;
            prints = λ x. omega (arith, h.prints x, holds-map-wake x ws);
          })
  ]

  func_at-IsHanded :
      (k : ℕ) (main : Main) (num : Num) (ws : List Worker)
      → get_elem? ws k ≡ some awake
      → IsHanded first last (state num i main ws taken printed)
      → IsHanded first last (func_at k num (state num i main ws taken printed))
  unfolding func_at
  func_at-IsHanded k main empty ws e h = record {
    count = h.count;
    i_is = h.i_is;
    handed = h.handed;
    bound = h.bound;
    behind = h.behind;
    prints = λ x. omega (arith, h.prints x, count_by-set (holds x) ws k awake asleep e);
  }
  func_at-IsHanded k main closed ws e h = record {
    count = h.count;
    i_is = h.i_is;
    handed = h.handed;
    bound = h.bound;
    behind = h.behind;
    prints = λ x. omega (arith, h.prints x, count_by-set (holds x) ws k awake gone e);
  }
  func_at-IsHanded k main (filled n) ws e h = record {
    count = h.count;
    i_is = h.i_is;
    handed = append-nil (taken ++ n ∷ []) ∙ h.handed;
    bound = h.bound;
    behind = Behind-wake main i last h.behind;
    prints = λ x. omega (
      arith,
      h.prints x,
      holds-map-wake x (set ws k (busy n)),
      count_by-set (holds x) ws k awake (busy n) e,
      count_by-append (hits x) taken (n ∷ []),
    );
  }

  prints-busy :
      (x n : ℕ)
      → count_by (λ m. m == x) (if primer_flag n then printed ++ n ∷ [] else printed)
        ≡ count_by (λ m. m == x) printed + one_if (hits x n)
  prints-busy x n = elim (Bool-cases (primer_flag n)) [
    | inl e ↦ rw e (ground (arith, count_by-append (λ m. m == x) printed (n ∷ [])))
    | inr e ↦ rw e (ground arith)
  ]

  pub func_turn-IsHanded :
      (k : ℕ) (main : Main) (num : Num) (ws : List Worker) (o : Option Worker)
      → get_elem? ws k ≡ o
      → IsHanded first last (state num i main ws taken printed)
      → IsHanded first last (func_turn k o (state num i main ws taken printed))
  unfolding func_turn
  func_turn-IsHanded k main num ws none e h = h
  func_turn-IsHanded k main num ws (some awake) e h = func_at-IsHanded k main num ws e h
  func_turn-IsHanded k main num ws (some asleep) e h = h
  func_turn-IsHanded k main num ws (some gone) e h = h
  func_turn-IsHanded k main num ws (some (busy n)) e h = record {
    count = h.count;
    i_is = h.i_is;
    handed = h.handed;
    bound = h.bound;
    behind = h.behind;
    prints = λ x.
        omega (arith, h.prints x, prints-busy x n, count_by-set (holds x) ws k (busy n) awake e);
  }
