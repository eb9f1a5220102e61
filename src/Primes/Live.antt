-- ===== src/Primes/Live.antt =====
-- No lost wake-up in 31.线程专题/primer_1_pool_cond.c: as long as a thread has not left its loop, some
-- thread can run, and none is gone before the main thread has put -1.
use apue_li_huiqin.Base.{
  length-replicate, count_by-set, ℕ, ◌<◌, ◌≡◌, refl, ◌∙◌, Option, none, some, List, arith, leb, ltb,
  length, length-set, set, get_elem?, count_by, ◌⊎◌, inl, inr, Bool-cases,
}
use apue_li_huiqin.Primes.{
  Num, empty, filled, closed, Worker, awake, asleep, busy, gone, Main, putting, sleeping, joining,
  System, wake_main, signal, put, main_at, main_turn, func_at, func_turn, is_asleep, Step,
  main_runs, func_runs, wake_up, wake_up_main, fresh, Reach, begin, next,
}
use apue_li_huiqin.Primes.Counts.{
  is_gone, is_active, count_by-length, map-wake-Woken, Signalled, replaced, signal-Signalled,
  signal-active, none_gone,
}

-- The main thread waits only for `num` to be taken, and joins the others once it is -1.
abbrev pub MainFits : Main → Num → Type 0
MainFits putting empty = Unit
MainFits putting (filled n) = Unit
MainFits putting closed = ⊥
MainFits sleeping empty = ⊥
MainFits sleeping (filled n) = Unit
MainFits sleeping closed = ⊥
MainFits joining empty = ⊥
MainFits joining (filled n) = ⊥
MainFits joining closed = Unit

-- No thread leaves before -1, and none waits behind it; a number in `num` is not left to waiting threads.
abbrev pub WorkersFit : Num → List Worker → Type 0
WorkersFit empty ws = count_by is_gone ws ≡ 0
WorkersFit (filled n) ws = (count_by is_gone ws ≡ 0) × (0 < count_by is_active ws)
WorkersFit closed ws = count_by is_asleep ws ≡ 0

pub record IsLive (threads : ℕ) (s : System) : Type 0 where
  pub main_fits : MainFits s.main s.num
  pub workers_fit : WorkersFit s.num s.workers
  pub all_there : length s.workers ≡ threads

abbrev pub state : Num → ℕ → Main → List Worker → List ℕ → List ℕ → System
state num i main workers taken printed = record {
  num = num;
  i = i;
  main = main;
  workers = workers;
  taken = taken;
  printed = printed;
}

wake_main-fits : (main : Main) (n : ℕ) → MainFits main (filled n) → MainFits (wake_main main) empty
wake_main-fits putting n h = tt
wake_main-fits sleeping n h = tt
wake_main-fits joining n h = absurd h

woken-fits : (main : Main) (num : Num) → MainFits main num → MainFits (wake_main main) num
woken-fits putting num h = h
woken-fits sleeping empty h = tt
woken-fits sleeping (filled n) h = tt
woken-fits sleeping closed h = absurd h
woken-fits joining num h = h

Signalled-fits :
    (num : Num) (ws ws' : List Worker) → Signalled ws ws' → WorkersFit num ws → WorkersFit num ws'
Signalled-fits empty ws ws' s h = s.same_gone ∙ h
Signalled-fits (filled n) ws ws' s h = (s.same_gone ∙ h.0, omega (arith, s.more_active, h.1))
Signalled-fits closed ws ws' s h = omega (arith, s.less_asleep, h)

runs :
    {threads : ℕ} (main : Main) (num : Num) (ws : List Worker)
    → MainFits main num
    → WorkersFit num ws
    → length ws ≡ threads
    → (main ≡ putting)
      ⊎ (0 < count_by is_active ws)
      ⊎ ((main ≡ joining) × (count_by is_gone ws ≡ threads))
runs putting num ws m w l = inl refl
runs sleeping empty ws m w l = absurd m
runs sleeping (filled n) ws m w l = inr (inl w.1)
runs sleeping closed ws m w l = absurd m
runs joining empty ws m w l = absurd m
runs joining (filled n) ws m w l = absurd m
runs joining closed ws m w l = elim (Bool-cases (ltb 0 (count_by is_active ws))) [
  | inl e ↦ inr (inl (ground arith))
  | inr e ↦
      let idle : count_by is_active ws ≡ 0 = ground arith in
      inr (inr (refl, omega (arith, count_by-length ws, l, w, idle)))
]

module _ (threads last : ℕ) (i : ℕ) (taken printed : List ℕ) where
  main_turn-IsLive :
      (k : ℕ) (main : Main) (num : Num) (ws : List Worker)
      → 0 < threads
      → (get_elem? ws k ≡ some asleep) ⊎ (count_by is_asleep ws ≡ 0)
      → IsLive threads (state num i main ws taken printed)
      → IsLive threads (main_turn last k main (state num i main ws taken printed))
  unfolding main_turn main_at put
  main_turn-IsLive k sleeping num ws pos c h = h
  main_turn-IsLive k joining num ws pos c h = h
  main_turn-IsLive k putting closed ws pos c h = absurd h.main_fits
  main_turn-IsLive k putting (filled n) ws pos c h = record {
    main_fits = tt;
    workers_fit = h.workers_fit;
    all_there = h.all_there;
  }
  main_turn-IsLive k putting empty ws pos c h =
      let s = signal-Signalled ws k in
      let w = map-wake-Woken ws in
      let a = signal-active ws k h.workers_fit (omega (arith, h.all_there)) c in
      elim (Bool-cases (leb i last)) [
        | inl e ↦
            rw (put, e)
              (record {
                main_fits = tt;
                workers_fit = (s.same_gone ∙ h.workers_fit, a);
                all_there = s.same_length ∙ h.all_there;
              })
        | inr e ↦
            rw (put, e)
              (record {
                main_fits = tt;
                workers_fit = w.none_asleep;
                all_there = w.same_length ∙ h.all_there;
              })
      ]

  func_at-IsLive :
      (k : ℕ) (main : Main) (num : Num) (ws : List Worker)
      → get_elem? ws k ≡ some awake
      → IsLive threads (state num i main ws taken printed)
      → IsLive threads (func_at k num (state num i main ws taken printed))
  unfolding func_at
  func_at-IsLive k main empty ws e h = record {
    main_fits = h.main_fits;
    workers_fit = omega (arith, count_by-set is_gone ws k awake asleep e, h.workers_fit);
    all_there = length-set ws k asleep ∙ h.all_there;
  }
  func_at-IsLive k main closed ws e h = record {
    main_fits = h.main_fits;
    workers_fit = omega (arith, count_by-set is_asleep ws k awake gone e, h.workers_fit);
    all_there = length-set ws k gone ∙ h.all_there;
  }
  func_at-IsLive k main (filled n) ws e h =
      let w = map-wake-Woken (set ws k (busy n)) in
      record {
        main_fits = wake_main-fits main n h.main_fits;
        workers_fit =
            omega (arith, w.same_gone, count_by-set is_gone ws k awake (busy n) e, h.workers_fit.0);
        all_there = w.same_length ∙ length-set ws k (busy n) ∙ h.all_there;
      }

  func_turn-IsLive :
      (k : ℕ) (main : Main) (num : Num) (ws : List Worker) (o : Option Worker)
      → get_elem? ws k ≡ o
      → IsLive threads (state num i main ws taken printed)
      → IsLive threads (func_turn k o (state num i main ws taken printed))
  unfolding func_turn
  func_turn-IsLive k main num ws none e h = h
  func_turn-IsLive k main num ws (some awake) e h = func_at-IsLive k main num ws e h
  func_turn-IsLive k main num ws (some asleep) e h = h
  func_turn-IsLive k main num ws (some gone) e h = h
  func_turn-IsLive k main num ws (some (busy n)) e h =
      let s = replaced ws k (busy n) awake e refl (omega arith) (omega arith) in
      record {
        main_fits = h.main_fits;
        workers_fit = Signalled-fits num ws (set ws k awake) s h.workers_fit;
        all_there = s.same_length ∙ h.all_there;
      }

Step-IsLive :
    (threads last : ℕ) (s t : System)
    → 0 < threads
    → Step last s t
    → IsLive threads s
    → IsLive threads t
Step-IsLive threads last s t pos (main_runs k c) h =
    main_turn-IsLive threads last s.i s.taken s.printed k s.main s.num s.workers pos c h
Step-IsLive threads last s t pos (func_runs w) h =
    func_turn-IsLive threads last s.i s.taken s.printed w s.main s.num s.workers
      (get_elem? s.workers w) refl h
Step-IsLive threads last s t pos (wake_up k) h =
    let g = signal-Signalled s.workers k in
    record {
      main_fits = h.main_fits;
      workers_fit = Signalled-fits s.num s.workers (signal k s.workers) g h.workers_fit;
      all_there = g.same_length ∙ h.all_there;
    }
Step-IsLive threads last s t pos wake_up_main h = record {
  main_fits = woken-fits s.main s.num h.main_fits;
  workers_fit = h.workers_fit;
  all_there = h.all_there;
}

fresh-IsLive : (threads first : ℕ) → IsLive threads (fresh threads first)
fresh-IsLive threads first = record {
  main_fits = tt;
  workers_fit = none_gone threads;
  all_there = length-replicate threads awake;
}

pub Reach-IsLive :
    {threads first last : ℕ} {s : System}
    → 0 < threads
    → Reach threads first last s
    → IsLive threads s
Reach-IsLive pos begin = fresh-IsLive _ _
Reach-IsLive pos (next r step) = Step-IsLive _ _ _ _ pos step (Reach-IsLive pos r)

-- No wake-up is lost: in every state that a run with at least one thread can reach, the main thread can
-- go on, or another thread can, or the main thread has put -1 and each of the others has left its loop.
pub Reach-runs :
    {threads first last : ℕ} {s : System}
    → 0 < threads
    → Reach threads first last s
    → (s.main ≡ putting)
      ⊎ (0 < count_by is_active s.workers)
      ⊎ ((s.main ≡ joining) × (count_by is_gone s.workers ≡ threads))
Reach-runs {s = s} pos r =
    let h = Reach-IsLive pos r in runs s.main s.num s.workers h.main_fits h.workers_fit h.all_there
