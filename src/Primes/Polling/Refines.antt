-- ===== src/Primes/Polling/Refines.antt =====
-- 31.线程专题/primer_1_pool.c refines primer_1_pool_cond.c: each of its turns is one or two of the other.
use mathlib.Core.Path.{subst}
use apue_li_huiqin.Base.{
  ℕ, ◌≡◌, inl, inr, refl, ap, Option, none, some, List, [], ◌∷◌, ◌++◌, arith, leb, count_by,
  count_by-set, count_by-replicate, set, set_same, get_elem?, map, Bool-cases, Option-cases,
}
use apue_li_huiqin.Primes
use apue_li_huiqin.Primes.{
  Num, empty, filled, closed, Worker, awake, asleep, busy, gone, Main, putting, sleeping, joining,
  System, wake, wake_main, signal, woken_at, put, main_at, main_turn, func_at, func_turn,
  primer_flag, is_asleep, Reach, fresh,
}
use apue_li_huiqin.Primes.Live.{state}
use apue_li_huiqin.Primes.Polling.{
  put_polling, main_polling, take_polling, func_polling, PollReach, begin, main_runs, func_runs,
}

abbrev IsAwake : Main → Type 0
IsAwake putting = Unit
IsAwake sleeping = ⊥
IsAwake joining = Unit

wake_main_same : (main : Main) → IsAwake main → wake_main main ≡ main
wake_main_same putting h = refl
wake_main_same sleeping h = absurd h
wake_main_same joining h = refl

-- Where nobody waits, waking changes nothing.
map-wake_same : (ws : List Worker) → count_by is_asleep ws ≡ 0 → map wake ws ≡ ws
map-wake_same [] h = refl
map-wake_same (awake ∷ ws) h = ap (λ l. awake ∷ l) (map-wake_same ws (omega (arith, h)))
map-wake_same (busy n ∷ ws) h = ap (λ l. busy n ∷ l) (map-wake_same ws (omega (arith, h)))
map-wake_same (gone ∷ ws) h = ap (λ l. gone ∷ l) (map-wake_same ws (omega (arith, h)))
map-wake_same (asleep ∷ ws) h = absurd (omega (arith, h))

wake_same :
    (ws : List Worker) (k : ℕ) (w : Worker)
    → count_by is_asleep ws ≡ 0
    → get_elem? ws k ≡ some w
    → wake w ≡ w
wake_same ws k awake h e = refl
wake_same ws k (busy n) h e = refl
wake_same ws k gone h e = refl
wake_same ws k asleep h e = absurd (omega (arith, h, count_by-set is_asleep ws k asleep awake e))

signal_same : (ws : List Worker) (k : ℕ) → count_by is_asleep ws ≡ 0 → signal k ws ≡ ws
signal_same ws k h = elim (Option-cases (get_elem? ws k)) [
  | inl e ↦ rw e refl
  | inr (w, e) ↦ rw (e, wake_same ws k w h e) (set_same ws k w e)
]

-- What holds of a state of the polling program.
record IsPolled (threads first last : ℕ) (s : System) : Type 0 where
  pub reached : Reach threads first last s
  pub none_asleep : count_by is_asleep s.workers ≡ 0
  pub main_awake : IsAwake s.main

module _ (threads first last i : ℕ) (taken printed : List ℕ) where
  main_polling-IsPolled :
      (num : Num) (main : Main) (ws : List Worker)
      → IsPolled threads first last (state num i main ws taken printed)
      → IsPolled threads first last (main_polling last num main (state num i main ws taken printed))
  unfolding main_polling put_polling main_turn main_at put
  main_polling-IsPolled num sleeping ws h = absurd h.main_awake
  main_polling-IsPolled num joining ws h = h
  main_polling-IsPolled (filled n) putting ws h = h
  main_polling-IsPolled closed putting ws h = h
  main_polling-IsPolled empty putting ws h =
      let step = Reach.next h.reached (Primes.main_runs 0 (inr h.none_asleep)) in
      let same = signal_same ws 0 h.none_asleep in
      let all_same = map-wake_same ws h.none_asleep in
      elim (Bool-cases (leb i last)) [
        | inl e ↦
            rw (put_polling, e)
              (record {
                reached = rw (put, e, same) at step;
                none_asleep = h.none_asleep;
                main_awake = tt;
              })
        | inr e ↦
            rw (put_polling, e)
              (record {
                reached = rw (put, e, all_same) at step;
                none_asleep = h.none_asleep;
                main_awake = tt;
              })
      ]

  -- The step of another thread of the waiting program.
  func_step :
      (num : Num) (main : Main) (ws : List Worker) (k : ℕ) (v : Worker)
      → get_elem? ws k ≡ some v
      → Reach threads first last (state num i main ws taken printed)
      → Reach threads first last (func_turn k (some v) (state num i main ws taken printed))
  func_step num main ws k v e r =
      subst (λ o. Reach threads first last (func_turn k o (state num i main ws taken printed))) e
        (Reach.next r (Primes.func_runs k))

  take_polling-IsPolled :
      (num : Num) (main : Main) (ws : List Worker) (k : ℕ)
      → get_elem? ws k ≡ some awake
      → IsPolled threads first last (state num i main ws taken printed)
      → IsPolled threads first last (take_polling k num (state num i main ws taken printed))
  unfolding take_polling func_turn func_at
  take_polling-IsPolled empty main ws k e h = h
  take_polling-IsPolled closed main ws k e h = record {
    reached = func_step closed main ws k awake e h.reached;
    none_asleep = omega (arith, h.none_asleep, count_by-set is_asleep ws k awake gone e);
    main_awake = h.main_awake;
  }
  take_polling-IsPolled (filled n) main ws k e h =
      let none_left : count_by is_asleep (set ws k (busy n)) ≡ 0 =
        omega (arith, h.none_asleep, count_by-set is_asleep ws k awake (busy n) e) in
      let same = map-wake_same (set ws k (busy n)) none_left in
      record {
        reached =
            subst
              (λ m.
                Reach threads first last
                  (state empty i m (set ws k (busy n)) (taken ++ n ∷ []) printed))
              (wake_main_same main h.main_awake)
              (rw same at (func_step (filled n) main ws k awake e h.reached));
        none_asleep = none_left;
        main_awake = h.main_awake;
      }

  func_polling-IsPolled :
      (num : Num) (main : Main) (ws : List Worker) (k : ℕ) (o : Option Worker)
      → get_elem? ws k ≡ o
      → IsPolled threads first last (state num i main ws taken printed)
      → IsPolled threads first last (func_polling k o (state num i main ws taken printed))
  unfolding func_polling func_turn
  func_polling-IsPolled num main ws k none e h = h
  func_polling-IsPolled num main ws k (some awake) e h = take_polling-IsPolled num main ws k e h
  func_polling-IsPolled num main ws k (some asleep) e h = h
  func_polling-IsPolled num main ws k (some gone) e h = h
  func_polling-IsPolled num main ws k (some (busy n)) e h = record {
    reached = func_step num main ws k (busy n) e h.reached;
    none_asleep = omega (arith, h.none_asleep, count_by-set is_asleep ws k (busy n) awake e);
    main_awake = h.main_awake;
  }

PollReach-IsPolled :
    {threads first last : ℕ} {s : System}
    → PollReach threads first last s
    → IsPolled threads first last s
PollReach-IsPolled {threads = threads} begin = record {
  reached = Reach.begin;
  none_asleep = count_by-replicate is_asleep threads awake refl;
  main_awake = tt;
}
PollReach-IsPolled (main_runs {s = s} r) =
    main_polling-IsPolled _ _ _ s.i s.taken s.printed s.num s.main s.workers (PollReach-IsPolled r)
PollReach-IsPolled (func_runs {s = s} w r) =
    func_polling-IsPolled _ _ _ s.i s.taken s.printed s.num s.main s.workers w
      (get_elem? s.workers w) refl (PollReach-IsPolled r)

-- primer_1_pool.c refines primer_1_pool_cond.c: a state that it can reach is one that the other can reach,
-- in which no thread waits for the condition.
pub PollReach-Reach :
    {threads first last : ℕ} {s : System}
    → PollReach threads first last s
    → Reach threads first last s × (count_by is_asleep s.workers ≡ 0)
PollReach-Reach r = let h = PollReach-IsPolled r in (h.reached, h.none_asleep)
