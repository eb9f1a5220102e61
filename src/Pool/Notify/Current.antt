-- ===== src/Pool/Notify/Current.antt =====
-- What the pool of 36.项目实例/动态进程/server.c shows when its parent waits.
use mathlib.Core.Path.{subst}
use mathlib.Core.List.{append_assoc}
use apue_li_huiqin.Base.{
  ℕ, ◌-◌, ◌<◌, ◌≡◌, ◌⊎◌, inl, inr, refl, sym, ◌∙◌, ap, Bool, true, false, Option, List, [], ◌∷◌,
  ◌++◌, arith, ltb, ◌==◌, get_elem?, take, count_by, map, Bool-cases, take_all,
}
use apue_li_huiqin.Pool.{Pool, is_idle, is_busy, minspareserver, maxspareserver, maxclients, glyph}
use apue_li_huiqin.Pool.Counts.{IsShaped, IsCounted, add_1_server-Added}
use apue_li_huiqin.Pool.Notify.{
  Phase, starts, waits, scans, tests_busy, shrinks, kills, grows, shows, aborted, System, advance,
  move, store, notify, wake, Step, stores, notifies, wakes, moves, Setup, block, set_up, ready,
  Reach, begin, later,
}
use apue_li_huiqin.Pool.Notify.Exact.{
  Exact, ExactStep, shows_first, decide-Exact, scan_slot-Exact, test_busy-Exact, kill_slot-Exact,
  add_1_server-shown, show_slot-Exact,
}
use apue_li_huiqin.Pool.Notify.Always.{first_of, Reach-Held}

advance-Exact :
    (alive : Bool) (fork : Option ℕ) (phase : Phase) (p : Pool)
    → IsShaped p
    → Exact p phase
    → ExactStep (advance alive fork phase p)
unfolding advance Exact
advance-Exact alive fork (starts i) p sh h = elim (Bool-cases (ltb i minspareserver)) [
  | inl e ↦
      let a = add_1_server-Added fork p sh h.0 in rw e (a.counted, add_1_server-shown fork p ∙ h.1)
  | inr e ↦ rw e (h.0, inl h.1)
]
advance-Exact alive fork waits p sh h = h
advance-Exact alive fork (scans i idle busy) p sh h = elim (Bool-cases (ltb i maxclients)) [
  | inl e ↦ rw e (scan_slot-Exact p i idle busy sh h.0 h.1 alive (get_elem? p.serverpool i) refl)
  | inr e ↦
      let whole : take i p.serverpool ≡ p.serverpool =
        take_all i p.serverpool (ground (arith, sh.size, e)) in
      rw e (
        decide-Exact (record p { idle_count = idle; busy_count = busy })
          (record {
            idle = h.0 ∙ ap (count_by is_idle) whole;
            busy = h.1 ∙ ap (count_by is_busy) whole;
          }))
]
advance-Exact alive fork (tests_busy i idle busy) p sh h =
    test_busy-Exact p i idle busy sh h.0.0 h.0.1 (get_elem? p.serverpool i) refl h.1
advance-Exact alive fork (shrinks i) p sh h =
    elim (Bool-cases (ltb i (p.idle_count - maxspareserver))) [
      | inl e ↦ elim (Bool-cases (p.idle_count == 0)) [ inl z ↦ rw (e, z) h | inr z ↦ rw (e, z) h ]
      | inr e ↦ rw e (shows_first p h)
    ]
advance-Exact alive fork (kills i j) p sh h = elim (Bool-cases (ltb j maxclients)) [
  | inl e ↦ rw e (kill_slot-Exact i j p (get_elem? p.serverpool j) h refl)
  | inr e ↦ rw e h
]
advance-Exact alive fork (grows i) p sh h =
    elim (Bool-cases (ltb i (minspareserver - p.idle_count))) [
      | inl e ↦ let a = add_1_server-Added fork p sh h in rw e a.counted
      | inr e ↦ rw e (shows_first p h)
    ]
advance-Exact alive fork (shows j) p sh h = elim (Bool-cases (ltb j maxclients)) [
  | inl e ↦ rw e (show_slot-Exact j p (get_elem? p.serverpool j) h.0 h.1 refl)
  | inr e ↦
      let whole : take j p.serverpool ≡ p.serverpool =
        take_all j p.serverpool (ground (arith, sh.size, e)) in
      let (before, line) = h.1 in
      rw e (
        record { idle = h.0.idle; busy = h.0.busy },
        inr (
          before,
          ap (λ l. l ++ (10 ∷ [])) line
              ∙ append_assoc before (map glyph (take j p.serverpool)) (10 ∷ [])
              ∙ ap (λ l. before ++ (map glyph l ++ (10 ∷ []))) whole,
        ),
      )
]
advance-Exact alive fork aborted p sh h = h

-- The signal is blocked; one is pending, or is to come, or no store has been overlooked.
record Now (s : System) : Type 0 where
  blocked : s.blocked ≡ true
  current : (s.pending ≡ true) ⊎ ((0 < s.unreported) ⊎ Exact s.pool s.phase)

advance-current :
    {n : ℕ} {b : Bool} (alive : Bool) (fork : Option ℕ) (phase : Phase) (p : Pool)
    → IsShaped p
    → (b ≡ true) ⊎ ((0 < n) ⊎ Exact p phase)
    → (b ≡ true) ⊎ ((0 < n) ⊎ ExactStep (advance alive fork phase p))
advance-current alive fork phase p sh (inl q) = inl q
advance-current alive fork phase p sh (inr (inl k)) = inr (inl k)
advance-current alive fork phase p sh (inr (inr h)) =
    inr (inr (advance-Exact alive fork phase p sh h))

Step-Now : {s t : System} → Step s t → IsShaped s.pool → Now s → Now t
unfolding store notify wake move Exact
Step-Now (stores pos state server at known) sh h = record {
  blocked = h.blocked;
  current = inr (inl (omega arith));
}
Step-Now (notifies others e) sh h = record {
  blocked = h.blocked;
  current = inl (rw (h.blocked) refl);
}
Step-Now (wakes e q) sh h = record { blocked = h.blocked; current = inr (inr (refl, refl)) }
Step-Now (moves {s = s} alive fork) sh h = record {
  blocked = h.blocked;
  current = advance-current alive fork s.phase s.pool sh h.current;
}

begun-Now : (calls : Setup) (s : System) → set_up calls ≡ ready s → Now s
unfolding Exact block
begun-Now calls s e =
    subst Now (sym (first_of calls s e))
      (record { blocked = refl; current = inr (inr (record { idle = refl; busy = refl }, refl)) })

Reach-Now : {calls : Setup} {s : System} → Reach calls s → Now s
Reach-Now {calls = calls} (begin s e) = begun-Now calls s e
Reach-Now (later r st) = Step-Now st (Reach-Held r).shaped (Reach-Now r)

-- No store of a child is overlooked, wherever in the parent's loop it comes. However the parent, its
-- children and the signals take turns behind a set-up that succeeds: when the parent waits in `sigsuspend`,
-- with no signal pending, and with no child between a store and its signal or dead there, then the counters
-- are exact for the slots as they are, and either nothing has been printed yet or the line printed last
-- shows the slots as they are.
pub Reach-shown :
    {calls : Setup} {s : System}
    → Reach calls s
    → s.phase ≡ waits
    → s.pending ≡ false
    → s.unreported ≡ 0
    → IsCounted s.pool
      × ((s.pool.shown ≡ [])
          ⊎ ((before : List ℕ) × (s.pool.shown
                ≡ before ++ (map glyph s.pool.serverpool ++ (10 ∷ [])))))
unfolding Exact
Reach-shown {s = s} r w p u = elim ((Reach-Now r).current) [
  | inl q ↦ absurd (let both : false ≡ true = sym p ∙ q in cc)
  | inr (inl q) ↦ absurd (omega arith)
  | inr (inr v) ↦ let at_waits : Exact s.pool waits = subst (Exact s.pool) w v in at_waits
]
