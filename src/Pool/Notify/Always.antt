-- ===== src/Pool/Notify/Always.antt =====
-- No step of the parent of 36.项目实例/动态进程/server.c, of a child or of a signal breaks what holds of its pool.
use mathlib.Core.Path.{subst}
use apue_li_huiqin.Base.{
  ℕ, zero, suc, ◌+◌, ◌-◌, ◌≡◌, inl, inr, refl, sym, ◌∙◌, ap, Bool, true, false, Option, some, List,
  [], ◌∷◌, arith, ltb, ◌==◌, get_elem?, set, take, count_by, Bool-cases, take_all,
}
use apue_li_huiqin.Pool.{Server, Pool, is_vacant, minspareserver, maxspareserver, maxclients}
use apue_li_huiqin.Pool.Slots.{count_by-set}
use apue_li_huiqin.Pool.Counts.{IsShaped}
use apue_li_huiqin.Pool.Notify.{
  Phase, starts, waits, scans, tests_busy, shrinks, kills, grows, shows, aborted, System, decide,
  advance, marked, move, store, notify, wake, Step, stores, notifies, wakes, moves, Setup, block,
  set_up, loaded, ready, Reach, begin, later,
}
use apue_li_huiqin.Pool.Notify.Slots.{
  is_used, count_by-take-set, IsSummed, set-IsShaped, add_1_server-Kept,
}
use apue_li_huiqin.Pool.Notify.Held.{
  IsTested, Holds, Held, Moved, scan_slot-Moved, test_busy-Moved, kill_slot-Moved, show_slot-Held,
}

decide-Marked : (b : Bool) (p : Pool) → IsShaped p → IsSummed p → Moved b (decide p, p)
unfolding decide Moved marked Holds
decide-Marked b p sh e = elim (Bool-cases (ltb maxspareserver p.idle_count)) [
  | inl x ↦ rw x (record { shaped = sh; holds = e })
  | inr x ↦ elim (Bool-cases (ltb p.idle_count minspareserver)) [
    | inl y ↦ rw (x, y) (record { shaped = sh; holds = e })
    | inr y ↦ rw (x, y) (record { shaped = sh; holds = e })
  ]
]

pub advance-Moved :
    (b alive : Bool) (fork : Option ℕ) (phase : Phase) (p : Pool)
    → Held b phase p
    → Moved b (advance alive fork phase p)
unfolding Moved advance Holds marked
advance-Moved b alive fork (starts i) p h = elim (Bool-cases (ltb i minspareserver)) [
  | inl e ↦
      let k = add_1_server-Kept fork p (record { shaped = h.shaped; summed = h.holds }) in
      rw e (record { shaped = k.shaped; holds = k.summed })
  | inr e ↦ rw e (record { shaped = h.shaped; holds = h.holds })
]
advance-Moved b alive fork waits p h = h
advance-Moved b alive fork (scans i idle busy) p h = elim (Bool-cases (ltb i maxclients)) [
  | inl e ↦
      rw e (scan_slot-Moved p i idle busy h.shaped h.holds b alive (get_elem? p.serverpool i) refl)
  | inr e ↦
      let q : Pool = record p { idle_count = idle; busy_count = busy } in
      let whole : take i p.serverpool ≡ p.serverpool =
        take_all i p.serverpool (ground (arith, h.shaped.size, e)) in
      let sum : idle + busy ≡ count_by is_used p.serverpool =
        h.holds ∙ ap (count_by is_used) whole in
      rw e (decide-Marked b q (record { size = h.shaped.size; known = h.shaped.known }) sum)
]
advance-Moved b alive fork (tests_busy i idle busy) p h =
    test_busy-Moved p i idle busy h.shaped h.holds.0 b (get_elem? p.serverpool i) refl h.holds.1
advance-Moved b alive fork (shrinks i) p h =
    elim (Bool-cases (ltb i (p.idle_count - maxspareserver))) [
      | inl e ↦ elim (Bool-cases (p.idle_count == 0)) [
        | inl z ↦ rw (e, z) (record { shaped = h.shaped; holds = h.holds })
        | inr z ↦ rw (e, z) (record { shaped = h.shaped; holds = (h.holds, ground (arith, z)) })
      ]
      | inr e ↦ rw e (record { shaped = h.shaped; holds = h.holds })
    ]
advance-Moved b alive fork (kills i j) p h = elim (Bool-cases (ltb j maxclients)) [
  | inl e ↦
      rw e (kill_slot-Moved b i j p h.shaped h.holds.0 h.holds.1 (get_elem? p.serverpool j) refl)
  | inr e ↦ rw e (record { shaped = h.shaped; holds = h.holds.0 })
]
advance-Moved b alive fork (grows i) p h =
    elim (Bool-cases (ltb i (minspareserver - p.idle_count))) [
      | inl e ↦
          let k = add_1_server-Kept fork p (record { shaped = h.shaped; summed = h.holds }) in
          rw e (record { shaped = k.shaped; holds = k.summed })
      | inr e ↦ rw e (record { shaped = h.shaped; holds = h.holds })
    ]
advance-Moved b alive fork (shows j) p h = elim (Bool-cases (ltb j maxclients)) [
  | inl e ↦ rw e (show_slot-Held b (j + 1) p (get_elem? p.serverpool j) h.shaped h.holds)
  | inr e ↦
      rw e (record {
        shaped = record { size = h.shaped.size; known = h.shaped.known };
        holds = h.holds;
      })
]
advance-Moved b alive fork aborted p h = h

-- A slot in use stays so where a child stores.
stays_used :
    (ss : List Server) (pos i state : ℕ) {server s : Server}
    → get_elem? ss pos ≡ some server
    → get_elem? ss i ≡ some s
    → is_vacant s ≡ false
    → (t : Server) × ((get_elem? (set ss pos (record server { state = state })) i ≡ some t)
        × (is_vacant t ≡ false))
stays_used [] pos i state h k u = cc
stays_used (x ∷ ss) zero zero state {server} h k u =
    (record server { state = state }, (refl, ground (arith, h, k, u)))
stays_used (x ∷ ss) zero (suc i) state {s = s} h k u = (s, (k, u))
stays_used (x ∷ ss) (suc pos) zero state {s = s} h k u = (s, (k, u))
stays_used (x ∷ ss) (suc pos) (suc i) state h k u = stays_used ss pos i state h k u

module _ (b : Bool) (pos state : ℕ) (server : Server) (p : Pool)
    (at : get_elem? p.serverpool pos ≡ some server) where
  written : Pool
  written = record p { serverpool = set p.serverpool pos (record server { state = state }) }

  written-IsSummed : IsSummed p → IsSummed written
  unfolding written
  written-IsSummed e =
      ground (
        arith,
        count_by-set is_used p.serverpool pos server (record server { state = state }) at,
        e,
      )

  written-take :
      (n i : ℕ)
      → n ≡ count_by is_used (take i p.serverpool)
      → n ≡ count_by is_used (take i written.serverpool)
  unfolding written
  written-take n i e =
      e
      ∙ sym (count_by-take-set is_used p.serverpool i pos (record server { state = state }) at refl)

  written-IsTested :
      (i : ℕ)
      → IsTested b (get_elem? p.serverpool i)
      → IsTested true (get_elem? written.serverpool i)
  unfolding written
  written-IsTested i t =
      let (s, k) = stays_used p.serverpool pos i state at t.here t.used in
      record { server = s; here = k.0; used = k.1; state = inl refl }

  written-Holds : (phase : Phase) → Holds b p phase → Holds true written phase
  unfolding Holds
  written-Holds (starts i) h = written-IsSummed h
  written-Holds waits h = written-IsSummed h
  written-Holds (scans i idle busy) h = written-take (idle + busy) i h
  written-Holds (tests_busy i idle busy) h =
      (written-take (idle + busy) i h.0, written-IsTested i h.1)
  written-Holds (shrinks i) h = written-IsSummed h
  written-Holds (kills i j) h = unfold written in (written-IsSummed h.0, h.1)
  written-Holds (grows i) h = written-IsSummed h
  written-Holds (shows j) h = written-IsSummed h
  written-Holds aborted h = refl

abbrev pub HeldIn : System → Type 0
HeldIn s = Held s.between s.phase s.pool

Step-Held : {s t : System} → Step s t → HeldIn s → HeldIn t
unfolding store notify wake move Moved written Holds
Step-Held (stores {s = s} pos state server at known) h = record {
  shaped = set-IsShaped s.pool pos (record server { state = state }) h.shaped known;
  holds = written-Holds s.between pos state server s.pool at s.phase h.holds;
}
Step-Held (notifies others e) h = h
Step-Held (wakes e q) h = record { shaped = h.shaped; holds = refl }
Step-Held (moves {s = s} alive fork) h = advance-Moved s.between alive fork s.phase s.pool h

pub first_of : (calls : Setup) (s : System) → set_up calls ≡ ready s → s ≡ block loaded
unfolding set_up
first_of calls s e = ground arith

begun : (calls : Setup) (s : System) → set_up calls ≡ ready s → HeldIn s
unfolding block Holds
begun calls s e =
    let first = first_of calls s e in
    subst HeldIn (sym first)
      (record { shaped = record { size = refl; known = omega arith }; holds = refl })

-- However the parent of the pool, its children and the signals take turns behind a set-up that succeeds,
-- and whatever dies or fails to fork: the array keeps its 20 slots, with the two states that the children
-- store. Outside of the scan idle_count and busy_count together are the number of slots in use, and within
-- it idle and busy that of the slots scanned. abort() is reached only where a child has stored between the
-- two reads of a state.
pub Reach-Held : {calls : Setup} {s : System} → Reach calls s → Held s.between s.phase s.pool
Reach-Held {calls = calls} (begin s e) = begun calls s e
Reach-Held (later r st) = Step-Held st (Reach-Held r)
