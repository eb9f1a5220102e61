-- ===== src/Pool/Notify/Exact.antt =====
-- What the steps of the parent of 36.项目实例/动态进程/server.c make of exact counts.
use mathlib.Core.List.{append-nil, append_assoc}
use apue_li_huiqin.Base.{
  ℕ, suc, ◌+◌, ◌≡◌, ◌⊎◌, inl, inr, refl, sym, ◌∙◌, ap, Bool, false, not, Option, none, some, List,
  [], ◌∷◌, ◌++◌, arith, ltb, leb, ◌==◌, get_elem?, set, take, count_by, map, Bool-cases,
  Option-cases,
}
use apue_li_huiqin.Pool.{
  Server, Pool, is_vacant, is_idle, is_busy, state_idel, state_busy, minspareserver, maxspareserver,
  maxclients, find_slot, fork_at, add_1_server, glyph,
}
use apue_li_huiqin.Pool.Slots.{count_by-set}
use apue_li_huiqin.Pool.Counts.{IsShaped, IsCounted}
use apue_li_huiqin.Pool.Notify.{
  Phase, starts, waits, scans, tests_busy, shrinks, kills, grows, shows, aborted, decide, scan_slot,
  test_busy, kill_at, kill_slot, show_slot,
}
use apue_li_huiqin.Pool.Notify.Slots.{
  bit_at, count_by-take-suc, take-set, get_elem?-set, map-glyph-take, map-glyph-take-none,
}
use apue_li_huiqin.Pool.Notify.Held.{IsTested}

-- The characters of the first `j` slots have been printed last.
abbrev pub IsPrinted : ℕ → Pool → Type 0
IsPrinted j p = (before : List ℕ) × (p.shown ≡ before ++ map glyph (take j p.serverpool))

-- What holds at a phase where no child has stored since the parent last waited.
unfoldable pub Exact : Pool → Phase → Type 0
Exact p (starts i) = IsCounted p × (p.shown ≡ [])
Exact p waits =
    IsCounted p
    × ((p.shown ≡ [])
        ⊎ ((before : List ℕ) × (p.shown ≡ before ++ (map glyph p.serverpool ++ (10 ∷ [])))))
Exact p (scans i idle busy) =
    (idle ≡ count_by is_idle (take i p.serverpool))
    × (busy ≡ count_by is_busy (take i p.serverpool))
Exact p (tests_busy i idle busy) =
    ((idle ≡ count_by is_idle (take i p.serverpool))
      × (busy ≡ count_by is_busy (take i p.serverpool)))
    × IsTested false (get_elem? p.serverpool i)
Exact p (shrinks i) = IsCounted p
Exact p (kills i j) = IsCounted p
Exact p (grows i) = IsCounted p
Exact p (shows j) = IsCounted p × IsPrinted j p
Exact p aborted = Unit

abbrev pub ExactStep : Phase × Pool → Type 0
ExactStep (phase, p) = Exact p phase

pub shows_first : (p : Pool) → IsCounted p → Exact p (shows 0)
unfolding Exact
shows_first p c = (c, (p.shown, sym (append-nil p.shown)))

pub decide-Exact : (p : Pool) → IsCounted p → ExactStep (decide p, p)
unfolding decide Exact
decide-Exact p c = elim (Bool-cases (ltb maxspareserver p.idle_count)) [
  | inl x ↦ rw x c
  | inr x ↦ elim (Bool-cases (ltb p.idle_count minspareserver)) [
    | inl y ↦ rw (x, y) c
    | inr y ↦ rw (x, y) (shows_first p c)
  ]
]

module _ (p : Pool) (i idle busy : ℕ) (sh : IsShaped p)
    (a : idle ≡ count_by is_idle (take i p.serverpool))
    (c : busy ≡ count_by is_busy (take i p.serverpool)) where
  next_idle :
      (o : Option Server)
      → get_elem? p.serverpool i ≡ o
      → count_by is_idle (take (i + 1) p.serverpool) ≡ idle + bit_at is_idle o
  next_idle o h =
      let one : i + 1 ≡ suc i = omega arith in
      rw one (rw (sym h) (omega (arith, count_by-take-suc is_idle p.serverpool i, a)))

  next_busy :
      (o : Option Server)
      → get_elem? p.serverpool i ≡ o
      → count_by is_busy (take (i + 1) p.serverpool) ≡ busy + bit_at is_busy o
  next_busy o h =
      let one : i + 1 ≡ suc i = omega arith in
      rw one (rw (sym h) (omega (arith, count_by-take-suc is_busy p.serverpool i, c)))

  pub scan_slot-Exact :
      (alive : Bool) (o : Option Server)
      → get_elem? p.serverpool i ≡ o
      → ExactStep (scan_slot alive i idle busy p o)
  unfolding scan_slot Exact
  scan_slot-Exact alive none h = (omega (arith, next_idle none h), omega (arith, next_busy none h))
  scan_slot-Exact alive (some s) h = elim (Bool-cases (is_vacant s)) [
    | inl v ↦
        rw v (ground (arith, next_idle (some s) h, v), ground (arith, next_busy (some s) h, v))
    | inr v ↦ elim (Bool-cases (not alive)) [
      | inl d ↦
          let t : Server = record s { pid = none } in
          let one : i + 1 ≡ suc i = omega arith in
          let ss = set p.serverpool i t in
          let same_idle : count_by is_idle (take (suc i) ss) ≡ idle =
            count_by-take-suc is_idle ss i
            ∙ rw (get_elem?-set p.serverpool i t h, take-set p.serverpool i t) (omega (arith, a)) in
          let same_busy : count_by is_busy (take (suc i) ss) ≡ busy =
            count_by-take-suc is_busy ss i
            ∙ rw (get_elem?-set p.serverpool i t h, take-set p.serverpool i t) (omega (arith, c)) in
          rw (v, d, one) (sym same_idle, sym same_busy)
      | inr d ↦ elim (Bool-cases (s.state == state_idel)) [
        | inl f ↦
            rw (v, d, f)
              (
                ground (arith, next_idle (some s) h, v, f),
                ground (arith, next_busy (some s) h, v, f),
              )
        | inr f ↦
            rw (v, d, f)
              ((a, c), record { server = s; here = h; used = v; state = inr (ground (arith, f)) })
      ]
    ]
  ]

  pub test_busy-Exact :
      (o : Option Server)
      → get_elem? p.serverpool i ≡ o
      → IsTested false o
      → ExactStep (test_busy i idle busy o, p)
  unfolding test_busy Exact
  test_busy-Exact none h t = tt
  test_busy-Exact (some s) h t = elim (Bool-cases (s.state == state_busy)) [
    | inl f ↦
        let used : is_vacant s ≡ false = ground (arith, t.here, t.used) in
        rw f (
          ground (arith, next_idle (some s) h, used, f),
          ground (arith, next_busy (some s) h, used, f),
        )
    | inr f ↦ rw f tt
  ]

pub kill_slot-Exact :
    (i j : ℕ) (p : Pool) (o : Option Server)
    → IsCounted p
    → get_elem? p.serverpool j ≡ o
    → ExactStep (kill_slot i j p o)
unfolding kill_slot kill_at Exact
kill_slot-Exact i j p none c h = c
kill_slot-Exact i j p (some s) c h = elim (Option-cases (s.pid)) [
  | inl n ↦ let idle : is_idle s ≡ false = ground (arith, n) in rw idle c
  | inr (pid, q) ↦ elim (Bool-cases (is_idle s)) [
    | inl idle ↦
        let t : Server = record s { pid = none } in
        let busy : is_busy s ≡ false = ground (arith, idle) in
        rw (idle, q)
          (record {
            idle = ground (arith, count_by-set is_idle p.serverpool j s t h, q, c.idle, idle);
            busy = ground (arith, count_by-set is_busy p.serverpool j s t h, q, c.busy, busy);
          })
    | inr idle ↦ rw idle c
  ]
]

pub add_1_server-shown : (fork : Option ℕ) (p : Pool) → (add_1_server fork p).0.shown ≡ p.shown
unfolding add_1_server fork_at
add_1_server-shown none p = elim (Bool-cases (leb maxclients (p.idle_count + p.busy_count))) [
  | inl e ↦ rw e refl
  | inr e ↦ elim (Option-cases (find_slot p.serverpool 0)) [
    | inl n ↦ rw (e, n) refl
    | inr (slot, q) ↦ rw (e, q) refl
  ]
]
add_1_server-shown (some pid) p = elim (Bool-cases (leb maxclients (p.idle_count + p.busy_count))) [
  | inl e ↦ rw e refl
  | inr e ↦ elim (Option-cases (find_slot p.serverpool 0)) [
    | inl n ↦ rw (e, n) refl
    | inr (slot, q) ↦ rw (e, q) refl
  ]
]

pub show_slot-Exact :
    (j : ℕ) (p : Pool) (o : Option Server)
    → IsCounted p
    → IsPrinted j p
    → get_elem? p.serverpool j ≡ o
    → Exact (show_slot p o) (shows (j + 1))
unfolding show_slot Exact
show_slot-Exact j p none c (before, e) h =
    let one : j + 1 ≡ suc j = omega arith in
    rw one (c, (before, e ∙ ap (λ l. before ++ l) (sym (map-glyph-take-none p.serverpool j h))))
show_slot-Exact j p (some s) c (before, e) h =
    let one : j + 1 ≡ suc j = omega arith in
    rw one (
      record { idle = c.idle; busy = c.busy },
      (
        before,
        ap (λ l. l ++ (glyph s ∷ [])) e
            ∙ append_assoc before (map glyph (take j p.serverpool)) (glyph s ∷ [])
            ∙ ap (λ l. before ++ l) (sym (map-glyph-take p.serverpool j h)),
      ),
    )
