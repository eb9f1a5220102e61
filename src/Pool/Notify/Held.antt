-- ===== src/Pool/Notify/Held.antt =====
-- What holds of the pool of 36.项目实例/动态进程/server.c at every step of its parent, whatever the children
-- store in between.
use apue_li_huiqin.Base.{
  ℕ, zero, suc, ◌+◌, ◌<◌, ◌≤◌, ◌≡◌, ◌≢◌, ◌⊎◌, inl, inr, sym, ◌∙◌, Bool, true, false, not, Option,
  none, some, List, [], ◌∷◌, arith, ◌==◌, get_elem?, set, take, count_by, Bool-cases, Option-cases,
  All,
}
use apue_li_huiqin.Pool.{Server, Pool, is_vacant, is_idle, state_idel, state_busy}
use apue_li_huiqin.Pool.Slots.{count_by-set, IsKnown}
use apue_li_huiqin.Pool.Counts.{IsShaped}
use apue_li_huiqin.Pool.Notify.{
  Phase, starts, waits, scans, tests_busy, shrinks, kills, grows, shows, aborted, scan_slot,
  test_busy, kill_at, kill_slot, show_slot, marked,
}
use apue_li_huiqin.Pool.Notify.Slots.{
  is_used, bit_at, count_by-take-suc, take-set, get_elem?-set, IsSummed, set-IsShaped,
}

-- A slot in use whose state the scan has found not to be STATE_IDEL: it is not, or a child has stored since.
pub record IsTested (between : Bool) (o : Option Server) : Type 0 where
  pub server : Server
  pub here : o ≡ some server
  pub used : is_vacant server ≡ false
  pub state : (between ≡ true) ⊎ (server.state ≢ state_idel)

-- What holds at a phase: both counters together are the number of slots in use, and in the scan both
-- locals that of the slots scanned. `abort` is reached only where a child has stored between the two
-- reads of a state.
unfoldable pub Holds : Bool → Pool → Phase → Type 0
Holds between p (starts i) = IsSummed p
Holds between p waits = IsSummed p
Holds between p (scans i idle busy) = idle + busy ≡ count_by is_used (take i p.serverpool)
Holds between p (tests_busy i idle busy) =
    (idle + busy ≡ count_by is_used (take i p.serverpool))
    × IsTested between (get_elem? p.serverpool i)
Holds between p (shrinks i) = IsSummed p
Holds between p (kills i j) = IsSummed p × (0 < p.idle_count)
Holds between p (grows i) = IsSummed p
Holds between p (shows j) = IsSummed p
Holds between p aborted = between ≡ true

-- The array has its 20 slots, with known states, and what belongs to the phase holds.
pub record Held (between : Bool) (phase : Phase) (p : Pool) : Type 0 where
  pub shaped : IsShaped p
  pub holds : Holds between p phase

pub get-IsKnown :
    (ss : List Server) (i : ℕ) {s : Server} → All IsKnown ss → get_elem? ss i ≡ some s → s.state ≤ 1
get-IsKnown [] i a h = cc
get-IsKnown (x ∷ ss) zero a h = ground (arith, a, h)
get-IsKnown (x ∷ ss) (suc i) a h = get-IsKnown ss i a.1 h

-- A step, with the mark that it leaves.
unfoldable pub Moved : Bool → Phase × Pool → Type 0
Moved b (phase, p) = Held (marked phase b) phase p

-- The head of the loop of the scan moves on behind a slot.
module _ (p : Pool) (i idle busy : ℕ) (sh : IsShaped p)
    (e : idle + busy ≡ count_by is_used (take i p.serverpool)) where
  next_count :
      (o : Option Server)
      → get_elem? p.serverpool i ≡ o
      → count_by is_used (take (i + 1) p.serverpool) ≡ idle + busy + bit_at is_used o
  next_count o h =
      let one : i + 1 ≡ suc i = omega arith in
      rw one (rw (sym h) (omega (arith, count_by-take-suc is_used p.serverpool i, e)))

  pub scan_slot-Moved :
      (b alive : Bool) (o : Option Server)
      → get_elem? p.serverpool i ≡ o
      → Moved b (scan_slot alive i idle busy p o)
  unfolding Moved scan_slot Holds marked
  scan_slot-Moved b alive none h = record { shaped = sh; holds = omega (arith, next_count none h) }
  scan_slot-Moved b alive (some s) h = elim (Bool-cases (is_vacant s)) [
    | inl v ↦ rw v (record { shaped = sh; holds = ground (arith, next_count (some s) h, v) })
    | inr v ↦ elim (Bool-cases (not alive)) [
      | inl d ↦
          let t : Server = record s { pid = none } in
          let one : i + 1 ≡ suc i = omega arith in
          let ss = set p.serverpool i t in
          let gone : count_by is_used (take (suc i) ss) ≡ idle + busy =
            count_by-take-suc is_used ss i
            ∙ rw (get_elem?-set p.serverpool i t h, take-set p.serverpool i t) (omega (arith, e)) in
          rw (v, d)
            (record {
              shaped = set-IsShaped p i t sh (get-IsKnown p.serverpool i sh.known h);
              holds = rw one (sym gone);
            })
      | inr d ↦ elim (Bool-cases (s.state == state_idel)) [
        | inl f ↦
            rw (v, d, f) (record { shaped = sh; holds = ground (arith, next_count (some s) h, v) })
        | inr f ↦
            rw (v, d, f)
              (record {
                shaped = sh;
                holds =
                    (e, record { server = s; here = h; used = v; state = inr (ground (arith, f)) });
              })
      ]
    ]
  ]

  pub test_busy-Moved :
      (b : Bool) (o : Option Server)
      → get_elem? p.serverpool i ≡ o
      → IsTested b o
      → Moved b (test_busy i idle busy o, p)
  unfolding Moved test_busy Holds marked
  test_busy-Moved b none h t = absurd (let k = t.here in cc)
  test_busy-Moved b (some s) h t = elim (Bool-cases (s.state == state_busy)) [
    | inl f ↦
        let used : is_vacant s ≡ false = ground (arith, t.here, t.used) in
        rw f (record { shaped = sh; holds = ground (arith, next_count (some s) h, used) })
    | inr f ↦
        let known : s.state ≤ 1 = get-IsKnown p.serverpool i sh.known h in
        let marked_true : b ≡ true = ground (arith, t.here, t.state, f, known) in
        rw f (record { shaped = sh; holds = marked_true })
  ]

pub kill_slot-Moved :
    (b : Bool) (i j : ℕ) (p : Pool)
    → IsShaped p
    → IsSummed p
    → 0 < p.idle_count
    → (o : Option Server) → get_elem? p.serverpool j ≡ o
    → Moved b (kill_slot i j p o)
unfolding Moved kill_slot kill_at Holds marked
kill_slot-Moved b i j p sh e pos none h = record { shaped = sh; holds = (e, pos) }
kill_slot-Moved b i j p sh e pos (some s) h = elim (Option-cases (s.pid)) [
  | inl n ↦
      let idle : is_idle s ≡ false = ground (arith, n) in
      rw idle (record { shaped = sh; holds = (e, pos) })
  | inr (pid, q) ↦ elim (Bool-cases (is_idle s)) [
    | inl idle ↦
        let t : Server = record s { pid = none } in
        rw (idle, q)
          (record {
            shaped = record {
              size = (set-IsShaped p j t sh (get-IsKnown p.serverpool j sh.known h)).size;
              known = (set-IsShaped p j t sh (get-IsKnown p.serverpool j sh.known h)).known;
            };
            holds = ground (arith, count_by-set is_used p.serverpool j s t h, q, e, pos);
          })
    | inr idle ↦ rw idle (record { shaped = sh; holds = (e, pos) })
  ]
]

pub show_slot-Held :
    (b : Bool) (j : ℕ) (p : Pool) (o : Option Server)
    → IsShaped p
    → IsSummed p
    → Held b (shows j) (show_slot p o)
unfolding show_slot Holds
show_slot-Held b j p none sh e = record { shaped = sh; holds = e }
show_slot-Held b j p (some s) sh e = record {
  shaped = record { size = sh.size; known = sh.known };
  holds = e;
}
