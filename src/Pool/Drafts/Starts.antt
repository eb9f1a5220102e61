-- ===== src/Pool/Drafts/Starts.antt =====
-- The add loops of both server_test.c of 36.项目实例.
use apue_li_huiqin.Base.{
  ℕ, zero, suc, ◌+◌, ◌-◌, ◌≤◌, ◌<◌, ◌≡◌, refl, sym, ◌∙◌, true, false, Option, some, arith, ltb, leb,
  set, Bool-cases, Option-cases, inl, inr, count_by,
}
use apue_li_huiqin.Pool.{
  Server, state_idel, minspareserver, maxspareserver, maxclients, Pool, is_vacant, is_idle, is_busy,
  find_slot, fork_at, add_1_server, grow, control,
}
use apue_li_huiqin.Pool.Slots.{Found, find_slot-Found, find_slot-none, count_by-set}
use apue_li_huiqin.Pool.Counts.{IsCounted}
use apue_li_huiqin.Pool.Resize.{Succeeds}
use apue_li_huiqin.Pool.Drafts.{
  start_at, add_at, add_uncounted, add_counted, grow_draft, and_then, grow_if_few,
  control_uncounted, control_counted,
}

add_at-counted :
    (pid : ℕ) (p : Pool)
    → leb maxclients (p.idle_count + p.busy_count) ≡ false
    → add_at (some pid) 1 p ≡ some (add_1_server (some pid) p).0
unfolding add_at start_at add_1_server fork_at
add_at-counted pid p e = elim (Option-cases (find_slot p.serverpool 0)) [
  | inl n ↦ rw (add_at, n, e) refl
  | inr (slot, q) ↦ rw (add_at, q, e) refl
]

-- Where `fork` succeeds, `add_1_server` of 动态进程池/server_test.c does what that of server.c does.
add_counted-add_1_server :
    (pid : ℕ) (p : Pool) → add_counted (some pid) p ≡ some (add_1_server (some pid) p).0
unfolding add_counted add_1_server
add_counted-add_1_server pid p = elim (Bool-cases (leb maxclients (p.idle_count + p.busy_count))) [
  | inl e ↦ rw e refl
  | inr e ↦
      let below : add_counted (some pid) p ≡ add_at (some pid) 1 p = rw (add_counted, e) refl in
      below ∙ add_at-counted pid p e
]

grow_draft-grow :
    (fuel i : ℕ) (forks : ℕ → Option ℕ) (p : Pool)
    → Succeeds forks
    → grow_draft add_counted fuel i forks p ≡ some (grow fuel i forks p)
unfolding grow_draft grow and_then
grow_draft-grow zero i forks p ok = refl
grow_draft-grow (suc fuel) i forks p ok =
    let (pid, e) = ok i in
    let one : add_counted (forks i) p ≡ some (add_1_server (forks i) p).0 =
      rw e (add_counted-add_1_server pid p) in
    let rest = grow_draft-grow fuel (i + 1) forks (add_1_server (forks i) p).0 ok in
    elim (Bool-cases (ltb i (minspareserver - p.idle_count))) [
      | inl f ↦ rw (f, one) rest
      | inr f ↦ rw f refl
    ]

-- With at most 10 idle servers, and where every `fork` succeeds, 动态进程池/server_test.c resizes the pool as
-- server.c does.
control_counted-control :
    (forks : ℕ → Option ℕ) (p : Pool)
    → p.idle_count ≤ maxspareserver
    → Succeeds forks
    → control_counted forks p ≡ some (control forks p)
unfolding control_counted grow_if_few control
control_counted-control forks p h ok =
    let e : ltb maxspareserver p.idle_count ≡ false = ground arith in
    elim (Bool-cases (ltb p.idle_count minspareserver)) [
      | inl few ↦ rw (e, few) (grow_draft-grow minspareserver 0 forks p ok)
      | inr many ↦ rw (e, many) refl
    ]

-- What the add loop of 动态进程/server_test.c leaves, with `k` servers more.
record Filled (p : Pool) (k : ℕ) (o : Option Pool) : Type 0 where
  pub left : Pool
  pub returned : o ≡ some left
  pub idle : count_by is_idle left.serverpool ≡ count_by is_idle p.serverpool + k
  pub busy : count_by is_busy left.serverpool ≡ count_by is_busy p.serverpool
  pub signalled : left.signalled ≡ p.signalled

not-Filled : (p : Pool) (k : ℕ) → k ≡ 0 → Filled p k (some p)
not-Filled p k h = record {
  left = p;
  returned = refl;
  idle = omega (arith, h);
  busy = refl;
  signalled = refl;
}

-- The pool behind a start into the slot.
abbrev started : ℕ → Pool → ℕ → Pool
started pid p slot = record p {
  serverpool = set p.serverpool slot (record { pid = some pid; state = state_idel });
  idle_count = p.idle_count + 0;
}

started-counts :
    (pid : ℕ) (p : Pool) (slot : ℕ)
    → Found p.serverpool 0 slot
    → let q = started pid p slot in
      (count_by is_idle q.serverpool ≡ count_by is_idle p.serverpool + 1)
      × (count_by is_busy q.serverpool ≡ count_by is_busy p.serverpool)
      × (count_by is_vacant q.serverpool + 1 ≡ count_by is_vacant p.serverpool)
started-counts pid p slot f =
    let e : slot ≡ f.index = omega (arith, f.at) in
    let t : Server = record { pid = some pid; state = state_idel } in
    rw e (
      ground (arith, count_by-set is_idle p.serverpool f.index f.server t f.here, f.vacancy),
      ground (arith, count_by-set is_busy p.serverpool f.index f.server t f.here, f.vacancy),
      ground (arith, count_by-set is_vacant p.serverpool f.index f.server t f.here, f.vacancy),
    )

add_uncounted-started :
    (pid : ℕ) (p : Pool) (slot : ℕ)
    → find_slot p.serverpool 0 ≡ some slot
    → add_uncounted (some pid) p ≡ some (started pid p slot)
unfolding add_uncounted start_at add_at
add_uncounted-started pid p slot e = rw (add_uncounted, add_at, e) refl

grow_draft-Filled :
    (fuel i : ℕ) (forks : ℕ → Option ℕ) (p : Pool)
    → minspareserver ≤ fuel + i
    → minspareserver - p.idle_count - i ≤ count_by is_vacant p.serverpool
    → Succeeds forks
    → Filled p (minspareserver - p.idle_count - i) (grow_draft add_uncounted fuel i forks p)
unfolding grow_draft and_then
grow_draft-Filled zero i forks p enough room ok = not-Filled p _ (omega arith)
grow_draft-Filled (suc fuel) i forks p enough room ok =
    elim (Bool-cases (ltb i (minspareserver - p.idle_count))) [
      | inr f ↦ rw f (not-Filled p _ (ground arith))
      | inl f ↦
          let (pid, e) = ok i in
          let lt : i < minspareserver - p.idle_count = ground arith in
          elim (Option-cases (find_slot p.serverpool 0)) [
            | inl n ↦ absurd (omega (arith, find_slot-none p.serverpool 0 n, lt))
            | inr (slot, q) ↦
                let one : add_uncounted (forks i) p ≡ some (started pid p slot) =
                  rw e (add_uncounted-started pid p slot q) in
                let c = started-counts pid p slot (find_slot-Found p.serverpool 0 q) in
                let r =
                  grow_draft-Filled fuel (i + 1) forks (started pid p slot) (omega arith)
                    (omega (arith, c)) ok in
                rw (f, one)
                  (record {
                    left = r.left;
                    returned = r.returned;
                    idle = omega (arith, r.idle, c, lt);
                    busy = r.busy ∙ c.1;
                    signalled = r.signalled;
                  })
          ]
    ]

-- With fewer than 5 idle servers, exact counters, room for the missing ones, and where every `fork`
-- succeeds: 动态进程/server_test.c starts all that are missing, so that 5 are idle; the busy ones stay, and
-- no signal is sent. (server.c, which counts each as it starts, starts half of them.)
pub control_uncounted-fills :
    (forks : ℕ → Option ℕ) (p : Pool)
    → IsCounted p
    → p.idle_count < minspareserver
    → minspareserver ≤ p.idle_count + count_by is_vacant p.serverpool
    → Succeeds forks
    → (q : Pool) × (control_uncounted forks p ≡ some q)
      × (count_by is_idle q.serverpool ≡ minspareserver)
      × (count_by is_busy q.serverpool ≡ p.busy_count)
      × (q.signalled ≡ p.signalled)
unfolding control_uncounted grow_if_few
control_uncounted-fills forks p c few room ok =
    let e : ltb maxspareserver p.idle_count ≡ false = ground arith in
    let f : ltb p.idle_count minspareserver ≡ true = ground arith in
    let r = grow_draft-Filled minspareserver 0 forks p (omega arith) (omega arith) ok in
    (r.left, rw (e, f) r.returned, omega (arith, r.idle, c.idle), r.busy ∙ sym c.busy, r.signalled)
