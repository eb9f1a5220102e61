-- ===== src/Pool/Counts.antt =====
-- The two counters of the parent against the slots they count: `add_1_server` and
-- `del_1_server` of 36.项目实例/动态进程/server.c.
use apue_li_huiqin.Base.{
  ℕ, ◌+◌, ◌-◌, ◌<◌, ◌≡◌, refl, Bool, true, false, Option, none, some, List, [], ◌∷◌, arith, set,
  count_by, length, length-set, length-append, Bool-cases, Option-cases, leb, ltb, ◌==◌, ◌≢◌, All,
  inl, inr,
}
use apue_li_huiqin.Pool.{
  Server, Pool, is_idle, is_busy, find_slot, maxclients, state_idel, fork_at, add_1_server,
  kill_first_idle, after_kill, del_1_server,
}
use apue_li_huiqin.Pool.Slots.{
  bit, count_by-set, Found, find_slot-Found, find_slot-none, IsKnown, kinds-length, All-set, Killed,
  kill_first_idle-Killed,
}

-- The array has its size, and every `state` is one that the program stores.
pub record IsShaped (p : Pool) : Type 0 where
  pub size : length p.serverpool ≡ maxclients
  pub known : All IsKnown p.serverpool

-- The counters say how many servers are idle and busy.
pub record IsCounted (p : Pool) : Type 0 where
  pub idle : p.idle_count ≡ count_by is_idle p.serverpool
  pub busy : p.busy_count ≡ count_by is_busy p.serverpool

-- `s` is what a call of `add_1_server` leaves, with the result `done`, where `fork` answers `pid`.
pub record Added (p : Pool) (fork : Option ℕ) (out : Pool × Bool) : Type 0 where
  pub shaped : IsShaped out.0
  pub counted : IsCounted out.0
  pub same_busy : out.0.busy_count ≡ p.busy_count
  pub same_signals : out.0.signalled ≡ p.signalled
  pub gain : out.0.idle_count ≡ p.idle_count + bit out.1

-- The store into the slot that `find_slot` found, with a server that is vacant or idle.
module _ (p : Pool) (slot : ℕ) (t : Server) (f : Found p.serverpool 0 slot) where
  stored : List Server
  stored = set p.serverpool slot t

  stored-shape : IsShaped p → IsKnown t → (length stored ≡ maxclients) × All IsKnown stored
  unfolding stored
  stored-shape sh k = (
    omega (arith, length-set p.serverpool slot t, sh.size),
    All-set p.serverpool slot t sh.known k,
  )

  stored-counts :
      (is_busy t ≡ false)
      → (count_by is_idle stored ≡ count_by is_idle p.serverpool + bit (is_idle t))
        × (count_by is_busy stored ≡ count_by is_busy p.serverpool)
  unfolding stored
  stored-counts b =
      let e : slot ≡ f.index = omega (arith, f.at) in
      rw e (
        ground (arith, count_by-set is_idle p.serverpool f.index f.server t f.here, f.vacancy),
        ground (arith, count_by-set is_busy p.serverpool f.index f.server t f.here, f.vacancy),
      )

fork_at-Added :
    (fork : Option ℕ) (p : Pool) (slot : ℕ)
    → IsShaped p
    → IsCounted p
    → Found p.serverpool 0 slot
    → Added p fork (fork_at fork p slot)
unfolding fork_at stored
fork_at-Added none p slot sh c f =
    let t : Server = record { pid = none; state = state_idel } in
    let a = stored-shape p slot t f sh (omega arith) in
    let b = stored-counts p slot t f refl in
    record {
      shaped = record { size = a.0; known = a.1 };
      counted = record { idle = omega (arith, b.0, c.idle); busy = omega (arith, b.1, c.busy) };
      same_busy = refl;
      same_signals = refl;
      gain = omega arith;
    }
fork_at-Added (some pid) p slot sh c f =
    let t : Server = record { pid = some pid; state = state_idel } in
    let a = stored-shape p slot t f sh (omega arith) in
    let b = stored-counts p slot t f refl in
    record {
      shaped = record { size = a.0; known = a.1 };
      counted = record { idle = omega (arith, b.0, c.idle); busy = omega (arith, b.1, c.busy) };
      same_busy = refl;
      same_signals = refl;
      gain = omega arith;
    }

-- Below the limit on servers there is a vacant slot.
find_slot_below :
    (p : Pool)
    → IsShaped p
    → IsCounted p
    → p.idle_count + p.busy_count < maxclients
    → find_slot p.serverpool 0 ≢ none
find_slot_below p sh c h e = omega (
  arith,
  find_slot-none p.serverpool 0 e,
  kinds-length p.serverpool sh.known,
  sh.size,
  c.idle,
  c.busy,
)

unchanged : (p : Pool) (fork : Option ℕ) → IsShaped p → IsCounted p → Added p fork (p, false)
unchanged p fork sh c = record {
  shaped = sh;
  counted = c;
  same_busy = refl;
  same_signals = refl;
  gain = omega arith;
}

pub add_1_server-Added :
    (fork : Option ℕ) (p : Pool) → IsShaped p → IsCounted p → Added p fork (add_1_server fork p)
unfolding add_1_server
add_1_server-Added fork p sh c = elim (Bool-cases (leb maxclients (p.idle_count + p.busy_count))) [
  | inl e ↦ rw e (unchanged p fork sh c)
  | inr e ↦ elim (Option-cases (find_slot p.serverpool 0)) [
    | inl n ↦ rw (e, n) (unchanged p fork sh c)
    | inr (slot, q) ↦ rw (e, q) (fork_at-Added fork p slot sh c (find_slot-Found p.serverpool 0 q))
  ]
]

-- When `add_1_server` succeeds: below the limit, and where `fork` does.
pub add_1_server-done :
    (pid : ℕ) (p : Pool)
    → IsShaped p
    → IsCounted p
    → p.idle_count + p.busy_count < maxclients
    → (add_1_server (some pid) p).1 ≡ true
unfolding add_1_server
add_1_server-done pid p sh c h = elim (Option-cases (find_slot p.serverpool 0)) [
  | inl n ↦ absurd (find_slot_below p sh c h n)
  | inr (slot, q) ↦ ground (arith, q)
]

pub record Deleted (p : Pool) (out : Pool × Bool) : Type 0 where
  pub shaped : IsShaped out.0
  pub counted : IsCounted out.0
  pub same_busy : out.0.busy_count ≡ p.busy_count
  pub loss : out.0.idle_count ≡ p.idle_count - 1
  pub kills : length out.0.signalled ≡ length p.signalled + (p.idle_count - out.0.idle_count)
  pub done : out.1 ≡ ltb 0 p.idle_count

after_kill-Deleted :
    (p : Pool) (out : List Server × Option ℕ)
    → IsShaped p
    → IsCounted p
    → 0 < p.idle_count
    → Killed p.serverpool out
    → Deleted p (after_kill p out, true)
unfolding after_kill
after_kill-Deleted p (ss, none) sh c h k = absurd (ground (arith, k.sent))
after_kill-Deleted p (ss, some pid) sh c h k = record {
  shaped = record { size = omega (arith, k.same_length, sh.size); known = k.known sh.known };
  counted = record {
    idle = omega (arith, k.fewer, c.idle);
    busy = omega (arith, k.same_busy, c.busy);
  };
  same_busy = refl;
  loss = refl;
  kills = omega (arith, length-append p.signalled (pid ∷ []));
  done = ground arith;
}

pub del_1_server-Deleted : (p : Pool) → IsShaped p → IsCounted p → Deleted p (del_1_server p)
unfolding del_1_server
del_1_server-Deleted p sh c = elim (Bool-cases (p.idle_count == 0)) [
  | inl e ↦ rw e record {
    shaped = sh;
    counted = c;
    same_busy = refl;
    loss = ground arith;
    kills = ground arith;
    done = ground arith;
  }
  | inr e ↦ rw e (
      after_kill-Deleted p (kill_first_idle p.serverpool) sh c (ground arith)
        (kill_first_idle-Killed p.serverpool (p.idle_count - 1) (ground arith)))
]
