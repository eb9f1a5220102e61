-- ===== src/Pool/Resize.antt =====
-- The loops of `main` in 36.项目实例/动态进程/server.c that bring the number of idle servers towards
-- its bounds. Each reads its bound afresh, so that the counter and the bound meet half way.
use native.Mathlib.Decide.{dec_lt}
use apue_li_huiqin.Base.{
  ℕ, zero, suc, ◌+◌, ◌-◌, ◌/◌, ◌≤◌, ◌<◌, ◌≡◌, refl, ◌∙◌, Option, some, arith, ltb, ltb→lt, length,
  Bool-cases, inl, inr,
}
use apue_li_huiqin.Pool.{
  Pool, maxclients, minspareserver, maxspareserver, add_1_server, del_1_server, shrink, grow,
  control,
}
use apue_li_huiqin.Pool.Counts.{
  IsShaped, IsCounted, add_1_server-Added, add_1_server-done, del_1_server-Deleted,
}

-- What `shrink` leaves, where `k` rounds are run.
pub record Shrunk (p q : Pool) (k : ℕ) : Type 0 where
  pub shaped : IsShaped q
  pub counted : IsCounted q
  pub same_busy : q.busy_count ≡ p.busy_count
  pub loss : q.idle_count + k ≡ p.idle_count
  pub kills : length q.signalled ≡ length p.signalled + k

shrink-Shrunk :
    (fuel i : ℕ) (p : Pool)
    → IsShaped p
    → IsCounted p
    → p.idle_count ≤ fuel + i + maxspareserver
    → Shrunk p (shrink fuel i p) ((p.idle_count - maxspareserver - i + 1) / 2)
unfolding shrink
shrink-Shrunk zero i p sh c h = record {
  shaped = sh;
  counted = c;
  same_busy = refl;
  loss = omega arith;
  kills = omega arith;
}
shrink-Shrunk (suc fuel) i p sh c h = elim (Bool-cases (ltb i (p.idle_count - maxspareserver))) [
  | inl e ↦
      let d = del_1_server-Deleted p sh c in
      let r =
        shrink-Shrunk fuel (i + 1) (del_1_server p).0 d.shaped d.counted (ground (arith, d.loss)) in
      rw e record {
        shaped = r.shaped;
        counted = r.counted;
        same_busy = r.same_busy ∙ d.same_busy;
        loss = ground (arith, r.loss, d.loss);
        kills = ground (arith, r.kills, d.kills, d.loss);
      }
  | inr e ↦ rw e record {
    shaped = sh;
    counted = c;
    same_busy = refl;
    loss = ground arith;
    kills = ground arith;
  }
]

-- The second fuel changes nothing once the first is enough.
grow-fuel :
    (f g i : ℕ) (forks : ℕ → Option ℕ) (p : Pool)
    → minspareserver ≤ f + i
    → minspareserver ≤ g + i
    → grow f i forks p ≡ grow g i forks p
unfolding grow
grow-fuel zero zero i forks p h k = refl
grow-fuel zero (suc g) i forks p h k = ground arith
grow-fuel (suc f) zero i forks p h k = ground arith
grow-fuel (suc f) (suc g) i forks p h k =
    ground (arith, grow-fuel f g (i + 1) forks (add_1_server (forks i) p).0)

-- A `fork` that never fails.
abbrev pub Succeeds : (ℕ → Option ℕ) → Type 0
Succeeds forks = (j : ℕ) → (pid : ℕ) × (forks j ≡ some pid)

pub record Grown (forks : ℕ → Option ℕ) (p q : Pool) (k : ℕ) : Type 0 where
  pub shaped : IsShaped q
  pub counted : IsCounted q
  pub same_busy : q.busy_count ≡ p.busy_count
  pub same_signals : q.signalled ≡ p.signalled
  pub bound : p.idle_count ≤ q.idle_count
  pub full :
      Succeeds forks
      → p.idle_count + p.busy_count + k ≤ maxclients
      → q.idle_count ≡ p.idle_count + k

add_1_server-Grown :
    (forks : ℕ → Option ℕ) (i : ℕ) (p : Pool)
    → IsShaped p
    → IsCounted p
    → Grown forks p (add_1_server (forks i) p).0 1
add_1_server-Grown forks i p sh c =
    let a = add_1_server-Added (forks i) p sh c in
    record {
      shaped = a.shaped;
      counted = a.counted;
      same_busy = a.same_busy;
      same_signals = a.same_signals;
      bound = omega (arith, a.gain);
      full = λ ok room.
          let (pid, e) = ok i in
          ground (arith, a.gain, e, add_1_server-done pid p sh c (omega arith));
    }

not-Grown :
    (forks : ℕ → Option ℕ) (p : Pool) (k : ℕ) → IsShaped p → IsCounted p → k ≡ 0 → Grown forks p p k
not-Grown forks p k sh c e = record {
  shaped = sh;
  counted = c;
  same_busy = refl;
  same_signals = refl;
  bound = omega arith;
  full = λ ok room. omega arith;
}

grow-Grown :
    (fuel i : ℕ) (forks : ℕ → Option ℕ) (p : Pool)
    → IsShaped p
    → IsCounted p
    → minspareserver ≤ fuel + i
    → Grown forks p (grow fuel i forks p) ((minspareserver - p.idle_count - i + 1) / 2)
unfolding grow
grow-Grown zero i forks p sh c h = not-Grown forks p _ sh c (omega arith)
grow-Grown (suc fuel) i forks p sh c h = elim (Bool-cases (ltb i (minspareserver - p.idle_count))) [
  | inl e ↦
      let a = add_1_server-Grown forks i p sh c in
      let r =
        grow-Grown fuel (i + 1) forks (add_1_server (forks i) p).0 a.shaped a.counted
          (omega arith) in
      rw e record {
        shaped = r.shaped;
        counted = r.counted;
        same_busy = r.same_busy ∙ a.same_busy;
        same_signals = r.same_signals ∙ a.same_signals;
        bound = omega (arith, r.bound, a.bound);
        full = λ ok room.
            let lt = ltb→lt i (minspareserver - p.idle_count) e in
            let one = a.full ok (omega arith) in
            omega (arith, one, r.full ok (omega (arith, one, a.same_busy)));
      }
  | inr e ↦ rw e (not-Grown forks p _ sh c (ground arith))
]

-- Enough rounds are allowed: with more fuel than `control` gives, `grow` does the same.
pub grow-fuel_enough :
    (more : ℕ) (forks : ℕ → Option ℕ) (p : Pool)
    → grow (minspareserver + more) 0 forks p ≡ grow minspareserver 0 forks p
grow-fuel_enough more forks p =
    grow-fuel (minspareserver + more) minspareserver 0 forks p (omega arith) (omega arith)

pub control_too_many :
    (forks : ℕ → Option ℕ) (p : Pool)
    → IsShaped p
    → IsCounted p
    → maxspareserver < p.idle_count
    → Shrunk p (control forks p) ((p.idle_count - maxspareserver + 1) / 2)
unfolding control
control_too_many forks p sh c h = ground (arith, shrink-Shrunk p.idle_count 0 p sh c (omega arith))

control_too_few :
    (forks : ℕ → Option ℕ) (p : Pool)
    → IsShaped p
    → IsCounted p
    → p.idle_count < minspareserver
    → Grown forks p (control forks p) ((minspareserver - p.idle_count + 1) / 2)
unfolding control
control_too_few forks p sh c h =
    ground (arith, grow-Grown minspareserver 0 forks p sh c (omega arith))

-- With fewer than 5 idle servers, and where every `fork` succeeds and the limit of 20 leaves room, the
-- add loop of `main` starts half of the servers that are missing, rounded up; it sends no signal, and
-- the counters stay exact.
pub control_adds_half :
    (forks : ℕ → Option ℕ) (p : Pool)
    → IsShaped p
    → IsCounted p
    → p.idle_count < minspareserver
    → Succeeds forks
    → p.idle_count + p.busy_count + (minspareserver - p.idle_count + 1) / 2 ≤ maxclients
    → let q = control forks p in
      (q.idle_count ≡ p.idle_count + (minspareserver - p.idle_count + 1) / 2)
      × (q.busy_count ≡ p.busy_count)
      × (q.signalled ≡ p.signalled)
      × IsShaped q
      × IsCounted q
control_adds_half forks p sh c h ok room =
    let g = control_too_few forks p sh c h in
    (g.full ok room, g.same_busy, g.same_signals, g.shaped, g.counted)

-- Between the two bounds nothing is done.
pub control_within :
    (forks : ℕ → Option ℕ) (p : Pool)
    → minspareserver ≤ p.idle_count
    → p.idle_count ≤ maxspareserver
    → control forks p ≡ p
unfolding control
control_within forks p h k = ground arith

-- `control` keeps the shape of the array and the exactness of the counters.
pub control-keeps :
    (forks : ℕ → Option ℕ) (p : Pool)
    → IsShaped p
    → IsCounted p
    → IsShaped (control forks p) × IsCounted (control forks p)
control-keeps forks p sh c = elim (dec_lt maxspareserver p.idle_count) [
  | yes many ↦ let r = control_too_many forks p sh c many in (r.shaped, r.counted)
  | no not_many ↦ elim (dec_lt p.idle_count minspareserver) [
    | yes few ↦ let r = control_too_few forks p sh c few in (r.shaped, r.counted)
    | no not_few ↦ rw (control_within forks p (omega arith) (omega arith)) (sh, c)
  ]
]
