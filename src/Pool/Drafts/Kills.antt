-- ===== src/Pool/Drafts/Kills.antt =====
-- The kill loop of both server_test.c of 36.项目实例 looks at the first slot only.
use apue_li_huiqin.Base.{
  ℕ, zero, suc, ◌+◌, ◌-◌, ◌≤◌, ◌<◌, ◌≡◌, refl, sym, ap, ◌∙◌, true, false, Option, none, some, List,
  [], ◌∷◌, ◌++◌, arith, ltb, set, get_elem?, drop, length, length-append, Bool-cases, inl, inr,
}
use apue_li_huiqin.Pool.{Server, minspareserver, maxspareserver, maxclients, Pool, is_idle}
use apue_li_huiqin.Pool.Drafts.{
  first_idle, search_idle, kill_server, del_at, del_first, shrink_first, control_uncounted,
  control_counted, grow_if_few,
}

-- The loop ends at once or never finds anything.
search_idle-some :
    (n i : ℕ) (ss : List Server) → first_idle ss ≡ true → search_idle (suc n) i ss ≡ some i
unfolding search_idle
search_idle-some n i ss h = rw h refl

search_idle-none : (n i : ℕ) (ss : List Server) → first_idle ss ≡ false → search_idle n i ss ≡ none
unfolding search_idle
search_idle-none zero i ss h = refl
search_idle-none (suc n) i ss h = rw h (search_idle-none n (i + 1) ss h)

del_first-none : (p : Pool) → first_idle p.serverpool ≡ false → del_first p ≡ (p, false)
unfolding del_first del_at
del_first-none p h = ap (del_at p) (search_idle-none maxclients 0 p.serverpool h)

-- What is left when the server of the first slot is killed.
abbrev pub without_first : Pool → Server → List Server → Pool
without_first p s ss = record p {
  serverpool = record s { pid = none } ∷ ss;
  idle_count = p.idle_count - 1;
  signalled = elim (s.pid) [ none ↦ p.signalled | some pid ↦ p.signalled ++ pid ∷ [] ];
}

del_first-some :
    (p : Pool) (s : Server) (ss : List Server)
    → p.serverpool ≡ s ∷ ss
    → is_idle s ≡ true
    → del_first p ≡ (without_first p s ss, true)
unfolding del_first del_at kill_server first_idle
del_first-some p s ss e h =
    let found : search_idle maxclients 0 (s ∷ ss) ≡ some 0 = search_idle-some 19 0 (s ∷ ss) h in
    ap (del_at p) (ap (search_idle maxclients 0) e ∙ found)
    ∙ ap (λ o. (kill_server p 0 o, true)) (ap (λ l. get_elem? l 0) e)
    ∙ ap
        (λ l.
          (record (without_first p s ss) { serverpool = set l 0 (record s { pid = none }) }, true))
        e

-- A second call does nothing.
del_first-stays :
    (p : Pool) (ss : List Server)
    → p.serverpool ≡ ss
    → (del_first (del_first p).0).0 ≡ (del_first p).0
unfolding first_idle
del_first-stays p [] h =
    let e : first_idle p.serverpool ≡ false = ap first_idle h in
    rw (del_first-none p e) (ap (λ x. x.0) (del_first-none p e))
del_first-stays p (s ∷ ss) h = elim (Bool-cases (is_idle s)) [
  | inl e ↦
      rw (del_first-some p s ss h e) (ap (λ x. x.0) (del_first-none (without_first p s ss) refl))
  | inr e ↦
      let f : first_idle p.serverpool ≡ false = ap first_idle h ∙ e in
      rw (del_first-none p f) (ap (λ x. x.0) (del_first-none p f))
]

shrink_first-stays : (fuel i : ℕ) (p : Pool) → (del_first p).0 ≡ p → shrink_first fuel i p ≡ p
unfolding shrink_first
shrink_first-stays zero i p h = refl
shrink_first-stays (suc fuel) i p h = elim (Bool-cases (ltb i (p.idle_count - maxspareserver))) [
  | inl e ↦ rw (e, h) (shrink_first-stays fuel (i + 1) p h)
  | inr e ↦ rw e refl
]

-- The whole loop does what one call does.
shrink_first-once :
    (fuel : ℕ) (p : Pool)
    → maxspareserver < p.idle_count
    → shrink_first (suc fuel) 0 p ≡ (del_first p).0
unfolding shrink_first
shrink_first-once fuel p h =
    let e : ltb 0 (p.idle_count - maxspareserver) ≡ true = ground arith in
    rw e (shrink_first-stays fuel 1 (del_first p).0 (del_first-stays p p.serverpool refl))

-- At most the server of the first slot is gone.
pub record IsSpared (p q : Pool) : Type 0 where
  pub others : drop 1 q.serverpool ≡ drop 1 p.serverpool
  pub sent : length q.signalled ≤ length p.signalled + 1
  pub left : p.idle_count ≤ q.idle_count + 1

sent-most :
    (o : Option ℕ) (sent : List ℕ)
    → length (elim o as (λ x. List ℕ) [ none ↦ sent | some pid ↦ sent ++ pid ∷ [] ])
      ≤ length sent + 1
sent-most none sent = omega arith
sent-most (some pid) sent = omega (arith, length-append sent (pid ∷ []))

del_first-IsSpared : (p : Pool) (ss : List Server) → p.serverpool ≡ ss → IsSpared p (del_first p).0
unfolding first_idle
del_first-IsSpared p [] h =
    rw (del_first-none p (ap first_idle h))
      (record { others = refl; sent = omega arith; left = omega arith })
del_first-IsSpared p (s ∷ ss) h = elim (Bool-cases (is_idle s)) [
  | inl e ↦ rw (del_first-some p s ss h e) (record {
    others = sym (ap (drop 1) h);
    sent = sent-most s.pid p.signalled;
    left = omega arith;
  })
  | inr e ↦
      rw (del_first-none p (ap first_idle h ∙ e))
        (record { others = refl; sent = omega arith; left = omega arith })
]

shrink_first-all :
    (fuel : ℕ) (p : Pool)
    → maxspareserver < fuel
    → fuel ≡ p.idle_count
    → shrink_first fuel 0 p ≡ (del_first p).0
shrink_first-all zero p h e = absurd (omega arith)
shrink_first-all (suc fuel) p h e = shrink_first-once fuel p (omega (arith, h, e))

-- With more than 10 idle servers, the kill loop of both drafts comes to the same as a single call of
-- `del_1_server`: at most one server is stopped, that of the first slot, however many there are too many.
pub control_drafts-IsSpared :
    (forks : ℕ → Option ℕ) (p : Pool)
    → maxspareserver < p.idle_count
    → let q = (del_first p).0 in
      (control_uncounted forks p ≡ some q) × (control_counted forks p ≡ some q) × IsSpared p q
unfolding control_uncounted control_counted grow_if_few
control_drafts-IsSpared forks p h =
    let e : ltb maxspareserver p.idle_count ≡ true = ground arith in
    let s = del_first-IsSpared p p.serverpool refl in
    let few : ltb (del_first p).0.idle_count minspareserver ≡ false = ground (arith, s.left) in
    let all = shrink_first-all p.idle_count p h refl in (rw (e, all, few) refl, rw (e, all) refl, s)
