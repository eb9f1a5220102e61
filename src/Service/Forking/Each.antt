-- ===== src/Service/Forking/Each.antt =====
-- Each connection of 35.网络编程专题/流式套接字_并发版/server.c has a child of its own.
use apue_li_huiqin.Base.{
  ℕ, ◌+◌, ◌≡◌, refl, ap, ◌∙◌, Bool, true, false, not, Option, none, some, List, [], ◌∷◌, arith,
  count_by, count_by-set, count_by-append, get_elem?, Bool-cases, inl, inr,
}
use apue_li_huiqin.Service.Serial.{Setup}
use apue_li_huiqin.Service.Forking.{
  Parent, accepting, accepted, ended, Child, working, left, Server, accept, parent_step, child_step,
  Reach, begin, comes, parent_runs, child_runs,
}

-- The connection of a child, or of the parent, that `p` counts.
abbrev pub holds : (ℕ → Bool) → Child → Bool
holds p (working c) = p c
holds p left = false

abbrev pub in_parent : (ℕ → Bool) → Parent → ℕ
in_parent p accepting = 0
in_parent p (accepted c) = count_by p (c ∷ [])
in_parent p ended = 0

abbrev pub everywhere : (ℕ → Bool) → Server → ℕ
everywhere p s =
    count_by p s.sent
    + count_by p s.dropped
    + count_by p s.refused
    + count_by (holds p) s.children
    + in_parent p s.parent
    + count_by p s.backlog

accept-everywhere :
    (p : ℕ → Bool) (b : List ℕ) (s : Server)
    → s.backlog ≡ b
    → s.parent ≡ accepting
    → everywhere p (accept b s) ≡ everywhere p s
unfolding accept
accept-everywhere p [] s h e = refl
accept-everywhere p (c ∷ cs) s h e = omega (arith, ap (count_by p) h, ap (in_parent p) e)

parent_step-everywhere :
    (p : ℕ → Bool) (fails : Bool) (o : Parent) (s : Server)
    → s.parent ≡ o
    → everywhere p (parent_step fails o s) ≡ everywhere p s
unfolding parent_step
parent_step-everywhere p false accepting s e = accept-everywhere p s.backlog s refl e
parent_step-everywhere p true accepting s e = omega (arith, ap (in_parent p) e)
parent_step-everywhere p false (accepted c) s e =
    omega (arith, ap (in_parent p) e, count_by-append (holds p) s.children (working c ∷ []))
parent_step-everywhere p true (accepted c) s e =
    omega (arith, ap (in_parent p) e, count_by-append p s.refused (c ∷ []))
parent_step-everywhere p fails ended s e = refl

child_step-everywhere :
    (p fails : ℕ → Bool) (k : ℕ) (o : Option Child) (s : Server)
    → get_elem? s.children k ≡ o
    → everywhere p (child_step fails k o s) ≡ everywhere p s
unfolding child_step
child_step-everywhere p fails k (some (working c)) s e =
    let one = count_by-set (holds p) s.children k (working c) left e in
    elim (Bool-cases (fails c)) [
      | inl f ↦ rw f (omega (arith, one, count_by-append p s.dropped (c ∷ [])))
      | inr f ↦ rw f (omega (arith, one, count_by-append p s.sent (c ∷ [])))
    ]
child_step-everywhere p fails k (some left) s e = refl
child_step-everywhere p fails k none s e = refl

Reach-everywhere :
    {calls : Setup} {fails : ℕ → Bool} {arrived : List ℕ} {s : Server} (p : ℕ → Bool)
    → Reach calls fails arrived s
    → everywhere p s ≡ count_by p arrived
Reach-everywhere p (begin up) = refl
Reach-everywhere p (comes {arrived = arrived} {s = s} c r) = omega (
  arith,
  Reach-everywhere p r,
  count_by-append p arrived (c ∷ []),
  count_by-append p s.backlog (c ∷ []),
)
Reach-everywhere p (parent_runs {s = s} call_fails r) =
    parent_step-everywhere p call_fails s.parent s refl ∙ Reach-everywhere p r
Reach-everywhere {fails = fails} p (child_runs {s = s} k r) =
    child_step-everywhere p fails k (get_elem? s.children k) s refl ∙ Reach-everywhere p r

-- What `sent` and `dropped` hold against the wishes of `fails`.
abbrev pub misplaced : (ℕ → Bool) → Server → ℕ
misplaced fails s = count_by fails s.sent + count_by (λ c. not (fails c)) s.dropped

accept-misplaced :
    (fails : ℕ → Bool) (b : List ℕ) (s : Server) → misplaced fails (accept b s) ≡ misplaced fails s
unfolding accept
accept-misplaced fails [] s = refl
accept-misplaced fails (c ∷ cs) s = refl

parent_step-misplaced :
    (fails : ℕ → Bool) (call_fails : Bool) (o : Parent) (s : Server)
    → misplaced fails (parent_step call_fails o s) ≡ misplaced fails s
unfolding parent_step
parent_step-misplaced fails false accepting s = accept-misplaced fails s.backlog s
parent_step-misplaced fails true accepting s = refl
parent_step-misplaced fails false (accepted c) s = refl
parent_step-misplaced fails true (accepted c) s = refl
parent_step-misplaced fails call_fails ended s = refl

child_step-misplaced :
    (fails : ℕ → Bool) (k : ℕ) (o : Option Child) (s : Server)
    → misplaced fails (child_step fails k o s) ≡ misplaced fails s
unfolding child_step
child_step-misplaced fails k (some (working c)) s = elim (Bool-cases (fails c)) [
  | inl f ↦ rw f (ground (arith, f, count_by-append (λ (d : ℕ). not (fails d)) s.dropped (c ∷ [])))
  | inr f ↦ rw f (ground (arith, f, count_by-append fails s.sent (c ∷ [])))
]
child_step-misplaced fails k (some left) s = refl
child_step-misplaced fails k none s = refl

Reach-misplaced :
    {calls : Setup} {fails : ℕ → Bool} {arrived : List ℕ} {s : Server}
    → Reach calls fails arrived s
    → misplaced fails s ≡ 0
Reach-misplaced (begin up) = refl
Reach-misplaced (comes c r) = Reach-misplaced r
Reach-misplaced {fails = fails} (parent_runs {s = s} call_fails r) =
    parent_step-misplaced fails call_fails s.parent s ∙ Reach-misplaced r
Reach-misplaced {fails = fails} (child_runs {s = s} k r) =
    child_step-misplaced fails k (get_elem? s.children k) s ∙ Reach-misplaced r

-- However the parent and its children take turns and whatever calls fail: of the connections that have
-- come, counted by any test, each is in one place: it has been answered, was dropped, was given up by the
-- parent when `fork` failed, is with a child or the parent, or waits. None whose own `send` fails has been
-- answered, and none is dropped for the failure of another.
pub Reach-each :
    {calls : Setup} {fails : ℕ → Bool} {arrived : List ℕ} {s : Server} (p : ℕ → Bool)
    → Reach calls fails arrived s
    → (count_by p s.sent
          + count_by p s.dropped
          + count_by p s.refused
          + count_by (holds p) s.children
          + in_parent p s.parent
          + count_by p s.backlog
        ≡ count_by p arrived)
      × (count_by fails s.sent ≡ 0)
      × (count_by (λ c. not (fails c)) s.dropped ≡ 0)
Reach-each p r =
    let none_misplaced = Reach-misplaced r in
    (Reach-everywhere p r, omega (arith, none_misplaced), omega (arith, none_misplaced))
