-- ===== src/Service/Forking/Finish.antt =====
-- The children of 35.网络编程专题/流式套接字_并发版/server.c end by themselves.
use apue_li_huiqin.Base.{
  ℕ, zero, suc, ◌+◌, ◌≡◌, refl, sym, ap, ◌∙◌, Bool, Option, none, some, List, [], ◌∷◌, arith,
  set_same, count_by, length, set, get_elem?, Bool-cases, inl, inr,
}
use apue_li_huiqin.Service.Serial.{Setup}
use apue_li_huiqin.Service.Forking.{Child, working, left, Server, child_step, Reach, child_runs}
use apue_li_huiqin.Service.Forking.Each.{holds, in_parent, Reach-each}

-- A turn for each of the first `n` children, the last one first.
abbrev pub finish : (ℕ → Bool) → ℕ → Server → Server
finish fails zero s = s
finish fails (suc n) s = finish fails n (child_step fails n (get_elem? s.children n) s)

finish-Reach :
    {calls : Setup} {fails : ℕ → Bool} {arrived : List ℕ} (n : ℕ) (s : Server)
    → Reach calls fails arrived s
    → Reach calls fails arrived (finish fails n s)
finish-Reach zero s r = r
finish-Reach {fails = fails} (suc n) s r =
    finish-Reach n (child_step fails n (get_elem? s.children n) s) (child_runs n r)

set-none : (cs : List Child) (k : ℕ) → get_elem? cs k ≡ none → set cs k left ≡ cs
set-none [] k e = refl
set-none (c ∷ cs) zero e = cc
set-none (c ∷ cs) (suc k) e = ap (λ l. c ∷ l) (set-none cs k e)

-- The turn of a child leaves it behind its `exit`, and changes neither the parent nor what waits for it.
record IsTurn (k : ℕ) (s t : Server) : Type 0 where
  children : t.children ≡ set s.children k left
  backlog : t.backlog ≡ s.backlog
  parent : t.parent ≡ s.parent
  refused : t.refused ≡ s.refused

child_step-IsTurn :
    (fails : ℕ → Bool) (k : ℕ) (o : Option Child) (s : Server)
    → get_elem? s.children k ≡ o
    → IsTurn k s (child_step fails k o s)
unfolding child_step
child_step-IsTurn fails k (some (working c)) s e = elim (Bool-cases (fails c)) [
  | inl f ↦ rw f (record { children = refl; backlog = refl; parent = refl; refused = refl })
  | inr f ↦ rw f (record { children = refl; backlog = refl; parent = refl; refused = refl })
]
child_step-IsTurn fails k (some left) s e = record {
  children = sym (set_same s.children k left e);
  backlog = refl;
  parent = refl;
  refused = refl;
}
child_step-IsTurn fails k none s e = record {
  children = sym (set-none s.children k e);
  backlog = refl;
  parent = refl;
  refused = refl;
}

-- The first `n` children behind their `exit`.
abbrev left_first : ℕ → List Child → List Child
left_first zero cs = cs
left_first (suc n) [] = []
left_first (suc n) (c ∷ cs) = left ∷ left_first n cs

left_first-set : (n : ℕ) (cs : List Child) → left_first n (set cs n left) ≡ left_first (suc n) cs
left_first-set zero [] = refl
left_first-set zero (c ∷ cs) = refl
left_first-set (suc n) [] = refl
left_first-set (suc n) (c ∷ cs) = ap (λ l. left ∷ l) (left_first-set n cs)

count_by-left_first :
    (p : ℕ → Bool) (cs : List Child) → count_by (holds p) (left_first (length cs) cs) ≡ 0
count_by-left_first p [] = refl
count_by-left_first p (c ∷ cs) = ground (arith, count_by-left_first p cs)

record IsFinished (n : ℕ) (s t : Server) : Type 0 where
  children : t.children ≡ left_first n s.children
  backlog : t.backlog ≡ s.backlog
  parent : t.parent ≡ s.parent
  refused : t.refused ≡ s.refused

finish-IsFinished : (fails : ℕ → Bool) (n : ℕ) (s : Server) → IsFinished n s (finish fails n s)
finish-IsFinished fails zero s = record {
  children = refl;
  backlog = refl;
  parent = refl;
  refused = refl;
}
finish-IsFinished fails (suc n) s =
    let t : Server = child_step fails n (get_elem? s.children n) s in
    let one = child_step-IsTurn fails n (get_elem? s.children n) s refl in
    let rest = finish-IsFinished fails n t in
    record {
      children = rest.children ∙ ap (left_first n) one.children ∙ left_first-set n s.children;
      backlog = rest.backlog ∙ one.backlog;
      parent = rest.parent ∙ one.parent;
      refused = rest.refused ∙ one.refused;
    }

-- From every state of a run, also where the parent has ended: when each child has had one turn more, every
-- connection that the parent has handed on has been answered, or dropped for its own `send`; of those that
-- have come, the others have been given up by the parent, are still with it, or wait, as before.
pub finish-each :
    {calls : Setup} {fails : ℕ → Bool} {arrived : List ℕ} {s : Server} (p : ℕ → Bool)
    → Reach calls fails arrived s
    → count_by p (finish fails (length s.children) s).sent
        + count_by p (finish fails (length s.children) s).dropped
        + count_by p s.refused
        + in_parent p s.parent
        + count_by p s.backlog
      ≡ count_by p arrived
finish-each {fails = fails} {s = s} p r =
    let t : Server = finish fails (length s.children) s in
    let each = Reach-each p (finish-Reach (length s.children) s r) in
    let ends = finish-IsFinished fails (length s.children) s in
    omega (
      arith,
      each.0,
      ap (count_by (holds p)) ends.children,
      count_by-left_first p s.children,
      ap (count_by p) ends.refused,
      ap (in_parent p) ends.parent,
      ap (count_by p) ends.backlog,
    )
