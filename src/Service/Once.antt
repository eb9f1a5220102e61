-- ===== src/Service/Once.antt =====
-- Each connection of 35.网络编程专题/静态进程池/server.c is served once.
use mathlib.Core.List.{append-nil, append_assoc}
use apue_li_huiqin.Base.{
  ℕ, zero, suc, ◌+◌, ◌≡◌, refl, sym, ap, ◌∙◌, Bool, true, false, Option, none, some, List, [], ◌∷◌,
  ◌++◌, arith, count_by, count_by-set, count_by-append, length, set, get_elem?, get_elem?-set_self,
  lt-length_of_get_elem?, Bool-cases, inl, inr,
}
use apue_li_huiqin.Service.Serial.{Setup}
use apue_li_huiqin.Service.{
  Process, accepting, serving, gone, Server, start, accept, server_loop, Reach, begin, comes, runs,
}

-- A process with a connection that `p` counts.
abbrev pub holds : (ℕ → Bool) → Process → Bool
holds p accepting = false
holds p (serving c) = p c
holds p gone = false

-- The connections that `p` counts, wherever they are.
abbrev pub everywhere : (ℕ → Bool) → Server → ℕ
everywhere p s =
    count_by p s.sent + count_by p s.dropped + count_by (holds p) s.processes + count_by p s.backlog

start-free : (p : ℕ → Bool) (n i : ℕ) (forks : ℕ → Bool) → count_by (holds p) (start n i forks) ≡ 0
unfolding start
start-free p zero i forks = refl
start-free p (suc n) i forks = elim (Bool-cases (forks i)) [
  | inl e ↦ rw e (omega (arith, start-free p n (i + 1) forks))
  | inr e ↦ rw e refl
]

accept-everywhere :
    (p : ℕ → Bool) (k : ℕ) (b : List ℕ) (s : Server)
    → s.backlog ≡ b
    → get_elem? s.processes k ≡ some accepting
    → everywhere p (accept k b s) ≡ everywhere p s
unfolding accept
accept-everywhere p k [] s h e = refl
accept-everywhere p k (c ∷ cs) s h e =
    omega (arith, count_by-set (holds p) s.processes k accepting (serving c) e, ap (count_by p) h)

server_loop-everywhere :
    (p : ℕ → Bool) (k : ℕ) (fails : Bool) (o : Option Process) (s : Server)
    → get_elem? s.processes k ≡ o
    → everywhere p (server_loop k fails o s) ≡ everywhere p s
unfolding server_loop
server_loop-everywhere p k fails none s e = refl
server_loop-everywhere p k false (some accepting) s e = accept-everywhere p k s.backlog s refl e
server_loop-everywhere p k true (some accepting) s e =
    omega (arith, count_by-set (holds p) s.processes k accepting gone e)
server_loop-everywhere p k false (some (serving c)) s e = omega (
  arith,
  count_by-set (holds p) s.processes k (serving c) accepting e,
  count_by-append p s.sent (c ∷ []),
)
server_loop-everywhere p k true (some (serving c)) s e = omega (
  arith,
  count_by-set (holds p) s.processes k (serving c) gone e,
  count_by-append p s.dropped (c ∷ []),
)
server_loop-everywhere p k fails (some gone) s e = refl

Reach-everywhere :
    {calls : Setup} {procnum : ℕ} {forks : ℕ → Bool} {arrived : List ℕ} {s : Server} (p : ℕ → Bool)
    → Reach calls procnum forks arrived s
    → everywhere p s ≡ count_by p arrived
Reach-everywhere {procnum = procnum} {forks = forks} p (begin up) =
    omega (arith, start-free p procnum 0 forks)
Reach-everywhere p (comes {arrived = arrived} {s = s} c r) = omega (
  arith,
  Reach-everywhere p r,
  count_by-append p arrived (c ∷ []),
  count_by-append p s.backlog (c ∷ []),
)
Reach-everywhere p (runs {s = s} k fails r) =
    server_loop-everywhere p k fails (get_elem? s.processes k) s refl ∙ Reach-everywhere p r

-- However the processes are scheduled and whatever calls fail: of the connections that have come, counted
-- by any test, each has been sent its answer once, or was dropped by a `send` that failed, or is held by
-- one process, or waits in the backlog.
pub Reach-once :
    {calls : Setup} {procnum : ℕ} {forks : ℕ → Bool} {arrived : List ℕ} {s : Server} (p : ℕ → Bool)
    → Reach calls procnum forks arrived s
    → count_by p s.sent
        + count_by p s.dropped
        + count_by (holds p) s.processes
        + count_by p s.backlog
      ≡ count_by p arrived
Reach-once p r = Reach-everywhere p r

get_elem?-stored :
    (xs : List Process) (k : ℕ) (v w : Process)
    → get_elem? xs k ≡ some v
    → get_elem? (set xs k w) k ≡ some w
get_elem?-stored xs k v w e = get_elem?-set_self xs k w (lt-length_of_get_elem? xs k e)

-- So many steps of process `k` in which no call fails.
abbrev pub turns : ℕ → ℕ → Server → Server
turns k zero s = s
turns k (suc n) s = turns k n (server_loop k false (get_elem? s.processes k) s)

-- Behind the steps with which process `k` serves the first connection.
abbrev one_served : ℕ → ℕ → List ℕ → Server → Server
one_served k c cs s = record s {
  backlog = cs;
  processes = set (set s.processes k (serving c)) k accepting;
  sent = s.sent ++ c ∷ [];
}

turns-one_served :
    (k n c : ℕ) (cs : List ℕ) (s : Server)
    → s.backlog ≡ c ∷ cs
    → get_elem? s.processes k ≡ some accepting
    → turns k (suc (suc n)) s ≡ turns k n (one_served k c cs s)
unfolding server_loop accept
turns-one_served k n c cs s h e =
    let taken : server_loop k false (get_elem? s.processes k) s ≡ accept k (c ∷ cs) s =
      ap (λ o. server_loop k false o s) e ∙ ap (λ b. accept k b s) h in
    let there : get_elem? (set s.processes k (serving c)) k ≡ some (serving c) =
      get_elem?-stored s.processes k accepting (serving c) e in
    ap (turns k (suc n)) taken
    ∙ ap (λ o. turns k n (server_loop k false o (accept k (c ∷ cs) s))) there

-- A single process that waits in `accept` is enough: with two steps for each connection of the backlog,
-- and no call that fails, it has answered them all, in their order.
pub turns-serves_all :
    (k : ℕ) (b : List ℕ) (s : Server)
    → s.backlog ≡ b
    → get_elem? s.processes k ≡ some accepting
    → ((turns k (length b + length b) s).sent ≡ s.sent ++ b)
      × ((turns k (length b + length b) s).backlog ≡ [])
turns-serves_all k [] s h e = (sym (append-nil s.sent), h)
turns-serves_all k (c ∷ cs) s h e =
    let t : Server = one_served k c cs s in
    let two : length (c ∷ cs) + length (c ∷ cs) ≡ suc (suc (length cs + length cs)) = omega arith in
    let first =
      ap (λ (n : ℕ). turns k n s) two ∙ turns-one_served k (length cs + length cs) c cs s h e in
    let there : get_elem? (set (set s.processes k (serving c)) k accepting) k ≡ some accepting =
      get_elem?-stored (set s.processes k (serving c)) k (serving c) accepting
        (get_elem?-stored s.processes k accepting (serving c) e) in
    let r = turns-serves_all k cs t refl there in
    (
      ap (λ x. x.sent) first ∙ r.0 ∙ append_assoc s.sent (c ∷ []) cs,
      ap (λ x. x.backlog) first ∙ r.1,
    )
