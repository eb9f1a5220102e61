-- ===== src/Pool/Notify/Slots.antt =====
-- The first slots of the pool array of 36.项目实例/动态进程/server.c, as the loops of its parent count and
-- print them, and the slots in use under `add_1_server`.
use apue_li_huiqin.Base.{
  ℕ, zero, suc, ◌+◌, ◌≤◌, ◌≡◌, refl, ap, Bool, not, Option, none, some, List, [], ◌∷◌, ◌++◌, arith,
  get_elem?, set, take, count_by, length-set, Bool-cases, Option-cases, leb, map, inl, inr,
}
use apue_li_huiqin.Pool.{
  Server, Pool, is_vacant, state_idel, find_slot, maxclients, fork_at, add_1_server, glyph,
}
use apue_li_huiqin.Pool.Slots.{bit, count_by-set, Found, find_slot-Found, All-set}
use apue_li_huiqin.Pool.Counts.{IsShaped}

abbrev pub is_used : Server → Bool
is_used s = not (is_vacant s)

-- What a slot adds to a count.
abbrev pub bit_at : (Server → Bool) → Option Server → ℕ
bit_at p none = 0
bit_at p (some s) = bit (p s)

pub count_by-take-suc :
    (p : Server → Bool) (ss : List Server) (i : ℕ)
    → count_by p (take (suc i) ss) ≡ count_by p (take i ss) + bit_at p (get_elem? ss i)
count_by-take-suc p [] zero = refl
count_by-take-suc p [] (suc i) = refl
count_by-take-suc p (x ∷ ss) zero = ground arith
count_by-take-suc p (x ∷ ss) (suc i) = omega (arith, count_by-take-suc p ss i)

-- A store at a slot that is not among the first changes nothing there.
pub take-set : (ss : List Server) (i : ℕ) (t : Server) → take i (set ss i t) ≡ take i ss
take-set [] i t = refl
take-set (x ∷ ss) zero t = refl
take-set (x ∷ ss) (suc i) t = ap (λ l. x ∷ l) (take-set ss i t)

pub get_elem?-set :
    (ss : List Server) (i : ℕ) {s : Server} (t : Server)
    → get_elem? ss i ≡ some s
    → get_elem? (set ss i t) i ≡ some t
get_elem?-set [] i t h = cc
get_elem?-set (x ∷ ss) zero t h = refl
get_elem?-set (x ∷ ss) (suc i) t h = get_elem?-set ss i t h

-- A store that does not change the test of a slot.
pub count_by-take-set :
    (p : Server → Bool) (ss : List Server) (n i : ℕ) {s : Server} (t : Server)
    → get_elem? ss i ≡ some s
    → p s ≡ p t
    → count_by p (take n (set ss i t)) ≡ count_by p (take n ss)
count_by-take-set p ss zero i t h e = refl
count_by-take-set p [] (suc n) i t h e = refl
count_by-take-set p (x ∷ ss) (suc n) zero t h e = ground (arith, e)
count_by-take-set p (x ∷ ss) (suc n) (suc i) t h e = omega (arith, count_by-take-set p ss n i t h e)

-- The characters of the slots that the loop has printed.
pub map-glyph-take :
    (ss : List Server) (j : ℕ) {s : Server}
    → get_elem? ss j ≡ some s
    → map glyph (take (suc j) ss) ≡ map glyph (take j ss) ++ (glyph s ∷ [])
map-glyph-take [] j h = cc
map-glyph-take (x ∷ ss) zero h = cc
map-glyph-take (x ∷ ss) (suc j) h = ap (λ l. glyph x ∷ l) (map-glyph-take ss j h)

pub map-glyph-take-none :
    (ss : List Server) (j : ℕ)
    → get_elem? ss j ≡ none
    → map glyph (take (suc j) ss) ≡ map glyph (take j ss)
map-glyph-take-none [] zero h = refl
map-glyph-take-none [] (suc j) h = refl
map-glyph-take-none (x ∷ ss) zero h = cc
map-glyph-take-none (x ∷ ss) (suc j) h = ap (λ l. glyph x ∷ l) (map-glyph-take-none ss j h)

-- Both counters together are the number of slots in use.
abbrev pub IsSummed : Pool → Type 0
IsSummed p = p.idle_count + p.busy_count ≡ count_by is_used p.serverpool

pub set-IsShaped :
    (p : Pool) (i : ℕ) (t : Server)
    → IsShaped p
    → t.state ≤ 1
    → IsShaped (record p { serverpool = set p.serverpool i t })
set-IsShaped p i t sh k = record {
  size = omega (arith, length-set p.serverpool i t, sh.size);
  known = All-set p.serverpool i t sh.known k;
}

-- What an addition leaves, whatever the children have stored.
pub record Kept (p : Pool) : Type 0 where
  pub shaped : IsShaped p
  pub summed : IsSummed p

fork_at-Kept :
    (fork : Option ℕ) (p : Pool) (slot : ℕ)
    → Kept p
    → Found p.serverpool 0 slot
    → Kept (fork_at fork p slot).0
unfolding fork_at
fork_at-Kept none p slot k f =
    let t : Server = record { pid = none; state = state_idel } in
    let e : slot ≡ f.index = omega (arith, f.at) in
    record {
      shaped = record {
        size = omega (arith, length-set p.serverpool slot t, k.shaped.size);
        known = All-set p.serverpool slot t k.shaped.known (omega arith);
      };
      summed = rw e (
          ground (
            arith,
            count_by-set is_used p.serverpool f.index f.server t f.here,
            f.vacancy,
            k.summed,
          ));
    }
fork_at-Kept (some pid) p slot k f =
    let t : Server = record { pid = some pid; state = state_idel } in
    let e : slot ≡ f.index = omega (arith, f.at) in
    record {
      shaped = record {
        size = omega (arith, length-set p.serverpool slot t, k.shaped.size);
        known = All-set p.serverpool slot t k.shaped.known (omega arith);
      };
      summed = rw e (
          ground (
            arith,
            count_by-set is_used p.serverpool f.index f.server t f.here,
            f.vacancy,
            k.summed,
          ));
    }

pub add_1_server-Kept : (fork : Option ℕ) (p : Pool) → Kept p → Kept (add_1_server fork p).0
unfolding add_1_server
add_1_server-Kept fork p k = elim (Bool-cases (leb maxclients (p.idle_count + p.busy_count))) [
  | inl e ↦ rw e k
  | inr e ↦ elim (Option-cases (find_slot p.serverpool 0)) [
    | inl n ↦ rw (e, n) k
    | inr (slot, q) ↦ rw (e, q) (fork_at-Kept fork p slot k (find_slot-Found p.serverpool 0 q))
  ]
]
