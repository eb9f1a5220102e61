-- ===== src/Pool/Slots.antt =====
-- The slots of the pool array: what the searches of `add_1_server` and `del_1_server` find, and what
-- a store into one slot does to the number of vacant, idle and busy slots.
use apue_li_huiqin.Base.{
  ℕ, zero, suc, ◌+◌, ◌≤◌, ◌≡◌, refl, Bool, true, Option, none, some, List, [], ◌∷◌, arith,
  if◌then◌else◌, get_elem?, set, count_by, length, Bool-cases, All, inl, inr,
}
use apue_li_huiqin.Pool.{Server, is_vacant, is_idle, is_busy, find_slot, kill_first_idle}

-- The number 1 for a test that passes.
abbrev pub bit : Bool → ℕ
bit b = if b then 1 else 0

pub count_by-set :
    (p : Server → Bool) (ss : List Server) (i : ℕ) (s t : Server)
    → get_elem? ss i ≡ some s
    → count_by p (set ss i t) + bit (p s) ≡ count_by p ss + bit (p t)
count_by-set p [] i s t h = cc
count_by-set p (x ∷ ss) zero s t h = ground arith
count_by-set p (x ∷ ss) (suc i) s t h = omega (arith, count_by-set p ss i s t h)

-- The slot that `find_slot` returns is vacant.
pub record Found (ss : List Server) (base slot : ℕ) : Type 0 where
  pub index : ℕ
  pub server : Server
  pub at : slot ≡ base + index
  pub here : get_elem? ss index ≡ some server
  pub vacancy : is_vacant server ≡ true

pub find_slot-Found :
    (ss : List Server) (base : ℕ) {slot : ℕ} → find_slot ss base ≡ some slot → Found ss base slot
unfolding find_slot
find_slot-Found [] base h = cc
find_slot-Found (s ∷ ss) base {slot} h = elim (Bool-cases (is_vacant s)) [
  | inl e ↦ record { index = 0; server = s; at = ground arith; here = refl; vacancy = e }
  | inr e ↦
      let f : Found ss (base + 1) slot = find_slot-Found ss (base + 1) (rw e at h) in
      record {
        index = suc f.index;
        server = f.server;
        at = omega (arith, f.at);
        here = f.here;
        vacancy = f.vacancy;
      }
]

pub find_slot-none :
    (ss : List Server) (base : ℕ) → find_slot ss base ≡ none → count_by is_vacant ss ≡ 0
unfolding find_slot
find_slot-none [] base h = refl
find_slot-none (s ∷ ss) base h = ground (arith, find_slot-none ss (base + 1))

-- A slot whose `state` is one of the two that the program stores.
abbrev pub IsKnown : Server → Type 0
IsKnown s = s.state ≤ 1

-- Every slot of known state is vacant, idle or busy.
pub kinds-length :
    (ss : List Server)
    → All IsKnown ss
    → count_by is_vacant ss + count_by is_idle ss + count_by is_busy ss ≡ length ss
kinds-length [] h = refl
kinds-length (s ∷ ss) h = ground (arith, kinds-length ss h.1)

pub All-set :
    (ss : List Server) (i : ℕ) (s : Server) → All IsKnown ss → IsKnown s → All IsKnown (set ss i s)
All-set [] i s h k = tt
All-set (x ∷ ss) zero s h k = (k, h.1)
All-set (x ∷ ss) (suc i) s h k = (h.0, All-set ss i s h.1 k)

-- What the loop of `del_1_server` does when an idle slot exists.
pub record Killed (ss : List Server) (out : List Server × Option ℕ) : Type 0 where
  pub victim : ℕ
  pub sent : out.1 ≡ some victim
  pub fewer : count_by is_idle out.0 + 1 ≡ count_by is_idle ss
  pub same_busy : count_by is_busy out.0 ≡ count_by is_busy ss
  pub same_length : length out.0 ≡ length ss
  pub known : All IsKnown ss → All IsKnown out.0

pub kill_first_idle-none :
    (ss : List Server) → count_by is_idle ss ≡ 0 → kill_first_idle ss ≡ (ss, none)
unfolding kill_first_idle
kill_first_idle-none [] h = refl
kill_first_idle-none (s ∷ ss) h = ground (arith, kill_first_idle-none ss)

is_idle-pid : (s : Server) → is_idle s ≡ true → (v : ℕ) × (s.pid ≡ some v)
is_idle-pid s h = ground arith

pub kill_first_idle-Killed :
    (ss : List Server) (n : ℕ) → count_by is_idle ss ≡ suc n → Killed ss (kill_first_idle ss)
unfolding kill_first_idle
kill_first_idle-Killed [] n h = absurd (omega arith)
kill_first_idle-Killed (s ∷ ss) n h = elim (Bool-cases (is_idle s)) [
  | inl e ↦ record {
    victim = (is_idle-pid s e).0;
    sent = ground (arith, (is_idle-pid s e).1);
    fewer = ground arith;
    same_busy = ground arith;
    same_length = ground arith;
    known = rw e (λ a. a);
  }
  | inr e ↦
      let k : Killed ss (kill_first_idle ss) = kill_first_idle-Killed ss n (ground arith) in
      record {
        victim = k.victim;
        sent = rw e k.sent;
        fewer = ground (arith, k.fewer);
        same_busy = ground (arith, k.same_busy);
        same_length = ground (arith, k.same_length);
        known = rw e (λ a. (a.0, k.known a.1));
      }
]
