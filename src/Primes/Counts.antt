-- ===== src/Primes/Counts.antt =====
-- Counting the threads of 31.线程专题/primer_1_pool_cond.c by what they do.
use apue_li_huiqin.Base.{
  one_if, count_by-set, ℕ, zero, suc, ◌+◌, ◌≤◌, ◌<◌, ◌≡◌, refl, ap, Bool, true, false, some, List,
  [], ◌∷◌, arith, length, set, get_elem?, Option-cases, length-set, map, count_by, replicate, ◌⊎◌,
  inl, inr,
}
use apue_li_huiqin.Primes.{Worker, awake, asleep, busy, gone, wake, signal, is_asleep}

abbrev pub is_gone : Worker → Bool
is_gone gone = true
is_gone awake = false
is_gone asleep = false
is_gone (busy n) = false

-- A thread that does not wait and has not left.
abbrev pub is_active : Worker → Bool
is_active awake = true
is_active (busy n) = true
is_active asleep = false
is_active gone = false

-- Every thread is in one of these cases.
pub count_by-length :
    (ws : List Worker)
    → count_by is_active ws + count_by is_asleep ws + count_by is_gone ws ≡ length ws
count_by-length [] = refl
count_by-length (awake ∷ ws) = omega (arith, count_by-length ws)
count_by-length (asleep ∷ ws) = omega (arith, count_by-length ws)
count_by-length (busy n ∷ ws) = omega (arith, count_by-length ws)
count_by-length (gone ∷ ws) = omega (arith, count_by-length ws)

-- What a broadcast leaves.
pub record Woken (ws : List Worker) : Type 0 where
  pub none_asleep : count_by is_asleep (map wake ws) ≡ 0
  pub same_gone : count_by is_gone (map wake ws) ≡ count_by is_gone ws
  pub same_length : length (map wake ws) ≡ length ws

pub map-wake-Woken : (ws : List Worker) → Woken ws
map-wake-Woken [] = record { none_asleep = refl; same_gone = refl; same_length = refl }
map-wake-Woken (awake ∷ ws) =
    let h = map-wake-Woken ws in
    record {
      none_asleep = omega (arith, h.none_asleep);
      same_gone = omega (arith, h.same_gone);
      same_length = ap suc h.same_length;
    }
map-wake-Woken (asleep ∷ ws) =
    let h = map-wake-Woken ws in
    record {
      none_asleep = omega (arith, h.none_asleep);
      same_gone = omega (arith, h.same_gone);
      same_length = ap suc h.same_length;
    }
map-wake-Woken (busy n ∷ ws) =
    let h = map-wake-Woken ws in
    record {
      none_asleep = omega (arith, h.none_asleep);
      same_gone = omega (arith, h.same_gone);
      same_length = ap suc h.same_length;
    }
map-wake-Woken (gone ∷ ws) =
    let h = map-wake-Woken ws in
    record {
      none_asleep = omega (arith, h.none_asleep);
      same_gone = omega (arith, h.same_gone);
      same_length = ap suc h.same_length;
    }

-- What waking one thread does to the counts.
pub record Signalled (ws ws' : List Worker) : Type 0 where
  pub same_gone : count_by is_gone ws' ≡ count_by is_gone ws
  pub more_active : count_by is_active ws ≤ count_by is_active ws'
  pub less_asleep : count_by is_asleep ws' ≤ count_by is_asleep ws
  pub same_length : length ws' ≡ length ws

pub replaced :
    (ws : List Worker) (k : ℕ) (v w : Worker)
    → get_elem? ws k ≡ some v
    → one_if (is_gone w) ≡ one_if (is_gone v)
    → one_if (is_active v) ≤ one_if (is_active w)
    → one_if (is_asleep w) ≤ one_if (is_asleep v)
    → Signalled ws (set ws k w)
replaced ws k v w h gone_as active_as asleep_as = record {
  same_gone = omega (arith, count_by-set is_gone ws k v w h);
  more_active = omega (arith, count_by-set is_active ws k v w h);
  less_asleep = omega (arith, count_by-set is_asleep ws k v w h);
  same_length = length-set ws k w;
}

pub set-wake :
    (ws : List Worker) (k : ℕ) (w : Worker)
    → get_elem? ws k ≡ some w
    → Signalled ws (set ws k (wake w))
set-wake ws k awake h = replaced ws k awake awake h refl (omega arith) (omega arith)
set-wake ws k asleep h = replaced ws k asleep awake h refl (omega arith) (omega arith)
set-wake ws k (busy n) h = replaced ws k (busy n) (busy n) h refl (omega arith) (omega arith)
set-wake ws k gone h = replaced ws k gone gone h refl (omega arith) (omega arith)

pub signal-Signalled : (ws : List Worker) (k : ℕ) → Signalled ws (signal k ws)
signal-Signalled ws k = elim (Option-cases (get_elem? ws k)) [
  | inl e ↦ rw e (record {
    same_gone = refl;
    more_active = omega arith;
    less_asleep = omega arith;
    same_length = refl;
  })
  | inr (w, e) ↦ rw e (set-wake ws k w e)
]

-- A signal after which a thread is active.
pub signal-active :
    (ws : List Worker) (k : ℕ)
    → count_by is_gone ws ≡ 0
    → 0 < length ws
    → (get_elem? ws k ≡ some asleep) ⊎ (count_by is_asleep ws ≡ 0)
    → 0 < count_by is_active (signal k ws)
signal-active ws k g some_thread (inl e) =
    rw e (omega (arith, count_by-set is_active ws k asleep awake e))
signal-active ws k g some_thread (inr e) =
    let s = signal-Signalled ws k in omega (arith, s.more_active, count_by-length ws)

pub none_gone : (n : ℕ) → count_by is_gone (replicate n awake) ≡ 0
none_gone zero = refl
none_gone (suc n) = omega (arith, none_gone n)
