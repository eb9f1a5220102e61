-- ===== src/Bucket/Table.antt =====
-- The static table of 31.线程专题/mytbf_thread_cond/mytbf.c: entries given out by `mytbf_init`, filled
-- by `thr_alrm`, and given back by `mytbf_destroy` and `module_unload`.
use native.Mathlib.Nat.{add-zero, add-suc, suc-add}
use native.Mathlib.Numerals.{add-one}
use mathlib.Core.List.{append-nil}
use apue_li_huiqin.Base.{
  first_none-ne_none, first_none-vacant, ℕ, zero, suc, ◌+◌, ◌≤◌, ◌≡◌, refl, ap, ◌∙◌, true, Option,
  none, some, [], ◌∷◌, ◌++◌, arith, length, set, get_elem?, replicate, Option-cases, inl, inr,
}
use apue_li_huiqin.Bucket.{
  Mytbf, Jobs, refill, thr_alrm, get_free_pos_unlocked, mytbf_init, mytbf_destroy, mytbf_max, entry,
  unload_at, unload_from, module_unload,
}

-- Each bucket, the first one at entry `i`, keeps the number of its own entry and holds at most its
-- burst.
abbrev pub IsTidy : ℕ → Jobs → Type 0
IsTidy i [] = Unit
IsTidy i (none ∷ ss) = IsTidy (suc i) ss
IsTidy i (some me ∷ ss) = (me.pos ≡ i) × (me.token ≤ me.burst) × IsTidy (suc i) ss

set-none-IsTidy : (i pos : ℕ) (job : Jobs) → IsTidy i job → IsTidy i (set job pos none)
set-none-IsTidy i pos [] t = tt
set-none-IsTidy i zero (none ∷ ss) t = t
set-none-IsTidy i zero (some me ∷ ss) t = t.2
set-none-IsTidy i (suc pos) (none ∷ ss) t = set-none-IsTidy (suc i) pos ss t
set-none-IsTidy i (suc pos) (some me ∷ ss) t = (t.0, t.1, set-none-IsTidy (suc i) pos ss t.2)

set-some-IsTidy :
    (i pos : ℕ) (job : Jobs) (me : Mytbf)
    → IsTidy i job
    → me.pos ≡ i + pos
    → me.token ≤ me.burst
    → IsTidy i (set job pos (some me))
set-some-IsTidy i pos [] me t e b = tt
set-some-IsTidy i zero (none ∷ ss) me t e b = (omega arith, b, t)
set-some-IsTidy i zero (some m ∷ ss) me t e b = (omega arith, b, t.2)
set-some-IsTidy i (suc pos) (none ∷ ss) me t e b =
    set-some-IsTidy (suc i) pos ss me t (omega arith) b
set-some-IsTidy i (suc pos) (some m ∷ ss) me t e b =
    (t.0, t.1, set-some-IsTidy (suc i) pos ss me t.2 (omega arith) b)

-- A round of the thread keeps every bucket at home and within its burst.
thr_alrm-IsTidy : (i : ℕ) (job : Jobs) → IsTidy i job → IsTidy i (thr_alrm job)
unfolding thr_alrm refill
thr_alrm-IsTidy i [] t = tt
thr_alrm-IsTidy i (none ∷ ss) t = thr_alrm-IsTidy (suc i) ss t
thr_alrm-IsTidy i (some me ∷ ss) t = (t.0, ground arith, thr_alrm-IsTidy (suc i) ss t.2)

-- A new bucket, at an entry that was empty; every other entry is as before.
pub record Opened (cps burst : ℕ) (job : Jobs) (out : Jobs × Option ℕ) : Type 0 where
  pub handle : ℕ
  pub result : out.1 ≡ some handle
  pub was : get_elem? job handle ≡ some none
  pub table :
      out.0 ≡ set job handle (some (record { cps = cps; burst = burst; token = 0; pos = handle }))
  pub tidy : IsTidy 0 out.0

-- Where the table has an empty entry and memory is left, `mytbf_init` opens a bucket with no tokens at
-- an empty entry, returns its number and keeps it in the bucket, and leaves every other entry alone.
pub mytbf_init-Opened :
    (cps burst i : ℕ) (job : Jobs)
    → IsTidy 0 job
    → get_elem? job i ≡ some none
    → Opened cps burst job (mytbf_init true cps burst job)
unfolding mytbf_init get_free_pos_unlocked
mytbf_init-Opened cps burst i job t free = elim (Option-cases (get_free_pos_unlocked job)) [
  | inl full ↦ absurd (first_none-ne_none job 0 i free full)
  | inr (pos, e) ↦ rw e record {
    handle = pos;
    result = refl;
    was = first_none-vacant job e;
    table = refl;
    tidy =
        set-some-IsTidy 0 pos job (record { cps = cps; burst = burst; token = 0; pos = pos }) t
          (omega arith) (omega arith);
  }
]

-- A table whose first `i` entries are empty.
abbrev emptied : ℕ → Jobs → Jobs
emptied i ss = replicate i none ++ ss

emptied-suc : (i : ℕ) (ss : Jobs) → emptied i (none ∷ ss) ≡ emptied (suc i) ss
emptied-suc zero ss = refl
emptied-suc (suc i) ss = ap (λ l. none ∷ l) (emptied-suc i ss)

entry-emptied : (i : ℕ) (s : Option Mytbf) (ss : Jobs) → entry (emptied i (s ∷ ss)) i ≡ s
entry-emptied zero s ss = refl
entry-emptied (suc i) s ss = entry-emptied i s ss

set-emptied :
    (i : ℕ) (s : Option Mytbf) (ss : Jobs) → set (emptied i (s ∷ ss)) i none ≡ emptied i (none ∷ ss)
set-emptied zero s ss = refl
set-emptied (suc i) s ss = ap (λ l. none ∷ l) (set-emptied i s ss)

unload_at-emptied :
    (i : ℕ) (s : Option Mytbf) (ss : Jobs)
    → IsTidy i (s ∷ ss)
    → unload_at s (emptied i (s ∷ ss)) ≡ emptied (suc i) ss
unfolding unload_at mytbf_destroy
unload_at-emptied i none ss t = emptied-suc i ss
unload_at-emptied i (some me) ss t = simp (t.0) (set-emptied i (some me) ss ∙ emptied-suc i ss)

IsTidy-tail : (i : ℕ) (s : Option Mytbf) (ss : Jobs) → IsTidy i (s ∷ ss) → IsTidy (suc i) ss
IsTidy-tail i none ss t = t
IsTidy-tail i (some me) ss t = t.2

unload_from-emptied :
    (n i : ℕ) (ss : Jobs)
    → length ss ≡ n
    → IsTidy i ss
    → unload_from n i (emptied i ss) ≡ replicate (i + n) none
unfolding unload_from
unload_from-emptied zero i [] h t = rw (add-zero, append-nil)
unload_from-emptied zero i (s ∷ ss) h t = absurd (omega arith)
unload_from-emptied (suc n) i [] h t = absurd (omega arith)
unload_from-emptied (suc n) i (s ∷ ss) h t =
    rw (entry-emptied i s ss, unload_at-emptied i s ss t, add-one, add-suc)
      (rw suc-add at (unload_from-emptied n (suc i) ss (omega arith) (IsTidy-tail i s ss t)))

-- At the end of the program `module_unload` empties a tidy table of 1024 entries: each bucket still
-- there is destroyed, at its own entry.
module_unload-empty :
    (job : Jobs)
    → length job ≡ mytbf_max
    → IsTidy 0 job
    → module_unload job ≡ replicate mytbf_max none
unfolding module_unload
module_unload-empty job h t = unload_from-emptied mytbf_max 0 job h t
