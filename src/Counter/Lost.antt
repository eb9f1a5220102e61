-- ===== src/Counter/Lost.antt =====
-- Without a lock updates are lost: what 31.线程专题/conflict.c may end with.
use mathlib.Core.Path.{subst}
use mathlib.Core.List.{append-nil}
use apue_li_huiqin.Base.{
  ℕ, zero, suc, ◌+◌, ◌≤◌, ◌<◌, ◌≡◌, ◌⊎◌, inl, inr, refl, ◌∙◌, ap, Bool, false, Option, none, some,
  List, [], ◌∷◌, ◌++◌, arith, length, length-set, length-replicate, one_if, count_by, count_by-set,
  count_by-replicate, set, get_elem?, replicate, All, All-get_elem?, All-set, All-mono,
  All-replicate,
}
use apue_li_huiqin.Counter.{
  no_guard, At, opened, inside, got, put, finished, given_up, File, sem_p, enter, at_guard, leave,
  func, Reach, begin, next,
}
use apue_li_huiqin.Counter.Counts.{has_put, has_given_up, is_over, over-parts, parts-le-length}

-- A number that a worker has read lies between these.
abbrev Between : ℕ → ℕ → At → Type 0
Between lo hi opened = Unit
Between lo hi inside = Unit
Between lo hi (got n) = (lo ≤ n) × (n ≤ hi)
Between lo hi put = Unit
Between lo hi finished = Unit
Between lo hi given_up = Unit

Between-more : (lo hi : ℕ) (w : At) → Between lo hi w → Between lo (hi + 1) w
Between-more lo hi opened h = tt
Between-more lo hi inside h = tt
Between-more lo hi (got n) h = (h.0, omega (arith, h.1))
Between-more lo hi put h = tt
Between-more lo hi finished h = tt
Between-more lo hi given_up h = tt

record IsBounded (workers number : ℕ) (f : File) : Type 0 where
  pub most : f.number ≤ number + count_by has_put f.workers
  pub least : number ≤ f.number
  pub grown : (count_by has_put f.workers ≡ 0) ⊎ (number < f.number)
  pub read : All (Between number (number + count_by has_put f.workers)) f.workers
  pub none_up : count_by has_given_up f.workers ≡ 0
  pub all_there : length f.workers ≡ workers

-- A worker goes on that has not read or has written already.
moved :
    {workers number : ℕ} (f : File) (k : ℕ) (v w : At)
    → IsBounded workers number f
    → get_elem? f.workers k ≡ some v
    → has_put w ≡ has_put v
    → has_given_up w ≡ has_given_up v
    → Between number (number + count_by has_put f.workers) w
    → IsBounded workers number (record f { workers = set f.workers k w })
moved {number = number} f k v w h e same up between =
    let p : count_by has_put (set f.workers k w) ≡ count_by has_put f.workers =
      omega (arith, count_by-set has_put f.workers k v w e, ap one_if same) in
    record {
      most = omega (arith, h.most, p);
      least = h.least;
      grown = rw p h.grown;
      read = rw p (
          All-set (Between number (number + count_by has_put f.workers)) f.workers k w between
            h.read);
      none_up = omega (arith, h.none_up, count_by-set has_given_up f.workers k v w e, ap one_if up);
      all_there = length-set f.workers k w ∙ h.all_there;
    }

written :
    {workers number : ℕ} (f : File) (k n : ℕ)
    → IsBounded workers number f
    → get_elem? f.workers k ≡ some (got n)
    → IsBounded workers number (record f { number = n + 1; workers = set f.workers k put })
written {number = number} f k n h e =
    let hi : ℕ = number + count_by has_put f.workers in
    let p : count_by has_put (set f.workers k put) ≡ count_by has_put f.workers + 1 =
      omega (arith, count_by-set has_put f.workers k (got n) put e) in
    let b : Between number hi (got n) =
      All-get_elem? (Between number hi) f.workers k (got n) e h.read in
    let more : All (Between number (hi + 1)) (set f.workers k put) =
      All-set (Between number (hi + 1)) f.workers k put tt (
        All-mono (Between number hi) (Between number (hi + 1)) f.workers (Between-more number hi)
          h.read) in
    let eq : number + (count_by has_put f.workers + 1) ≡ hi + 1 = omega arith in
    record {
      most = omega (arith, b.1, p);
      least = omega (arith, b.0);
      grown = inr (omega (arith, b.0));
      read = rw (p, eq) more;
      none_up = omega (arith, h.none_up, count_by-set has_given_up f.workers k (got n) put e);
      all_there = length-set f.workers k put ∙ h.all_there;
    }

func-IsBounded :
    {workers number : ℕ} (f : File) (k : ℕ) (p : Option Bool) (o : Option At)
    → IsBounded workers number f
    → get_elem? f.workers k ≡ o
    → IsBounded workers number (func no_guard k p o f)
unfolding func at_guard enter leave
func-IsBounded f k p none h e = h
func-IsBounded f k p (some opened) h e = moved f k opened inside h e refl refl tt
func-IsBounded f k p (some inside) h e =
    moved f k inside (got f.number) h e refl refl (h.least, h.most)
func-IsBounded f k p (some (got m)) h e = written f k m h e
func-IsBounded f k p (some put) h e = moved f k put finished h e refl refl tt
func-IsBounded f k p (some finished) h e = h
func-IsBounded f k p (some given_up) h e = h

Reach-IsBounded :
    {workers number : ℕ} {f : File} → Reach no_guard workers number f → IsBounded workers number f
Reach-IsBounded {workers = workers} {number = number} begin =
    let p = count_by-replicate has_put workers opened refl in
    record {
      most = omega arith;
      least = omega arith;
      grown = inl p;
      read =
          All-replicate (Between number (number + count_by has_put (replicate workers opened)))
            workers opened tt;
      none_up = count_by-replicate has_given_up workers opened refl;
      all_there = length-replicate workers opened;
    }
Reach-IsBounded (next {f = f} k answers r) =
    func-IsBounded f k (sem_p answers) (get_elem? f.workers k) (Reach-IsBounded r) refl

-- Without a lock, and however the threads are scheduled: at the end of all of them, if there are any,
-- the number has grown, by at most one for each.
pub Reach-between :
    {workers number : ℕ} {f : File}
    → Reach no_guard workers number f
    → count_by is_over f.workers ≡ workers
    → 0 < workers
    → (number < f.number) × (f.number ≤ number + workers)
Reach-between {workers = workers} {f = f} r all_over some_worker =
    let h = Reach-IsBounded r in
    let a = over-parts f.workers in
    let b = parts-le-length f.workers in
    (
      ground (arith, h.grown, a, all_over, h.none_up),
      omega (arith, h.most, a, b, h.all_there, h.none_up, all_over),
    )

-- Worker `i` stands behind `i` others.
get_elem?-behind :
    {A : Type 0} (i : ℕ) (b a : A) (ys : List A) → get_elem? (replicate i b ++ a ∷ ys) i ≡ some a
get_elem?-behind zero b a ys = refl
get_elem?-behind (suc i) b a ys = get_elem?-behind i b a ys

set-behind :
    {A : Type 0} (i : ℕ) (b a c : A) (ys : List A)
    → set (replicate i b ++ a ∷ ys) i c ≡ replicate i b ++ c ∷ ys
set-behind zero b a c ys = refl
set-behind (suc i) b a c ys = ap (λ l. b ∷ l) (set-behind i b a c ys)

replicate-behind :
    {A : Type 0} (i : ℕ) (b : A) (ys : List A) → replicate i b ++ b ∷ ys ≡ replicate (suc i) b ++ ys
replicate-behind zero b ys = refl
replicate-behind (suc i) b ys = ap (λ l. b ∷ l) (replicate-behind i b ys)

abbrev file : ℕ → List At → File
file number workers = record { number = number; locked = false; workers = workers }

module _ (workers number : ℕ) where
  -- A step of the worker behind `i` others, from `a` to `c`.
  step_behind :
      (i m m' : ℕ) (b a c : At) (ys : List At)
      → func no_guard i none (some a) (file m (replicate i b ++ a ∷ ys))
        ≡ file m' (set (replicate i b ++ a ∷ ys) i c)
      → Reach no_guard workers number (file m (replicate i b ++ a ∷ ys))
      → Reach no_guard workers number (file m' (replicate i b ++ c ∷ ys))
  unfolding sem_p
  step_behind i m m' b a c ys e r =
      subst (Reach no_guard workers number)
        (ap (λ o. func no_guard i none o (file m (replicate i b ++ a ∷ ys)))
            (get_elem?-behind i b a ys)
          ∙ e
          ∙ ap (file m') (set-behind i b a c ys))
        (next i [] r)

  -- All read before any writes.
  all_read :
      (j i n : ℕ)
      → i + j ≡ n
      → Reach no_guard workers number (file number (replicate i (got number) ++ replicate j opened))
      → Reach no_guard workers number (file number (replicate n (got number)))
  unfolding func at_guard enter
  all_read zero i n e r =
      let same : i ≡ n = omega (arith, e) in
      subst (λ ws. Reach no_guard workers number (file number ws))
        (append-nil (replicate i (got number)) ∙ ap (λ (k : ℕ). replicate k (got number)) same) r
  all_read (suc j) i n e r =
      let ys : List At = replicate j opened in
      let one = step_behind i number number (got number) opened inside ys refl r in
      let two = step_behind i number number (got number) inside (got number) ys refl one in
      all_read j (suc i) n (omega (arith, e)) (
        subst (λ ws. Reach no_guard workers number (file number ws))
          (replicate-behind i (got number) ys) two)

  -- Then each writes what it has read.
  all_write :
      (j i m n : ℕ)
      → i + j ≡ n
      → (m ≡ number + 1) ⊎ (0 < j)
      → Reach no_guard workers number (file m (replicate i finished ++ replicate j (got number)))
      → Reach no_guard workers number (file (number + 1) (replicate n finished))
  unfolding func leave
  all_write zero i m n e (inr h) r = absurd (omega arith)
  all_write zero i m n e (inl h) r =
      let same : i ≡ n = omega (arith, e) in
      subst (λ ws. Reach no_guard workers number (file (number + 1) ws))
        (append-nil (replicate i finished) ∙ ap (λ (k : ℕ). replicate k finished) same)
        (subst (λ k. Reach no_guard workers number (file k (replicate i finished ++ []))) h r)
  all_write (suc j) i m n e h r =
      let ys : List At = replicate j (got number) in
      let one = step_behind i m (number + 1) finished (got number) put ys refl r in
      let two = step_behind i (number + 1) (number + 1) finished put finished ys refl one in
      all_write j (suc i) (number + 1) n (omega (arith, e)) (inl refl) (
        subst (λ ws. Reach no_guard workers number (file (number + 1) ws))
          (replicate-behind i finished ys) two)

-- Without a lock, any number of threads, one or more, can all end with the number grown by just one.
pub lost-Reach :
    (workers number : ℕ)
    → Reach no_guard
        (suc workers)
        number
        (record { number = number + 1; locked = false; workers = replicate (suc workers) finished })
lost-Reach workers number =
    all_write (suc workers) number (suc workers) 0 number (suc workers) (omega arith)
      (inr (omega arith))
      (all_read (suc workers) number (suc workers) 0 (suc workers) (omega arith) begin)
