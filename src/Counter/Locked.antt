-- ===== src/Counter/Locked.antt =====
-- No update is lost under a lock: 31.线程专题/mutex.c, 32.高级IO/add.c, 34.进、线程通信专题/add_semarr.c.
use apue_li_huiqin.Base.{
  ℕ, ◌+◌, ◌≤◌, ◌≡◌, ◌≢◌, refl, ◌∙◌, ap, Bool, true, false, Option, none, some, arith, length,
  length-set, length-replicate, one_if, count_by-replicate, count_by, count_by-set, count_by_mono,
  set, get_elem?,
}
use apue_li_huiqin.Counter.{
  Guard, no_guard, mutex, file_lock, semaphore, At, opened, inside, got, put, finished, given_up,
  File, sem_p, enter, at_guard, leave, func, start, Reach, begin, next,
}
use apue_li_huiqin.Counter.Counts.{
  is_within, is_got, is_stale, has_put, has_given_up, is_over, stale-le-got, got-le-within,
  over-parts, parts-le-length,
}

record IsCounted (workers number : ℕ) (f : File) : Type 0 where
  pub counted : f.number ≡ number + count_by has_put f.workers
  pub one_within : count_by is_within f.workers ≡ one_if f.locked
  pub fresh : count_by (is_stale f.number) f.workers ≡ 0
  pub all_there : length f.workers ≡ workers

-- Worker `k` goes from `v` to `w` with the number as it is; `b` is the lock after it.
moved :
    {workers number : ℕ} (f : File) (k : ℕ) (v w : At) (b : Bool)
    → IsCounted workers number f
    → get_elem? f.workers k ≡ some v
    → has_put w ≡ has_put v
    → one_if (is_within w) + one_if f.locked ≡ one_if (is_within v) + one_if b
    → is_stale f.number w ≡ false
    → IsCounted workers number (record f { locked = b; workers = set f.workers k w })
moved f k v w b h e same lock fresh =
    let p = count_by-set has_put f.workers k v w e in
    let i = count_by-set is_within f.workers k v w e in
    let s = count_by-set (is_stale f.number) f.workers k v w e in
    record {
      counted = omega (arith, h.counted, p, ap one_if same);
      one_within = omega (arith, h.one_within, i, lock);
      fresh = omega (arith, h.fresh, s, ap one_if fresh);
      all_there = length-set f.workers k w ∙ h.all_there;
    }

-- The number that a worker behind its lock writes is one more than that of the file.
written :
    {workers number : ℕ} (f : File) (k n : ℕ)
    → IsCounted workers number f
    → get_elem? f.workers k ≡ some (got n)
    → IsCounted workers number (record f { number = n + 1; workers = set f.workers k put })
written f k n h e =
    let p = count_by-set has_put f.workers k (got n) put e in
    let i = count_by-set is_within f.workers k (got n) put e in
    let g = count_by-set is_got f.workers k (got n) put e in
    let s = count_by-set (is_stale f.number) f.workers k (got n) put e in
    let a = count_by_mono is_got is_within got-le-within f.workers in
    let b = count_by_mono (is_stale (n + 1)) is_got (stale-le-got (n + 1)) (set f.workers k put) in
    let one : one_if f.locked ≤ 1 = ground arith in
    let current : n ≡ f.number = ground (arith, s, h.fresh) in
    record {
      counted = omega (arith, h.counted, p, current);
      one_within = omega (arith, h.one_within, i);
      fresh = omega (arith, g, a, b, one, h.one_within);
      all_there = length-set f.workers k put ∙ h.all_there;
    }

enter-IsCounted :
    {workers number : ℕ} (g : Guard) (f : File) (k : ℕ) (p : Option Bool)
    → g ≢ no_guard
    → f.locked ≡ false
    → IsCounted workers number f
    → get_elem? f.workers k ≡ some opened
    → IsCounted workers number (enter g k p f)
unfolding enter
enter-IsCounted no_guard f k p g l h e = absurd (g refl)
enter-IsCounted mutex f k p g l h e = moved f k opened inside true h e refl (rw l refl) refl
enter-IsCounted file_lock f k p g l h e = moved f k opened inside true h e refl (rw l refl) refl
enter-IsCounted semaphore f k none g l h e = h
enter-IsCounted semaphore f k (some true) g l h e =
    moved f k opened inside true h e refl (rw l refl) refl
enter-IsCounted semaphore f k (some false) g l h e =
    moved f k opened given_up f.locked h e refl refl refl

at_guard-IsCounted :
    {workers number : ℕ} (g : Guard) (f : File) (b : Bool) (k : ℕ) (p : Option Bool)
    → g ≢ no_guard
    → f.locked ≡ b
    → IsCounted workers number f
    → get_elem? f.workers k ≡ some opened
    → IsCounted workers number (at_guard g b k p f)
unfolding at_guard enter
at_guard-IsCounted no_guard f b k p g l h e = absurd (g refl)
at_guard-IsCounted mutex f true k p g l h e = h
at_guard-IsCounted mutex f false k p g l h e = enter-IsCounted mutex f k p g l h e
at_guard-IsCounted file_lock f true k p g l h e = h
at_guard-IsCounted file_lock f false k p g l h e = enter-IsCounted file_lock f k p g l h e
at_guard-IsCounted semaphore f true k none g l h e = h
at_guard-IsCounted semaphore f true k (some true) g l h e = h
at_guard-IsCounted semaphore f true k (some false) g l h e =
    moved f k opened given_up f.locked h e refl refl refl
at_guard-IsCounted semaphore f false k p g l h e = enter-IsCounted semaphore f k p g l h e

-- Whoever is at the unlocking has the lock.
held :
    {workers number : ℕ} (f : File) (k : ℕ)
    → IsCounted workers number f
    → get_elem? f.workers k ≡ some put
    → 0 + one_if f.locked ≡ 1 + one_if false
held f k h e =
    let i = count_by-set is_within f.workers k put finished e in
    let one : one_if f.locked ≤ 1 = ground arith in omega (arith, i, one, h.one_within)

leave-IsCounted :
    {workers number : ℕ} (g : Guard) (f : File) (k : ℕ)
    → g ≢ no_guard
    → IsCounted workers number f
    → get_elem? f.workers k ≡ some put
    → IsCounted workers number (leave g k f)
unfolding leave
leave-IsCounted no_guard f k g h e = absurd (g refl)
leave-IsCounted mutex f k g h e = moved f k put finished false h e refl (held f k h e) refl
leave-IsCounted file_lock f k g h e = moved f k put finished false h e refl (held f k h e) refl
leave-IsCounted semaphore f k g h e = moved f k put finished false h e refl (held f k h e) refl

func-IsCounted :
    {workers number : ℕ} (g : Guard) (f : File) (k : ℕ) (p : Option Bool) (o : Option At)
    → g ≢ no_guard
    → IsCounted workers number f
    → get_elem? f.workers k ≡ o
    → IsCounted workers number (func g k p o f)
unfolding func
func-IsCounted g f k p none n h e = h
func-IsCounted g f k p (some opened) n h e = at_guard-IsCounted g f f.locked k p n refl h e
func-IsCounted g f k p (some inside) n h e =
    moved f k inside (got f.number) f.locked h e refl refl (ground arith)
func-IsCounted g f k p (some (got m)) n h e = written f k m h e
func-IsCounted g f k p (some put) n h e = leave-IsCounted g f k n h e
func-IsCounted g f k p (some finished) n h e = h
func-IsCounted g f k p (some given_up) n h e = h

start-IsCounted : (workers number : ℕ) → IsCounted workers number (start workers number)
start-IsCounted workers number = record {
  counted = omega (arith, count_by-replicate has_put workers opened refl);
  one_within = count_by-replicate is_within workers opened refl;
  fresh = count_by-replicate (is_stale number) workers opened refl;
  all_there = length-replicate workers opened;
}

Reach-IsCounted :
    {g : Guard} {workers number : ℕ} {f : File}
    → g ≢ no_guard
    → Reach g workers number f
    → IsCounted workers number f
Reach-IsCounted n begin = start-IsCounted _ _
Reach-IsCounted {g = g} n (next {f = f} k answers r) =
    func-IsCounted g f k (sem_p answers) (get_elem? f.workers k) n (Reach-IsCounted n r) refl

-- Under the mutex, the file lock or the semaphore, and however the workers are scheduled, at most one is
-- between its lock and its unlocking, and the number has grown by one for each that has written.
Reach-counts :
    {g : Guard} {workers number : ℕ} {f : File}
    → g ≢ no_guard
    → Reach g workers number f
    → (count_by is_within f.workers ≤ 1) × (f.number ≡ number + count_by has_put f.workers)
Reach-counts n r = let h = Reach-IsCounted n r in (ground (arith, h.one_within), h.counted)

-- Under the mutex, the file lock or the semaphore, and however the workers are scheduled: at the end of
-- all of them the number has grown by one for each that has not given up.
pub Reach-total :
    {g : Guard} {workers number : ℕ} {f : File}
    → g ≢ no_guard
    → Reach g workers number f
    → count_by is_over f.workers ≡ workers
    → f.number + count_by has_given_up f.workers ≡ number + workers
Reach-total {f = f} n r all_over =
    let h = Reach-IsCounted n r in
    let a = over-parts f.workers in
    let b = parts-le-length f.workers in omega (arith, h.counted, h.all_there, a, b, all_over)
