-- ===== src/Copy/Write.antt =====
-- The loop that writes a whole buffer, shared by the copying programs.
use apue_li_huiqin.Base.{
  ℕ, zero, suc, ◌+◌, ◌-◌, ◌≤◌, ◌<◌, ◌≡◌, refl, ◌∙◌, ap, min, Bool, true, false, List, [], ◌∷◌, ◌++◌,
  arith, length, take, drop, count_by, All, length-drop, take-append-drop, length-zero, drop-add,
}
use mathlib.Core.List.{append_assoc}
use apue_li_huiqin.Copy.{
  Answer, success, interrupted, failed, written, broken, waiting, Written, write_all,
}

-- The loop writes a beginning of what the buffer has from `pos` on, and `lost` is the rest.
pub record Wrote (todo out : List ℕ) (w : Written) : Type 0 where
  pub lost : List ℕ
  pub whole : w.out ++ lost ≡ out ++ todo
  pub all : w.verdict ≡ written → lost ≡ []

Wrote-none :
    (todo out : List ℕ) (w : Written)
    → w.out ≡ out
    → (w.verdict ≡ written → todo ≡ [])
    → Wrote todo out w
Wrote-none todo out w e h = record { lost = todo; whole = ap (λ l. l ++ todo) e; all = h }

-- A write that moved `n` bytes before the rest of the loop.
Wrote-more :
    (n : ℕ) (todo out : List ℕ) (w : Written)
    → Wrote (drop n todo) (out ++ take n todo) w
    → Wrote todo out w
Wrote-more n todo out w h = record {
  lost = h.lost;
  whole =
      h.whole
      ∙ append_assoc out (take n todo) (drop n todo)
      ∙ ap (λ l. out ++ l) (take-append-drop n todo);
  all = h.all;
}

write_all-zero :
    (ws : List Answer) (buf : List ℕ) (pos : ℕ) (out : List ℕ)
    → write_all ws buf pos 0 out ≡ record { verdict = written; rest = ws; out = out }
unfolding write_all
write_all-zero [] buf pos out = refl
write_all-zero (success n ∷ ws) buf pos out = refl
write_all-zero (interrupted ∷ ws) buf pos out = refl
write_all-zero (failed ∷ ws) buf pos out = refl

-- The round of a `write` that moves something.
write_all-success :
    (n : ℕ) (ws : List Answer) (buf : List ℕ) (pos len : ℕ) (out : List ℕ)
    → 0 < len
    → write_all (success n ∷ ws) buf pos len out
      ≡ write_all ws buf
          (pos + min (suc n) len)
          (len - min (suc n) len)
          (out ++ take (min (suc n) len) (drop pos buf))
unfolding write_all
write_all-success n ws buf pos len out h = ground arith

write_all-nil :
    (buf : List ℕ) (pos len : ℕ) (out : List ℕ)
    → 0 < len
    → write_all [] buf pos len out ≡ record { verdict = waiting; rest = []; out = out }
unfolding write_all
write_all-nil buf pos len out h = ground arith

write_all-interrupted :
    (ws : List Answer) (buf : List ℕ) (pos len : ℕ) (out : List ℕ)
    → 0 < len
    → write_all (interrupted ∷ ws) buf pos len out ≡ write_all ws buf pos len out
unfolding write_all
write_all-interrupted ws buf pos len out h = ground arith

write_all-failed :
    (ws : List Answer) (buf : List ℕ) (pos len : ℕ) (out : List ℕ)
    → 0 < len
    → write_all (failed ∷ ws) buf pos len out ≡ record { verdict = broken; rest = ws; out = out }
unfolding write_all
write_all-failed ws buf pos len out h = ground arith

-- Whatever `write` answers, the loop writes the bytes from `pos` on in order, without gap and without
-- repetition, and all of them if it ends without an error.
pub write_all-Wrote :
    (ws : List Answer) (buf : List ℕ) (pos len : ℕ) (out : List ℕ)
    → length (drop pos buf) ≡ len
    → Wrote (drop pos buf) out (write_all ws buf pos len out)
write_all-Wrote ws buf pos zero out h =
    rw (write_all-zero ws buf pos out) (Wrote-none (drop pos buf) out _ refl (λ e. length-zero _ h))
write_all-Wrote [] buf pos (suc len) out h =
    rw (write_all-nil buf pos (suc len) out (omega arith))
      (Wrote-none (drop pos buf) out _ refl (λ e. cc))
write_all-Wrote (success n ∷ ws) buf pos (suc len) out h =
    let m : ℕ = min (suc n) (suc len) in
    rw (write_all-success n ws buf pos (suc len) out (omega arith)) (
      Wrote-more m (drop pos buf) out _ (
        rw drop-add at (
          write_all-Wrote ws buf (pos + m) (suc len - m) (out ++ take m (drop pos buf))
            (rw drop-add (omega (arith, length-drop m (drop pos buf), h))))))
write_all-Wrote (interrupted ∷ ws) buf pos (suc len) out h =
    rw (write_all-interrupted ws buf pos (suc len) out (omega arith))
      (write_all-Wrote ws buf pos (suc len) out h)
write_all-Wrote (failed ∷ ws) buf pos (suc len) out h =
    rw (write_all-failed ws buf pos (suc len) out (omega arith))
      (Wrote-none (drop pos buf) out _ refl (λ e. cc))

-- The answers that move something, and those that do not fail.
abbrev pub is_success : Answer → Bool
is_success (success n) = true
is_success _ = false

abbrev pub successes : List Answer → ℕ
successes = count_by is_success

abbrev pub IsHealthy : Answer → Type 0
IsHealthy failed = ⊥
IsHealthy _ = Unit

-- The loop has written the whole buffer, and used at most one success for each byte.
pub record Finished (ws : List Answer) (len : ℕ) (w : Written) : Type 0 where
  pub done : w.verdict ≡ written
  pub healthy : All IsHealthy w.rest
  pub used : successes ws ≤ successes w.rest + len

pub write_all-Finished :
    (ws : List Answer) (buf : List ℕ) (pos len : ℕ) (out : List ℕ)
    → All IsHealthy ws
    → len ≤ successes ws
    → Finished ws len (write_all ws buf pos len out)
write_all-Finished ws buf pos zero out h k =
    rw (write_all-zero ws buf pos out) record { done = refl; healthy = h; used = omega arith }
write_all-Finished [] buf pos (suc len) out h k = absurd (omega arith)
write_all-Finished (success n ∷ ws) buf pos (suc len) out h k =
    let m : ℕ = min (suc n) (suc len) in
    let f =
      write_all-Finished ws buf (pos + m) (suc len - m) (out ++ take m (drop pos buf)) h.1
        (omega arith) in
    rw (write_all-success n ws buf pos (suc len) out (omega arith))
      record { done = f.done; healthy = f.healthy; used = omega (arith, f.used) }
write_all-Finished (interrupted ∷ ws) buf pos (suc len) out h k =
    let f = write_all-Finished ws buf pos (suc len) out h.1 (omega arith) in
    rw (write_all-interrupted ws buf pos (suc len) out (omega arith))
      record { done = f.done; healthy = f.healthy; used = omega (arith, f.used) }
write_all-Finished (failed ∷ ws) buf pos (suc len) out h k = absurd (h.0)
