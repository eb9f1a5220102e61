-- ===== src/Copy/Stdio/Full.antt =====
-- 25.标准IO/mycp_1.c copies the whole file while `fwrite` takes something, and hangs when it takes nothing.
use mathlib.Core.List.{append-nil}
use apue_li_huiqin.Base.{
  ℕ, zero, suc, ◌+◌, ◌<◌, ◌≤◌, ◌≡◌, refl, ap, ◌∙◌, true, false, List, [], ◌∷◌, ◌++◌, arith, length,
  take, drop, All, replicate, length-drop, length-append, take-append-drop,
}
use apue_li_huiqin.Copy.Stdio.{Writing, full_write, Copied, goes_on, copy}

-- With answers above 0, as many as there are bytes, the loop writes all of them, and needs at most as many
-- answers.
record IsFull (bytes answers : List ℕ) (w : Writing) : Type 0 where
  out : w.out ≡ bytes
  done : w.left ≡ []
  spared : length answers ≤ length w.answers + length bytes
  more : All (λ k. 0 < k) w.answers

full_write-IsFull :
    (answers bytes : List ℕ)
    → All (λ k. 0 < k) answers
    → length bytes ≤ length answers
    → IsFull bytes answers (full_write answers bytes)
unfolding full_write
full_write-IsFull answers [] h e = record {
  out = refl;
  done = refl;
  spared = omega arith;
  more = h;
}
full_write-IsFull [] (c ∷ cs) h e = absurd (omega arith)
full_write-IsFull (k ∷ answers) (c ∷ cs) h e =
    let rest =
      full_write-IsFull answers (drop k (c ∷ cs)) h.1 (omega (arith, length-drop k (c ∷ cs))) in
    record {
      out = ap (λ l. take k (c ∷ cs) ++ l) rest.out ∙ take-append-drop k (c ∷ cs);
      done = rest.done;
      spared = omega (arith, rest.spared, length-drop k (c ∷ cs));
      more = rest.more;
    }

abbrev pub concat : List (List ℕ) → List ℕ
concat [] = []
concat (b ∷ bs) = b ++ concat bs

goes_on-done :
    (w : Writing) (next : List ℕ → Copied)
    → w.left ≡ []
    → goes_on w next
      ≡ record { out = w.out ++ (next w.answers).out; exited = (next w.answers).exited }
unfolding goes_on
goes_on-done w next h = rw h refl

-- While each call of `fwrite` takes at least one byte, the program copies the whole file and exits: every
-- byte of the blocks that `fread` has answered before it has answered none stands in the new file, in
-- order. So many calls as there are bytes are enough.
pub copy_full :
    (blocks : List (List ℕ)) (answers : List ℕ)
    → All (λ b. 0 < length b) blocks
    → All (λ k. 0 < k) answers
    → length (concat blocks) ≤ length answers
    → copy (blocks ++ [] ∷ []) answers ≡ record { out = concat blocks; exited = true }
unfolding copy
copy_full [] answers hb h e = refl
copy_full ([] ∷ blocks) answers hb h e = absurd (omega arith)
copy_full ((c ∷ cs) ∷ blocks) answers hb h e =
    let w : Writing = full_write answers (c ∷ cs) in
    let all = length-append (c ∷ cs) (concat blocks) in
    let v = full_write-IsFull answers (c ∷ cs) h (omega (arith, all)) in
    let rest = copy_full blocks w.answers hb.1 v.more (omega (arith, all, v.spared)) in
    goes_on-done w (copy (blocks ++ [] ∷ [])) v.done ∙ λ i. record {
      out = v.out i ++ (rest i).out;
      exited = (rest i).exited;
    }

-- `fwrite` takes nothing any more.
hangs : (n : ℕ) (bytes : List ℕ) → 0 < length bytes → (full_write (replicate n 0) bytes).out ≡ []
unfolding full_write
hangs n [] h = refl
hangs zero (c ∷ cs) h = refl
hangs (suc n) (c ∷ cs) h = hangs n (c ∷ cs) h

hangs-left : (n : ℕ) (bytes : List ℕ) → (full_write (replicate n 0) bytes).left ≡ bytes
unfolding full_write
hangs-left n [] = refl
hangs-left zero (c ∷ cs) = refl
hangs-left (suc n) (c ∷ cs) = hangs-left n (c ∷ cs)

goes_on-left :
    (w : Writing) (next : List ℕ → Copied) (bytes : List ℕ)
    → w.left ≡ bytes
    → 0 < length bytes
    → goes_on w next ≡ record { out = w.out; exited = false }
unfolding goes_on
goes_on-left w next [] h p = absurd (omega arith)
goes_on-left w next (c ∷ cs) h p = rw h refl

-- Where the disk is full behind the first `k` bytes of a block, so that `fwrite` takes nothing any more, the
-- program never exits and writes nothing else, however many calls it makes.
pub copy_full_disk :
    (block : List ℕ) (reads : List (List ℕ)) (k n : ℕ)
    → k < length block
    → copy (block ∷ reads) (k ∷ replicate n 0) ≡ record { out = take k block; exited = false }
unfolding copy full_write
copy_full_disk [] reads k n h = absurd (omega arith)
copy_full_disk (c ∷ cs) reads k n h =
    let left : List ℕ = drop k (c ∷ cs) in
    let some_left : 0 < length left = omega (arith, length-drop k (c ∷ cs)) in
    goes_on-left (full_write (k ∷ replicate n 0) (c ∷ cs)) (copy reads) left (hangs-left n left)
      some_left
    ∙ λ i. record {
      out =
          (ap (λ l. take k (c ∷ cs) ++ l) (hangs n left some_left) ∙ append-nil (take k (c ∷ cs)))
            i;
      exited = false;
    }
