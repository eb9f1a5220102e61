-- ===== src/Pipe/Queue.antt =====
-- 33.管道实例/mypipe/mypipe.c as a queue: what `mypite_read` takes.
use apue_li_huiqin.Base.{
  ℕ, zero, suc, ◌+◌, ◌-◌, ◌<◌, ◌≡◌, ◌⊎◌, inl, inr, refl, sym, ap, ◌∙◌, true, false, ◌&&◌, none,
  some, List, [], ◌∷◌, ◌++◌, arith, ◌==◌, length, min, All, Bool-cases,
}
use apue_li_huiqin.Pipe.{
  Mypipe, byte_at, behind_byte, mypite_readbyte_unlock, at_byte, read_bytes, must_wait, wait_data,
  read_ready, mypite_read,
}

-- So many bytes from an index on.
abbrev pub bytes_from : (ℕ → ℕ) → List ℕ → ℕ → ℕ → List ℕ
bytes_from next bytes zero i = []
bytes_from next bytes (suc n) i = byte_at bytes i ∷ bytes_from next bytes n (next i)

-- What is in the pipe, the oldest byte first.
abbrev pub queue : (ℕ → ℕ) → Mypipe → List ℕ
queue next me = bytes_from next me.bytes me.datasize me.head

-- `count` bytes, or all, have been taken from the front of the queue.
pub record Took (next : ℕ → ℕ) (count : ℕ) (me : Mypipe) (out : Mypipe × List ℕ) : Type 0 where
  pub whole : out.1 ++ queue next out.0 ≡ queue next me
  pub size : length out.1 ≡ min count me.datasize
  pub left : out.0.datasize + length out.1 ≡ me.datasize
  pub same_writers : out.0.count_wr ≡ me.count_wr

queue-nonempty :
    (next : ℕ → ℕ) (bytes : List ℕ) (n i : ℕ)
    → (n == 0) ≡ false
    → bytes_from next bytes n i ≡ byte_at bytes i ∷ bytes_from next bytes (n - 1) (next i)
queue-nonempty next bytes zero i h = absurd (ground arith)
queue-nonempty next bytes (suc n) i h =
    ap (λ (k : ℕ). byte_at bytes i ∷ bytes_from next bytes k (next i)) (omega arith)

at_byte-empty :
    (next : ℕ → ℕ) (me : Mypipe) (rest : Mypipe × List ℕ)
    → (me.datasize == 0) ≡ true
    → at_byte me rest (mypite_readbyte_unlock next me) ≡ (me, [])
unfolding at_byte mypite_readbyte_unlock
at_byte-empty next me rest e = rw (mypite_readbyte_unlock, e) refl

at_byte-full :
    (next : ℕ → ℕ) (me : Mypipe) (rest : Mypipe × List ℕ)
    → (me.datasize == 0) ≡ false
    → at_byte me rest (mypite_readbyte_unlock next me) ≡ (rest.0, byte_at me.bytes me.head ∷ rest.1)
unfolding at_byte mypite_readbyte_unlock
at_byte-full next me rest e = rw (mypite_readbyte_unlock, e) refl

read_bytes-Took :
    (next : ℕ → ℕ) (count : ℕ) (me : Mypipe) → Took next count me (read_bytes next count me)
unfolding read_bytes
read_bytes-Took next zero me = record {
  whole = refl;
  size = omega arith;
  left = omega arith;
  same_writers = refl;
}
read_bytes-Took next (suc count) me =
    let rest = read_bytes next count (behind_byte next me) in
    elim (Bool-cases (me.datasize == 0)) [
      | inl e ↦
          rw (at_byte-empty next me rest e)
            (record { whole = refl; size = ground arith; left = omega arith; same_writers = refl })
      | inr e ↦
          let r = read_bytes-Took next count (behind_byte next me) in
          rw (at_byte-full next me rest e) (record {
            whole =
                ap (λ l. byte_at me.bytes me.head ∷ l) r.whole
                ∙ sym (queue-nonempty next me.bytes me.datasize me.head e);
            size = ground (arith, r.size);
            left = ground (arith, r.left);
            same_writers = r.same_writers;
          })
    ]

read_ready-Took :
    (next : ℕ → ℕ) (count : ℕ) (me : Mypipe) → Took next count me (read_ready next count me)
unfolding read_ready
read_ready-Took next count me = elim (Bool-cases ((me.datasize == 0) && (me.count_wr == 0))) [
  | inl e ↦
      rw e (record { whole = refl; size = ground arith; left = omega arith; same_writers = refl })
  | inr e ↦ rw e (read_bytes-Took next count me)
]

-- A pipe with which a reader need not wait.
wait_data-found :
    (wakes : List Mypipe) (me : Mypipe)
    → (All (λ p. must_wait p ≡ true) (me ∷ wakes) × (wait_data wakes me ≡ none))
      ⊎ ((p : Mypipe) × (wait_data wakes me ≡ some p) × (must_wait p ≡ false))
unfolding wait_data
wait_data-found [] me = elim (Bool-cases (must_wait me)) [
  | inl e ↦ inl ((e, tt), rw e refl)
  | inr e ↦ inr (me, rw e refl, e)
]
wait_data-found (w ∷ wakes) me = elim (Bool-cases (must_wait me)) [
  | inl e ↦ elim (wait_data-found wakes w) [
    | inl (a, n) ↦ inl ((e, a), rw e n)
    | inr (p, q, f) ↦ inr (p, rw e q, f)
  ]
  | inr e ↦ inr (me, rw e refl, e)
]

-- What a call of `mypite_read` comes to: it waits as long as the pipe is empty and has a writer; else it
-- takes the bytes from the front of the queue in order, `count` or as many as there are, and leaves the
-- others. It takes none of a positive `count` only where the pipe is empty and without a writer.
pub mypite_read-queue :
    (next : ℕ → ℕ) (wakes : List Mypipe) (count : ℕ) (me : Mypipe)
    → (All (λ p. must_wait p ≡ true) (me ∷ wakes) × (mypite_read next wakes count me ≡ none))
      ⊎ ((p : Mypipe) × (mypite_read next wakes count me ≡ some (read_ready next count p))
          × Took next count p (read_ready next count p)
          × (0 < length (read_ready next count p).1
              ⊎ (count ≡ 0)
              ⊎ ((p.datasize ≡ 0) × (p.count_wr ≡ 0))))
unfolding mypite_read
mypite_read-queue next wakes count me = elim (wait_data-found wakes me) [
  | inl (a, n) ↦ inl (a, rw (mypite_read, n) refl)
  | inr (p, q, f) ↦
      let t = read_ready-Took next count p in
      inr (p, rw (mypite_read, q) refl, t, ground (arith, t.size, f))
]
