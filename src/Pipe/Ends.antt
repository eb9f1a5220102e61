-- ===== src/Pipe/Ends.antt =====
-- 33.管道实例/mypipe/mypipe.c: the ends that register, and the end of the data.
use apue_li_huiqin.Base.{
  ℕ, ◌-◌, ◌<◌, ◌≡◌, ◌⊎◌, inl, inr, refl, Bool, true, false, none, some, List, [], ◌∷◌, arith, ◌==◌,
  All, Bool-cases,
}
use apue_li_huiqin.Pipe.{
  Mypipe, must_wait, wait_data, read_ready, mypite_read, one_sided, wait_both, counted,
  mypite_register, mypite_unregister,
}

-- A reader that waits at an empty pipe for its only writer is let go when that unregisters, and reads
-- nothing: the end of the data.
pub mypite_read-mypite_unregister :
    (next : ℕ → ℕ) (count : ℕ) (me : Mypipe)
    → me.datasize ≡ 0
    → me.count_wr ≡ 1
    → let q = mypite_unregister false true me in
      (mypite_read next [] count me ≡ none) × (mypite_read next (q ∷ []) count me ≡ some (q, []))
unfolding mypite_read mypite_unregister wait_data read_ready
mypite_read-mypite_unregister next count me e w =
    let waits : must_wait me ≡ true = ground arith in
    let goes : must_wait (mypite_unregister false true me) ≡ false = ground arith in
    let empty : (me.datasize == 0) ≡ true = ground arith in
    let over : (me.count_wr - 1 == 0) ≡ true = ground arith in
    (rw (mypite_read, waits) refl, rw (mypite_read, waits, goes, empty, over) refl)

wait_both-found :
    (wakes : List Mypipe) (me : Mypipe)
    → (All (λ p. one_sided p ≡ true) (me ∷ wakes) × (wait_both wakes me ≡ none))
      ⊎ ((p : Mypipe) × (wait_both wakes me ≡ some p) × (0 < p.count_rd) × (0 < p.count_wr))
unfolding wait_both
wait_both-found [] me = elim (Bool-cases (one_sided me)) [
  | inl e ↦ inl ((e, tt), rw e refl)
  | inr e ↦ inr (me, rw e refl, ground arith, ground arith)
]
wait_both-found (w ∷ wakes) me = elim (Bool-cases (one_sided me)) [
  | inl e ↦ elim (wait_both-found wakes w) [
    | inl (a, n) ↦ inl ((e, a), rw e n)
    | inr (p, q, r, s) ↦ inr (p, rw e q, r, s)
  ]
  | inr e ↦ inr (me, rw e refl, ground arith, ground arith)
]

-- `mypite_register` comes back with a reader and a writer registered, or it waits because at its begin
-- and at each waking one of the two kinds has none.
mypite_register-both :
    (read write : Bool) (wakes : List Mypipe) (me : Mypipe)
    → (All (λ p. one_sided p ≡ true) (counted read write me ∷ wakes)
        × (mypite_register read write wakes me ≡ none))
      ⊎ ((p : Mypipe) × (mypite_register read write wakes me ≡ some p)
          × (0 < p.count_rd)
          × (0 < p.count_wr))
unfolding mypite_register
mypite_register-both read write wakes me = wait_both-found wakes (counted read write me)
