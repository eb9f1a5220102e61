-- ===== src/Pipe/Tests.antt =====
-- Runs of 33.管道实例/mypipe/mypipe.c, and the theorems about it at concrete pipes, with an index that goes
-- around at the end of the array.
use apue_li_huiqin.Base.{
  ℕ, suc, ◌<◌, ◌≡◌, ◌⊎◌, refl, true, false, none, some, [], ◌∷◌, ◌==◌, if◌then◌else◌, length, All,
}
use apue_li_huiqin.Pipe.{
  Mypipe, byte_at, at_byte, mypite_readbyte_unlock, read_bytes, must_wait, wait_data, read_ready,
  mypite_read, wait_both, counted, mypite_register, mypite_unregister,
}
use apue_li_huiqin.Pipe.Queue.{Took, mypite_read-queue}

abbrev around : ℕ → ℕ
around i = if i == 3 then 0 else suc i

-- An array of four bytes, of which two are in use, at its end and at its begin.
abbrev two_bytes : Mypipe
two_bytes = record {
  head = 3;
  tail = 1;
  bytes = 98 ∷ 0 ∷ 0 ∷ 97 ∷ [];
  datasize = 2;
  count_rd = 1;
  count_wr = 1;
}

abbrev no_bytes : Mypipe
no_bytes = record two_bytes { datasize = 0 }

read_runs :
    mypite_read around (two_bytes ∷ []) 5 no_bytes
    ≡ some (record two_bytes { head = 1; datasize = 0 }, 97 ∷ 98 ∷ [])
unfolding mypite_read wait_data read_ready read_bytes mypite_readbyte_unlock at_byte byte_at
read_runs = refl

abbrev five : ℕ
five = 5

mypite_read-queue_example :
    (All (λ p. must_wait p ≡ true) (no_bytes ∷ two_bytes ∷ [])
      × (mypite_read around (two_bytes ∷ []) five no_bytes ≡ none))
    ⊎ ((p : Mypipe) × (mypite_read around (two_bytes ∷ []) five no_bytes
          ≡ some (read_ready around five p))
        × Took around five p (read_ready around five p)
        × (0 < length (read_ready around five p).1
            ⊎ (five ≡ 0)
            ⊎ ((p.datasize ≡ 0) × (p.count_wr ≡ 0))))
mypite_read-queue_example = mypite_read-queue around (two_bytes ∷ []) five no_bytes

-- A pipe without ends.
abbrev unused : Mypipe
unused = record no_bytes { count_rd = 0; count_wr = 0 }

-- The writer has come and gone before the reader that waits for it wakes: the reader goes on waiting.
missed_runs :
    mypite_register true false
      (mypite_unregister false true (counted false true (counted true false unused)) ∷ [])
      unused
    ≡ none
unfolding mypite_register mypite_unregister counted wait_both
missed_runs = refl
