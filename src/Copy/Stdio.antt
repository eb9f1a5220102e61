-- ===== src/Copy/Stdio.antt =====
-- 25.标准IO/mycp_1.c: a copy by `fread` and `fwrite`. An answer of `fread` is the bytes that it has read, none
-- at the end of the file or at an error; an answer of `fwrite` is how many bytes it has taken. Both are
-- lists, at whose ends a run is looked at no further.
pub mod Full
pub mod First
use apue_li_huiqin.Base.{
  ℕ, zero, suc, ◌+◌, Bool, true, false, List, [], ◌∷◌, ◌++◌, if◌then◌else◌, take, drop,
}

-- What the loop of `full_write` has written, the answers that it has not needed, and what it has not
-- written yet.
pub record Writing : Type 0 where
  pub out : List ℕ
  pub answers : List ℕ
  pub left : List ℕ

unfoldable pub full_write : List ℕ → List ℕ → Writing
full_write answers [] = record { out = []; answers = answers; left = [] }
full_write [] (c ∷ cs) = record { out = []; answers = []; left = c ∷ cs }
full_write (single_written ∷ answers) (c ∷ cs) =
    let rest = full_write answers (drop single_written (c ∷ cs)) in
    record rest { out = take single_written (c ∷ cs) ++ rest.out }

-- What stands in the new file, and whether the program is behind its `exit(0)`.
pub record Copied : Type 0 where
  pub out : List ℕ
  pub exited : Bool

-- The loop of `main` goes on where `full_write` has returned.
unfoldable pub goes_on : Writing → (List ℕ → Copied) → Copied
goes_on w next = elim w.left [
  | [] ↦ (let rest = next w.answers in record rest { out = w.out ++ rest.out })
  | c ∷ cs ↦ record { out = w.out; exited = false }
]

unfoldable pub copy : List (List ℕ) → List ℕ → Copied
unfolding full_write goes_on
copy [] answers = record { out = []; exited = false }
copy ([] ∷ reads) answers = record { out = []; exited = true }
copy ((c ∷ cs) ∷ reads) answers = goes_on (full_write answers (c ∷ cs)) (copy reads)

pub data Outcome : Type 0 where
  usage : Outcome
  no_source : Outcome
  no_destination : Outcome  -- the source is closed again
  copied : Copied → Outcome

-- `main`: whether there are two arguments, and whether each file can be opened.
unfoldable pub main : Bool → Bool → Bool → List (List ℕ) → List ℕ → Outcome
unfolding copy
main args source destination reads answers =
    if args
    then if source
      then if destination then copied (copy reads answers) else no_destination
      else no_source
    else usage
