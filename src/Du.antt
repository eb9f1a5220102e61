-- ===== src/Du.antt =====
-- 28.目录和用户操作/mydu.c: the blocks of a file, or of a directory with everything below it. A path is a
-- list of bytes; '/' is 47 and '.' is 46. The file system is a tree. `glob` with the pattern of a path and
-- "/*" finds the entries whose names do not begin with '.', and with "/.*" the others, with "." and ".."
-- among them. The static buffers `statres` and `nextpath`, which the calls of `mydu` share, are a state
-- that is passed on. A path that holds a metacharacter is a pattern for `glob`: what the call comes to at
-- a directory with such a path is the parameter `other`. `lstat` answers for every path that `glob` has found, and paths are taken to fit
-- PAHTSIZE; a size is taken to fit an `int64_t`.
pub mod Loop
pub mod Sum
mod Tests
use apue_li_huiqin.Base.{
  ℕ, zero, suc, ◌+◌, ◌/◌, Bool, true, false, not, ◌||◌, ◌&&◌, Option, none, some, List, [], ◌∷◌,
  ◌++◌, ◌==◌, if◌then◌else◌, ltb,
}

-- The byte test of `strcmp(…) == 0`.
unfoldable pub str_eq : List ℕ → List ℕ → Bool
str_eq [] [] = true
str_eq [] (c ∷ cs) = false
str_eq (b ∷ bs) [] = false
str_eq (b ∷ bs) (c ∷ cs) = b == c && str_eq bs cs

-- What follows the last '/': `strrchr(path, '/') + 1`, with `best` where there is none.
unfoldable pub strrchr : List ℕ → Option (List ℕ) → Option (List ℕ)
strrchr [] best = best
strrchr (c ∷ cs) best = strrchr cs (if c == 47 then some cs else best)

-- `path_noloop`; `none` is `exit(1)`.
unfoldable pub path_noloop : List ℕ → Option Bool
unfolding strrchr str_eq
path_noloop path = elim (strrchr path none) [
  | none ↦ none
  | some name ↦ some (not (str_eq name (46 ∷ []) || str_eq name (46 ∷ 46 ∷ [])))
]

-- A file or a directory, with its `st_blocks`; a directory with its entries.
mutual
  pub data Node : Type 0 where
    file : ℕ → Node
    dir : ℕ → Entries → Node

  pub data Entries : Type 0 where
    end : Entries
    entry : List ℕ → Node → Entries → Entries

-- Whether the pattern "*", or ".*", finds a name.
unfoldable pub is_hidden : List ℕ → Bool
is_hidden [] = false
is_hidden (c ∷ cs) = c == 46

-- Whether the pattern finds it: "/.*" finds the hidden, "/*" the others.
abbrev pub found : Bool → Bool → Bool
found true b = b
found false b = not b

-- The static variables: `statres`, by its `st_blocks`, and `nextpath`.
pub record Statics : Type 0 where
  pub statres : ℕ
  pub nextpath : List ℕ

-- The bytes that `glob` does not take literally in a path: '*', '?', '[' and '\\'.
abbrev pub is_meta : ℕ → Bool
is_meta c = (c == 42) || ((c == 63) || ((c == 91) || (c == 92)))

-- Whether `glob` takes a path literally.
unfoldable pub is_plain : List ℕ → Bool
is_plain [] = true
is_plain (c ∷ cs) = not (is_meta c) && is_plain cs

-- The path of an entry.
abbrev pub join : List ℕ → List ℕ → List ℕ
join path name = path ++ 47 ∷ name

-- What a call gives: the size and the static variables; `none` is an `exit(1)`, or no end.
abbrev pub Result : Type 0
Result = Option (ℕ × Statics)

-- What the loop adds for a path that `glob` has found: nothing where `path_noloop` is 0.
unfoldable pub counted : Option Bool → Result → ℕ → Statics → Result
counted (some true) (some (size, t)) total s = some (total + size, t)
counted (some true) none total s = none
counted (some false) r total s = some (total, s)
counted none r total s = none

unfoldable pub and_then : Result → (ℕ → Statics → Result) → Result
and_then none k = none
and_then (some (total, s)) k = k total s

-- The loop at "." and at "..": a call of `mydu` for one of them would not come to an end.
unfoldable pub at_dots : List ℕ → ℕ → Statics → Result
unfolding counted path_noloop and_then
at_dots path total s =
    and_then (counted (path_noloop (join path (46 ∷ []))) none total s)
      (counted (path_noloop (join path (46 ∷ 46 ∷ []))) none)

-- `mydu`, and the loop over the entries of one `glob`, the hidden or the others. The total so far and the
-- static variables go through. `other` gives what comes of a directory whose path is a pattern.
unfoldable mutual
  unfolding is_hidden counted path_noloop and_then at_dots is_plain

  pub mydu : (List ℕ → ℕ → Statics → Result) → List ℕ → Node → Statics → Result
  mydu other path (file blocks) s = some (blocks, record s { statres = blocks })
  mydu other path (dir blocks es) s =
      let s1 = record s { statres = blocks; nextpath = path ++ 47 ∷ 46 ∷ 42 ∷ [] } in
      let all =
        and_then (du_entries other false path es blocks s1)
          (λ total s'. and_then (at_dots path total s') (du_entries other true path es)) in
      if is_plain path then all else other path blocks s1

  pub du_entries : (List ℕ → ℕ → Statics → Result) → Bool → List ℕ → Entries → ℕ → Statics → Result
  du_entries other hidden path end total s = some (total, s)
  du_entries other hidden path (entry name node es) total s =
      and_then
        (if found hidden (is_hidden name)
          then counted (path_noloop (join path name)) (mydu other (join path name) node s) total s
          else some (total, s))
        (du_entries other hidden path es)

-- `main`: half of the blocks.
unfoldable pub main_du : (List ℕ → ℕ → Statics → Result) → List ℕ → Node → Option ℕ
unfolding mydu
main_du other path node = elim (mydu other path node (record { statres = 0; nextpath = [] })) [
  | none ↦ none
  | some (total, s) ↦ some (total / 2)
]
