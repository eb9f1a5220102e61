-- ===== src/Du/Tests.antt =====
-- Runs of 28.目录和用户操作/mydu.c on a small tree, and the theorem about it there.
use apue_li_huiqin.Base.{ℕ, ◌≡◌, refl, true, false, none, some, List, [], ◌∷◌}
use apue_li_huiqin.Du.{
  Node, file, dir, end, entry, Statics, Result, str_eq, is_plain, mydu, main_du,
}
use apue_li_huiqin.Du.Sum.{blocks, is_literal, well_named, mydu-blocks}

-- A directory with a file "a", a hidden file ".b", and a directory "c" with a file "..d".
abbrev home : Node
home = dir 8 (
    entry (97 ∷ []) (file 4) (
      entry (46 ∷ 98 ∷ []) (file 2)
        (entry (99 ∷ []) (dir 8 (entry (46 ∷ 46 ∷ 100 ∷ []) (file 6) end)) end)))

-- A file may have a metacharacter in its name, here "*"; a directory may not.
run-well_named :
    (well_named (dir 8 (entry (42 ∷ []) (file 4) end)) ≡ true)
    × (well_named (dir 8 (entry (42 ∷ []) (dir 8 end) end)) ≡ false)
unfolding well_named str_eq is_literal is_plain
run-well_named = (refl, refl)

-- No path of this tree is a pattern, and `other` is not asked.
abbrev exits : List ℕ → ℕ → Statics → Result
exits path blocks s = none

abbrev clear : Statics
clear = record { statres = 0; nextpath = [] }

run-main_du : main_du exits (47 ∷ 104 ∷ []) home ≡ some 14
unfolding main_du
run-main_du = refl

home-literal : is_literal (47 ∷ 104 ∷ []) home ≡ true
unfolding is_literal is_plain
home-literal = refl

home-named : well_named home ≡ true
unfolding well_named str_eq is_literal is_plain
home-named = refl

mydu-blocks_example :
    (t : Statics) × (mydu exits (47 ∷ 104 ∷ []) home clear ≡ some (blocks home, t))
mydu-blocks_example = mydu-blocks exits (47 ∷ 104 ∷ []) home clear home-literal home-named
