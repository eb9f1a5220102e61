-- ===== src/Du/Loop.antt =====
-- `path_noloop` of 28.目录和用户操作/mydu.c tells "." and ".." from the other entries of a directory.
use apue_li_huiqin.Base.{
  ℕ, ◌≡◌, refl, ap, Bool, true, not, ◌&&◌, Option, some, none, List, [], ◌∷◌, arith, ◌==◌,
  if◌then◌else◌,
}
use apue_li_huiqin.Du.{str_eq, strrchr, path_noloop, join}

-- A name has no '/'.
abbrev pub no_slash : List ℕ → Bool
no_slash [] = true
no_slash (c ∷ cs) = not (c == 47) && no_slash cs

strrchr-name :
    (name : List ℕ) (best : Option (List ℕ)) → no_slash name ≡ true → strrchr name best ≡ best
unfolding strrchr
strrchr-name [] best h = refl
strrchr-name (c ∷ cs) best h = ground (arith, strrchr-name cs best)

pub strrchr-join :
    (path name : List ℕ) (best : Option (List ℕ))
    → no_slash name ≡ true
    → strrchr (join path name) best ≡ some name
unfolding strrchr
strrchr-join [] name best h = strrchr-name name (some name) h
strrchr-join (c ∷ cs) name best h =
    strrchr-join cs name (if c == 47 then some (join cs name) else best) h

-- `path_noloop` of an entry of a directory, whatever the path of the directory, is 0 exactly at "." and at
-- "..".
pub path_noloop-join :
    (path name : List ℕ)
    → no_slash name ≡ true
    → path_noloop (join path name)
      ≡ some (not (str_eq name (46 ∷ [])) && not (str_eq name (46 ∷ 46 ∷ [])))
unfolding path_noloop
path_noloop-join path name h =
    rw (path_noloop, strrchr-join path name none h) (ap some (ground arith))
