-- ===== src/Du/Sum.antt =====
-- `mydu` of 28.目录和用户操作/mydu.c against the blocks of all nodes of a tree.
use apue_li_huiqin.Base.{
  ℕ, ◌+◌, ◌≡◌, refl, ◌∙◌, ap, Bool, true, false, not, ◌&&◌, some, List, [], ◌∷◌, ◌++◌, arith,
  if◌then◌else◌, Bool-cases, inl, inr,
}
use apue_li_huiqin.Du.{
  str_eq, path_noloop, join, Node, file, dir, Entries, end, entry, is_hidden, found, Statics,
  Result, is_plain, counted, and_then, at_dots, mydu, du_entries,
}
use apue_li_huiqin.Du.Loop.{no_slash, path_noloop-join}

-- The blocks of a tree.
mutual
  pub blocks : Node → ℕ
  blocks (file n) = n
  blocks (dir n es) = n + blocks_entries es

  blocks_entries : Entries → ℕ
  blocks_entries end = 0
  blocks_entries (entry name node es) = blocks node + blocks_entries es

-- A name: without '/', and neither "." nor "..".
abbrev pub is_name : List ℕ → Bool
is_name name = no_slash name && (not (str_eq name (46 ∷ [])) && not (str_eq name (46 ∷ 46 ∷ [])))

-- Whether `glob` takes the path of a directory literally; a file's path is not given to it.
unfoldable pub is_literal : List ℕ → Node → Bool
unfolding is_plain
is_literal path (file n) = true
is_literal path (dir n es) = is_plain path

unfoldable mutual
  unfolding str_eq is_literal

  pub well_named : Node → Bool
  well_named (file n) = true
  well_named (dir n es) = well_named_entries es

  well_named_entries : Entries → Bool
  well_named_entries end = true
  well_named_entries (entry name node es) =
      is_name name && (is_literal name node && (well_named node && well_named_entries es))

-- The blocks of the entries that one pattern finds.
blocks_found : Bool → Entries → ℕ
blocks_found hidden end = 0
blocks_found hidden (entry name node es) =
    (if found hidden (is_hidden name) then blocks node else 0) + blocks_found hidden es

-- Each entry is found by one of the two patterns.
found_once : (es : Entries) → blocks_found false es + blocks_found true es ≡ blocks_entries es
unfolding blocks_found blocks_entries
found_once end = refl
found_once (entry name node es) = elim (Bool-cases (is_hidden name)) [
  | inl e ↦ rw e (omega (arith, found_once es))
  | inr e ↦ rw e (omega (arith, found_once es))
]

-- A result, with its total.
Totals : ℕ → Result → Type 0
Totals n r = (t : Statics) × (r ≡ some (n, t))

path_noloop-is_name :
    (path name : List ℕ) → is_name name ≡ true → path_noloop (join path name) ≡ some true
path_noloop-is_name path name h =
    let slash : no_slash name ≡ true = ground (arith, h) in
    let dots : (not (str_eq name (46 ∷ [])) && not (str_eq name (46 ∷ 46 ∷ []))) ≡ true =
      ground (arith, h) in
    path_noloop-join path name slash ∙ ap some dots

at_dots-skips : (path : List ℕ) (total : ℕ) (s : Statics) → at_dots path total s ≡ some (total, s)
unfolding at_dots counted and_then str_eq
at_dots-skips path total s =
    rw (at_dots, path_noloop-join path (46 ∷ []) refl, path_noloop-join path (46 ∷ 46 ∷ []) refl)
      refl

is_plain-join :
    (path name : List ℕ)
    → is_plain path ≡ true
    → is_plain name ≡ true
    → is_plain (join path name) ≡ true
unfolding is_plain
is_plain-join [] name p q = q
is_plain-join (c ∷ cs) name p q = ground (arith, p, is_plain-join cs name (ground (arith, p)) q)

is_literal-join :
    (path name : List ℕ) (node : Node)
    → is_plain path ≡ true
    → is_literal name node ≡ true
    → is_literal (join path name) node ≡ true
unfolding is_literal
is_literal-join path name (file n) p q = refl
is_literal-join path name (dir n es) p q = is_plain-join path name p q

module _ (other : List ℕ → ℕ → Statics → Result) where
  mutual
    unfolding mydu du_entries and_then counted Totals blocks blocks_found well_named
        well_named_entries is_literal

    mydu-Totals :
        (path : List ℕ) (node : Node) (s : Statics)
        → is_literal path node ≡ true
        → well_named node ≡ true
        → Totals (blocks node) (mydu other path node s)
    mydu-Totals path (file n) s l h = (record s { statres = n }, refl)
    mydu-Totals path (dir n es) s l h =
        let s1 : Statics = record { statres = n; nextpath = path ++ 47 ∷ 46 ∷ 42 ∷ [] } in
        let (t1, e1) = du_entries-Totals false path es n s1 l h in
        let (t2, e2) = du_entries-Totals true path es (n + blocks_found false es) t1 l h in
        let sum : n + blocks_found false es + blocks_found true es ≡ n + blocks_entries es =
          omega (arith, found_once es) in
        rw l (
          t2,
          ap
                (λ r.
                  and_then r
                    (λ total s'. and_then (at_dots path total s') (du_entries other true path es)))
                e1
              ∙ ap (λ r. and_then r (du_entries other true path es))
                  (at_dots-skips path (n + blocks_found false es) t1)
              ∙ e2
              ∙ ap (λ (k : ℕ). some (k, t2)) sum,
        )

    du_entries-Totals :
        (hidden : Bool) (path : List ℕ) (es : Entries) (total : ℕ) (s : Statics)
        → is_plain path ≡ true
        → well_named_entries es ≡ true
        → Totals (total + blocks_found hidden es) (du_entries other hidden path es total s)
    du_entries-Totals hidden path end total s l h = (s, ap (λ (k : ℕ). some (k, s)) (omega arith))
    du_entries-Totals hidden path (entry name node es) total s l h =
        let named : is_name name ≡ true = ground (arith, h) in
        let literal : is_literal name node ≡ true = ground (arith, h) in
        let below : well_named node ≡ true = ground (arith, h) in
        let others : well_named_entries es ≡ true = ground (arith, h) in
        let (t1, e1) =
          mydu-Totals (join path name) node s (is_literal-join path name node l literal) below in
        elim (Bool-cases (found hidden (is_hidden name))) [
          | inl e ↦
              let (t2, e2) = du_entries-Totals hidden path es (total + blocks node) t1 l others in
              let sum : total + blocks node + blocks_found hidden es
                  ≡ total + (blocks node + blocks_found hidden es) =
                omega arith in
              rw e (
                t2,
                rw (path_noloop-is_name path name named, e1)
                    (e2 ∙ ap (λ (k : ℕ). some (k, t2)) sum),
              )
          | inr e ↦
              let (t2, e2) = du_entries-Totals hidden path es total s l others in
              let sum : total + blocks_found hidden es ≡ total + (0 + blocks_found hidden es) =
                omega arith in
              rw e (t2, e2 ∙ ap (λ (k : ℕ). some (k, t2)) sum)
        ]

-- On a tree whose entries have names, and where neither the path, if it is that of a directory, nor the
-- name of a directory below has a metacharacter of `glob`: whatever the static variables, `mydu` comes to
-- an end, never follows "." or "..", and gives the blocks of all nodes, each once.
pub mydu-blocks :
    (other : List ℕ → ℕ → Statics → Result) (path : List ℕ) (node : Node) (s : Statics)
    → is_literal path node ≡ true
    → well_named node ≡ true
    → (t : Statics) × (mydu other path node s ≡ some (blocks node, t))
unfolding Totals
mydu-blocks other path node s l h = mydu-Totals other path node s l h
