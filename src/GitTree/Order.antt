-- ===== src/GitTree/Order.antt =====
-- src/git_tree.rs: the hash of a tree does not depend on the order in which its entries came.
use hashdex.Base.{
  ◌≡◌, ◌≢◌, refl, sym, ap, ◌∙◌, inl, inr, true, false, Bool, [], ◌∷◌, ◌++◌, if◌then◌else◌,
  Bool-cases, ◌==◌,
}
use mathlib.Core.Path.{subst}
use mathlib.Core.List.{append_cancel_right}
use hashdex.Base.Bytes.{Bytes}
use hashdex.Base.Order.{by_key, insert_by_comm}
use hashdex.Base.Sorting.{insert_by, sort_by}
use hashdex.Base.Text.{contains}
use hashdex.GitTree.{
  Node, file, symlink, dir, Tree, entry, Hashes, Row, sort_key, dir_row, row, rows, hash, hash_rows,
}

-- A name without a slash.
abbrev pub Plain : Bytes → Type 0
Plain n = contains b'/' n ≡ false

-- Trees that differ in the order of entries, at any depth.
pub data Shuffled : Tree → Tree → Type 0 where
  same : (t : Tree) → Shuffled t t
  swap :
      (n m : Bytes) (x y : Node) (t : Tree)
      → n ≢ m
      → Plain n
      → Plain m
      → Shuffled (entry n x (entry m y t)) (entry m y (entry n x t))
  keep : (n : Bytes) (x : Node) (t u : Tree) → Shuffled t u → Shuffled (entry n x t) (entry n x u)
  inside :
      (n : Bytes) (a b t : Tree) → Shuffled a b → Shuffled (entry n (dir a) t) (entry n (dir b) t)
  steps : (t u v : Tree) → Shuffled t u → Shuffled u v → Shuffled t v

contains-slash : (n : Bytes) → contains b'/' (n ++ b'/' ∷ []) ≡ true
contains-slash [] = refl
contains-slash (c ∷ cs) = elim (Bool-cases (c == b'/')) [
  | inl t ↦ rw t refl
  | inr t ↦ rw t (contains-slash cs)
]

sort_key-inj : (r s : Row) → Plain r.name → Plain s.name → sort_key r ≡ sort_key s → r.name ≡ s.name
sort_key-inj r s p q e = go r.is_dir s.is_dir e
  where
    go :
        (a b : Bool)
        → (if a then r.name ++ b'/' ∷ [] else r.name) ≡ (if b then s.name ++ b'/' ∷ [] else s.name)
        → r.name ≡ s.name
    go true true e' = append_cancel_right r.name s.name (b'/' ∷ []) e'
    go true false e' = cc (ap (contains b'/') e', contains-slash r.name, q)
    go false true e' = cc (ap (contains b'/') e', contains-slash s.name, p)
    go false false e' = e'

row-name : (h : Hashes) (n : Bytes) (x : Node) → (row h n x).name ≡ n
unfolding row
row-name h n (file x a b) = refl
row-name h n (symlink a b) = refl
row-name h n (dir t) = refl

sort-cons :
    (h : Hashes) (n : Bytes) (x : Node) (t : Tree)
    → sort_by (by_key sort_key) (rows h (entry n x t))
      ≡ insert_by (by_key sort_key) (row h n x) (sort_by (by_key sort_key) (rows h t))
unfolding row sort_by
sort-cons h n x t = refl

row_dir :
    (h : Hashes) (n : Bytes) (t : Tree)
    → row h n (dir t) ≡ dir_row n (hash_rows h (sort_by (by_key sort_key) (rows h t)))
unfolding row
row_dir h n t = refl

-- The sorted entries of shuffled trees are the same.
sort-Shuffled :
    (h : Hashes) (t u : Tree)
    → Shuffled t u
    → sort_by (by_key sort_key) (rows h t) ≡ sort_by (by_key sort_key) (rows h u)
sort-Shuffled h t u (same t') = refl
sort-Shuffled h t u (steps t' v u' p q) = sort-Shuffled h t v p ∙ sort-Shuffled h v u q
sort-Shuffled h t u (keep n x a b p) =
    sort-cons h n x a
    ∙ ap (insert_by (by_key sort_key) (row h n x)) (sort-Shuffled h a b p)
    ∙ sym (sort-cons h n x b)
sort-Shuffled h t u (inside n a b r p) =
    let e : row h n (dir a) ≡ row h n (dir b) =
      row_dir h n a
      ∙ ap (λ l. dir_row n (hash_rows h l)) (sort-Shuffled h a b p)
      ∙ sym (row_dir h n b) in
    sort-cons h n (dir a) r
    ∙ ap (λ y. insert_by (by_key sort_key) y (sort_by (by_key sort_key) (rows h r))) e
    ∙ sym (sort-cons h n (dir b) r)
sort-Shuffled h t u (swap n m x y r ne p q) =
    let name_n = row-name h n x in
    let name_m = row-name h m y in
    let apart : sort_key (row h n x) ≢ sort_key (row h m y) = λ e. ne (
      sym name_n
      ∙ sort_key-inj (row h n x) (row h m y) (subst Plain (sym name_n) p)
          (subst Plain (sym name_m) q) e
      ∙ name_m) in
    sort-cons h n x (entry m y r)
    ∙ ap (insert_by (by_key sort_key) (row h n x)) (sort-cons h m y r)
    ∙ insert_by_comm sort_key (row h n x) (row h m y) (sort_by (by_key sort_key) (rows h r)) apart
    ∙ sym (ap (insert_by (by_key sort_key) (row h m y)) (sort-cons h n x r))
    ∙ sym (sort-cons h m y (entry n x r))

-- Trees that differ in the order of entries alone, at any depth, have one hash.
pub hash-Shuffled : (h : Hashes) (t u : Tree) → Shuffled t u → hash h t ≡ hash h u
unfolding hash
hash-Shuffled h t u p = ap (hash_rows h) (sort-Shuffled h t u p)
