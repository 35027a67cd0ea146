-- ===== src/GitTree/Lookup.antt =====
-- src/git_tree.rs: what `insert` puts into a tree, and what it leaves as it was.
use hashdex.Base.{
  ◌≡◌, ◌≢◌, refl, sym, ap, ◌∙◌, ◌⊎◌, inl, inr, false, Option, none, some, List, [], ◌∷◌, Bool-cases,
}
use hashdex.Base.Bytes.{Bytes}
use hashdex.Base.Outcome.{Result, ok, ok-injective, >>=-eq-ok}
use hashdex.Base.Text.{text_eq, text_eq→eq, text_eq_refl}
use hashdex.GitTree.{
  Node, file, symlink, dir, Tree, end, entry, Error, lookup, put, subtree, within, insert_parts,
  insert, parts,
}

pub text_eq-ne : (a b : Bytes) → a ≢ b → text_eq a b ≡ false
text_eq-ne a b h = elim (Bool-cases (text_eq a b)) [
  | inl t ↦ absurd (h (text_eq→eq a b t))
  | inr t ↦ t
]

pub lookup-put_self : (n : Bytes) (x : Node) (t : Tree) → lookup n (put n x t) ≡ some x
lookup-put_self n x end = rw (text_eq_refl n) refl
lookup-put_self n x (entry m y t) = elim (Bool-cases (text_eq m n)) [
  | inl e ↦ rw (e, text_eq_refl n) refl
  | inr e ↦ rw e (rw e (lookup-put_self n x t))
]

pub lookup-put_ne : (n m : Bytes) (x : Node) (t : Tree) → n ≢ m → lookup m (put n x t) ≡ lookup m t
lookup-put_ne n m x end h = rw (text_eq-ne n m h) refl
lookup-put_ne n m x (entry k y t) h = elim (Bool-cases (text_eq k n)) [
  | inl e ↦
      let k' : k ≡ n = text_eq→eq k n e in
      rw (e, text_eq-ne n m h) (rw (text_eq-ne k m (λ q. h (sym k' ∙ q))) refl)
  | inr e ↦ rw e (elim (Bool-cases (text_eq k m)) [
    | inl f ↦ rw f refl
    | inr f ↦ rw f (lookup-put_ne n m x t h)
  ])
]

-- What stands at a path.
abbrev step_into : Option Node → (Tree → Option Node) → Option Node
step_into none k = none
step_into (some (file x a b)) k = none
step_into (some (symlink a b)) k = none
step_into (some (dir t)) k = k t

unfoldable pub find_node : List Bytes → Tree → Option Node
find_node [] t = none
find_node (p ∷ []) t = lookup p t
find_node (p ∷ q ∷ ps) t = step_into (lookup p t) (find_node (q ∷ ps))

find_node-end : (ps : List Bytes) → find_node ps end ≡ none
unfolding find_node
find_node-end [] = refl
find_node-end (p ∷ []) = refl
find_node-end (p ∷ q ∷ ps) = refl

-- Paths that part somewhere: neither lies on the way to the other.
abbrev pub Apart : List Bytes → List Bytes → Type 0
Apart [] qs = ⊥
Apart (p ∷ ps) [] = ⊥
Apart (p ∷ ps) (q ∷ qs) = (p ≢ q) ⊎ ((p ≡ q) × Apart ps qs)

-- A step into a directory that succeeds.
pub within-eq_ok :
    (n : Bytes) (t : Tree) (o : Option Tree) (k : Tree → Result Error Tree) (t' : Tree)
    → within n t o k ≡ ok t'
    → (sub sub' : Tree) × (o ≡ some sub) × (k sub ≡ ok sub') × (put n (dir sub') t ≡ t')
within-eq_ok n t none k t' h = cc
within-eq_ok n t (some sub) k t' h =
    let (sub', run, e) = >>=-eq-ok (k sub) (λ s. ok (put n (dir s) t)) t' h in
    (sub, sub', refl, run, ok-injective (put n (dir sub') t) t' e)

-- In the subtree stands what stood in the directory.
step_into-subtree :
    (o : Option Node) (sub : Tree) (ps : List Bytes)
    → subtree o ≡ some sub
    → step_into o (find_node ps) ≡ find_node ps sub
step_into-subtree none sub ps h =
    let e : end ≡ sub = cc in sym (find_node-end ps) ∙ ap (find_node ps) e
step_into-subtree (some (dir t)) sub ps h = let e : t ≡ sub = cc in ap (find_node ps) e
step_into-subtree (some (file x a b)) sub ps h = cc
step_into-subtree (some (symlink a b)) sub ps h = cc

-- What an insertion puts stands at its path.
pub find_node-insert_parts :
    (ps : List Bytes) (x : Node) (t t' : Tree)
    → insert_parts ps x t ≡ ok t'
    → find_node ps t' ≡ some x
unfolding insert_parts find_node
find_node-insert_parts [] x t t' h = cc
find_node-insert_parts (p ∷ []) x t t' h =
    ap (lookup p) (sym (ok-injective (put p x t) t' h)) ∙ lookup-put_self p x t
find_node-insert_parts (p ∷ q ∷ ps) x t t' h =
    let (sub, sub', old, run, e) =
      within-eq_ok p t (subtree (lookup p t)) (insert_parts (q ∷ ps) x) t' h in
    ap (λ u. step_into (lookup p u) (find_node (q ∷ ps))) (sym e)
    ∙ ap (λ o. step_into o (find_node (q ∷ ps))) (lookup-put_self p (dir sub') t)
    ∙ find_node-insert_parts (q ∷ ps) x sub sub' run

find_node_same :
    (q : Bytes) (qs : List Bytes) (t u : Tree)
    → lookup q t ≡ lookup q u
    → find_node (q ∷ qs) t ≡ find_node (q ∷ qs) u
unfolding find_node
find_node_same q [] t u e = e
find_node_same q (q' ∷ qs) t u e = ap (λ o. step_into o (find_node (q' ∷ qs))) e

find_node_dir :
    (q q' : Bytes) (qs : List Bytes) (t : Tree)
    → find_node (q ∷ q' ∷ qs) t ≡ step_into (lookup q t) (find_node (q' ∷ qs))
unfolding find_node
find_node_dir q q' qs t = refl

-- What stands at a path that parts from the inserted one is left as it was.
pub find_node-insert_parts-Apart :
    (ps qs : List Bytes) (x : Node) (t t' : Tree)
    → Apart ps qs
    → insert_parts ps x t ≡ ok t'
    → find_node qs t' ≡ find_node qs t
unfolding insert_parts
find_node-insert_parts-Apart [] qs x t t' a h = absurd a
find_node-insert_parts-Apart (p ∷ ps) [] x t t' a h = absurd a
find_node-insert_parts-Apart (p ∷ []) (q ∷ qs) x t t' (inl ne) h =
    let e = ok-injective (put p x t) t' h in
    find_node_same q qs t' t (ap (lookup q) (sym e) ∙ lookup-put_ne p q x t ne)
find_node-insert_parts-Apart (p ∷ []) (q ∷ qs) x t t' (inr (e, a)) h = absurd a
find_node-insert_parts-Apart (p ∷ p' ∷ ps) (q ∷ qs) x t t' (inl ne) h =
    let (sub, sub', old, run, e) =
      within-eq_ok p t (subtree (lookup p t)) (insert_parts (p' ∷ ps) x) t' h in
    find_node_same q qs t' t (ap (lookup q) (sym e) ∙ lookup-put_ne p q (dir sub') t ne)
find_node-insert_parts-Apart (p ∷ p' ∷ ps) (q ∷ []) x t t' (inr (e, a)) h = absurd a
find_node-insert_parts-Apart (p ∷ p' ∷ ps) (q ∷ q' ∷ qs) x t t' (inr (same, a)) h =
    let (sub, sub', old, run, e) =
      within-eq_ok p t (subtree (lookup p t)) (insert_parts (p' ∷ ps) x) t' h in
    let inside = find_node-insert_parts-Apart (p' ∷ ps) (q' ∷ qs) x sub sub' a run in
    let there : lookup q t' ≡ some (dir sub') =
      ap (λ u. lookup q u) (sym e)
      ∙ ap (λ k. lookup k (put p (dir sub') t)) (sym same)
      ∙ lookup-put_self p (dir sub') t in
    find_node_dir q q' qs t'
    ∙ ap (λ o. step_into o (find_node (q' ∷ qs))) there
    ∙ inside
    ∙ sym (
        step_into-subtree (lookup q t) sub (q' ∷ qs)
          (ap (λ k. subtree (lookup k t)) (sym same) ∙ old))
    ∙ sym (find_node_dir q q' qs t)

-- An insertion that succeeds puts the node at its path, and leaves what stands at a path that parts
-- from it.
pub find_node-insert :
    (path other : Bytes) (x : Node) (t t' : Tree)
    → insert path x t ≡ ok t'
    → Apart (parts path) (parts other)
    → (find_node (parts path) t' ≡ some x)
      × (find_node (parts other) t' ≡ find_node (parts other) t)
unfolding insert
find_node-insert path other x t t' h a = (
  find_node-insert_parts (parts path) x t t' h,
  find_node-insert_parts-Apart (parts path) (parts other) x t t' a h,
)
