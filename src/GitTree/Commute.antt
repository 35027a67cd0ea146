-- ===== src/GitTree/Commute.antt =====
-- src/git_tree.rs: members may be inserted in either order.
use hashdex.Base.{
  ◌≡◌, ◌≢◌, refl, sym, ap, ◌∙◌, inl, inr, false, Option, none, some, List, [], ◌∷◌, All, Bool-cases,
}
use mathlib.Core.Path.{subst}
use mathlib.Core.Option.{some-injective}
use hashdex.Base.Bytes.{Bytes}
use hashdex.Base.Outcome.{Result, ok, err, ◌>>=◌, ok-injective, >>=-eq-ok}
use hashdex.Base.Text.{text_eq, text_eq→eq, text_eq_refl}
use hashdex.GitTree.{
  Node, dir, Tree, end, entry, Error, inside_non_directory, lookup, put, subtree, within,
  insert_parts, insert, parts, Hashes, hash,
}
use hashdex.GitTree.Lookup.{Apart, text_eq-ne, lookup-put_self, lookup-put_ne, within-eq_ok}
use hashdex.GitTree.Paths.{parts-Plain}
use hashdex.GitTree.Order.{Plain, Shuffled, same, swap, keep, inside, hash-Shuffled}

put-put_ne :
    (n m : Bytes) (x y : Node) (t : Tree)
    → n ≢ m
    → Plain n
    → Plain m
    → Shuffled (put m y (put n x t)) (put n x (put m y t))
put-put_ne n m x y end ne p q =
    let e = text_eq-ne n m ne in
    let f = text_eq-ne m n (λ k. ne (sym k)) in rw (e, f) (swap n m x y end ne p q)
put-put_ne n m x y (entry k z t) ne p q =
    let e = text_eq-ne n m ne in
    let f = text_eq-ne m n (λ k. ne (sym k)) in
    elim (Bool-cases (text_eq k n)) [
      | inl a ↦
          let k_ne : text_eq k m ≡ false =
            subst (λ w. text_eq w m ≡ false) (sym (text_eq→eq k n a)) e in
          rw (a, k_ne, e) (rw (a) (same (entry n x (put m y t))))
      | inr a ↦ elim (Bool-cases (text_eq k m)) [
        | inl b ↦ rw (a, b, f) (same (entry m y (put n x t)))
        | inr b ↦ rw (a, b) (rw a (keep k z _ _ (put-put_ne n m x y t ne p q)))
      ]
    ]

put-put_self : (n : Bytes) (x y : Node) (t : Tree) → put n y (put n x t) ≡ put n y t
put-put_self n x y end = rw (text_eq_refl n) refl
put-put_self n x y (entry k z t) = elim (Bool-cases (text_eq k n)) [
  | inl a ↦ rw (a, text_eq_refl n) refl
  | inr a ↦ rw a (rw a (ap (entry k z) (put-put_self n x y t)))
]

put-Shuffled :
    (n : Bytes) (a b t : Tree) → Shuffled a b → Shuffled (put n (dir a) t) (put n (dir b) t)
put-Shuffled n a b end s = inside n a b end s
put-Shuffled n a b (entry k z t) s = elim (Bool-cases (text_eq k n)) [
  | inl e ↦ rw e (inside n a b t s)
  | inr e ↦ rw e (keep k z _ _ (put-Shuffled n a b t s))
]

-- What an insertion makes of the node at the first piece of its path.
abbrev in_dir : Option Tree → (Tree → Result Error Tree) → Result Error Node
in_dir none k = err inside_non_directory
in_dir (some s) k = k s >>= λ s'. ok (dir s')

new_node : List Bytes → Node → Option Node → Result Error Node
new_node [] x o = ok x
new_node (q ∷ qs) x o = in_dir (subtree o) (insert_parts (q ∷ qs) x)

insert_parts-cons :
    (p : Bytes) (ps : List Bytes) (x : Node) (t t' : Tree)
    → insert_parts (p ∷ ps) x t ≡ ok t'
    → (n : Node) × (new_node ps x (lookup p t) ≡ ok n) × (put p n t ≡ t')
unfolding insert_parts new_node
insert_parts-cons p [] x t t' h = (x, refl, ok-injective (put p x t) t' h)
insert_parts-cons p (q ∷ qs) x t t' h =
    let (sub, sub', old, run, e) =
      within-eq_ok p t (subtree (lookup p t)) (insert_parts (q ∷ qs) x) t' h in
    (dir sub', rw (old, run) refl, e)

new_node_dir :
    (q : Bytes) (qs : List Bytes) (x : Node) (o : Option Node) (sub sub' : Tree)
    → subtree o ≡ some sub
    → insert_parts (q ∷ qs) x sub ≡ ok sub'
    → new_node (q ∷ qs) x o ≡ ok (dir sub')
unfolding new_node
new_node_dir q qs x o sub sub' old run = rw old (rw run refl)

new_node-insert_parts :
    (p : Bytes) (ps : List Bytes) (x n : Node) (t : Tree)
    → new_node ps x (lookup p t) ≡ ok n
    → insert_parts (p ∷ ps) x t ≡ ok (put p n t)
unfolding insert_parts new_node
new_node-insert_parts p [] x n t h = ap (λ (r : Result Error Node). r >>= λ m. ok (put p m t)) h
new_node-insert_parts p (q ∷ qs) x n t h = go (subtree (lookup p t)) h
  where
    go :
        (o : Option Tree)
        → in_dir o (insert_parts (q ∷ qs) x) ≡ ok n
        → within p t o (insert_parts (q ∷ qs) x) ≡ ok (put p n t)
    go none e = cc
    go (some s) e =
        let (s', run, f) = >>=-eq-ok (insert_parts (q ∷ qs) x s) (λ u. ok (dir u)) n e in
        let f' = ok-injective (dir s') n f in rw run (ap (λ m. ok (put p m t)) f')

insert_parts_dir :
    (p q : Bytes) (ps : List Bytes) (x : Node) (t sub sub' : Tree)
    → subtree (lookup p t) ≡ some sub
    → insert_parts (q ∷ ps) x sub ≡ ok sub'
    → insert_parts (p ∷ q ∷ ps) x t ≡ ok (put p (dir sub') t)
insert_parts_dir p q ps x t sub sub' old run =
    new_node-insert_parts p (q ∷ ps) x (dir sub') t
      (new_node_dir q ps x (lookup p t) sub sub' old run)

-- Both insertions the other way round, and the trees differ in the order of entries alone.
abbrev Swapped : List Bytes → List Bytes → Node → Node → Tree → Tree → Type 0
Swapped ps qs x y t t2 =
    (u1 u2 : Tree) × (insert_parts qs y t ≡ ok u1) × (insert_parts ps x u1 ≡ ok u2) × Shuffled t2 u2

insert_parts_comm :
    (ps qs : List Bytes) (x y : Node) (t t1 t2 : Tree)
    → All Plain ps
    → All Plain qs
    → Apart ps qs
    → insert_parts ps x t ≡ ok t1
    → insert_parts qs y t1 ≡ ok t2
    → Swapped ps qs x y t t2
unfolding insert_parts
insert_parts_comm [] qs x y t t1 t2 ap_ps ap_qs a h k = absurd a
insert_parts_comm (p ∷ ps) [] x y t t1 t2 ap_ps ap_qs a h k = absurd a
insert_parts_comm (p ∷ ps) (q ∷ qs) x y t t1 t2 (plain_p, ap_ps) (plain_q, ap_qs) (inl ne) h k =
    let (a, made_a, e1) = insert_parts-cons p ps x t t1 h in
    let (b, made_b, e2) = insert_parts-cons q qs y t1 t2 k in
    let same_q : lookup q t1 ≡ lookup q t = ap (lookup q) (sym e1) ∙ lookup-put_ne p q a t ne in
    let made_b' : new_node qs y (lookup q t) ≡ ok b = ap (new_node qs y) (sym same_q) ∙ made_b in
    let same_p : lookup p (put q b t) ≡ lookup p t = lookup-put_ne q p b t (λ e. ne (sym e)) in
    let made_a' : new_node ps x (lookup p (put q b t)) ≡ ok a =
      ap (new_node ps x) same_p ∙ made_a in
    (
      put q b t,
      put p a (put q b t),
      new_node-insert_parts q qs y b t made_b',
      new_node-insert_parts p ps x a (put q b t) made_a',
      subst (λ u. Shuffled u (put p a (put q b t))) (ap (put q b) e1 ∙ e2)
          (put-put_ne p q a b t ne plain_p plain_q),
    )
insert_parts_comm (p ∷ []) (q ∷ qs) x y t t1 t2 ap_ps ap_qs (inr (e, a)) h k = absurd a
insert_parts_comm (p ∷ p' ∷ ps) (q ∷ []) x y t t1 t2 ap_ps ap_qs (inr (e, a)) h k = absurd a
insert_parts_comm (p ∷ p' ∷ ps) (q ∷ q' ∷ qs) x y t t1 t2 (plain_p, ap_ps) (plain_q, ap_qs)
      (inr (e, a)) h k =
    let k' = subst (λ z. insert_parts (z ∷ q' ∷ qs) y t1 ≡ ok t2) (sym e) k in
    let (sub, sub1, old, run, e1) =
      within-eq_ok p t (subtree (lookup p t)) (insert_parts (p' ∷ ps) x) t1 h in
    let (sub1', sub2, old', run', e2) =
      within-eq_ok p t1 (subtree (lookup p t1)) (insert_parts (q' ∷ qs) y) t2 k' in
    let there : lookup p t1 ≡ some (dir sub1) =
      ap (lookup p) (sym e1) ∙ lookup-put_self p (dir sub1) t in
    let at : sub1' ≡ sub1 = some-injective sub1' sub1 (sym old' ∙ ap subtree there) in
    let (v1, v2, made1, made2, s) =
      insert_parts_comm (p' ∷ ps) (q' ∷ qs) x y sub sub1 sub2 ap_ps ap_qs a run
        (ap (insert_parts (q' ∷ qs) y) (sym at) ∙ run') in
    let u1 = put p (dir v1) t in
    let first = insert_parts_dir p q' qs y t sub v1 old made1 in
    let second : insert_parts (p ∷ p' ∷ ps) x u1 ≡ ok (put p (dir v2) t) =
      insert_parts_dir p p' ps x u1 v1 v2 (ap subtree (lookup-put_self p (dir v1) t)) made2
      ∙ ap (λ u. ok u) (put-put_self p (dir v1) (dir v2) t) in
    let made : put p (dir sub2) t ≡ t2 =
      sym (put-put_self p (dir sub1) (dir sub2) t) ∙ ap (put p (dir sub2)) e1 ∙ e2 in
    subst (λ z. Swapped (p ∷ p' ∷ ps) (z ∷ q' ∷ qs) x y t t2) e
      (
        u1,
        put p (dir v2) t,
        first,
        second,
        subst (λ z. Shuffled z (put p (dir v2) t)) made (put-Shuffled p sub2 v2 t s),
      )

-- Two insertions that succeed, at paths that part from each other, succeed in the other order too,
-- and the trees have one hash.
pub hash-insert_comm :
    (h : Hashes) (path other : Bytes) (x y : Node) (t t1 t2 : Tree)
    → Apart (parts path) (parts other)
    → insert path x t ≡ ok t1
    → insert other y t1 ≡ ok t2
    → (u1 u2 : Tree) × (insert other y t ≡ ok u1)
      × (insert path x u1 ≡ ok u2)
      × (hash h t2 ≡ hash h u2)
unfolding insert
hash-insert_comm h path other x y t t1 t2 a first second =
    let (u1, u2, made1, made2, s) =
      insert_parts_comm (parts path) (parts other) x y t t1 t2 (parts-Plain path)
        (parts-Plain other) a first second in
    (u1, u2, made1, made2, hash-Shuffled h t2 u2 s)
