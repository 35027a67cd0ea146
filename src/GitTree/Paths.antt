-- ===== src/GitTree/Paths.antt =====
-- src/git_tree.rs: the pieces of a path, and `insert`'s call on the joined rest of them.
use hashdex.Base.{
  ℕ, ◌≡◌, ◌≢◌, refl, sym, ap, ◌∙◌, inl, inr, true, false, List, [], ◌∷◌, ◌++◌, All, ◌==◌,
  Bool-cases, ◌||◌,
}
use mathlib.Core.Path.{subst}
use mathlib.Core.List.{append_assoc, append-nil}
use hashdex.Base.Bytes.{Bytes}
use hashdex.Base.Text.{contains, contains-append}
use hashdex.GitTree.{
  Node, Tree, lookup, subtree, within, insert_parts, insert, flush, parts_from, parts, joined,
}
use hashdex.GitTree.Order.{Plain}

contains-snoc :
    (c : ℕ) (piece : Bytes)
    → contains b'/' piece ≡ false
    → c == b'/' ≡ false
    → contains b'/' (piece ++ c ∷ []) ≡ false
contains-snoc c piece p e = contains-append b'/' piece (c ∷ []) p (rw e refl)

-- A piece: some bytes without a slash.
abbrev Piece : Bytes → Type 0
Piece p = (p ≢ []) × Plain p

flush-Piece : (p : Bytes) (ps : List Bytes) → p ≢ [] → flush p ps ≡ p ∷ ps
flush-Piece [] ps h = absurd (h refl)
flush-Piece (c ∷ cs) ps h = refl

parts_from-append :
    (piece p rest : Bytes) → Plain p → parts_from piece (p ++ rest) ≡ parts_from (piece ++ p) rest
unfolding parts_from
parts_from-append piece [] rest h = ap (λ q. parts_from q rest) (sym (append-nil piece))
parts_from-append piece (c ∷ cs) rest h = elim (Bool-cases (c == b'/')) [
  | inl t ↦ let bad : true ≡ false = ap (λ b. b || contains b'/' cs) (sym t) ∙ h in cc
  | inr t ↦
      let h' : Plain cs = ap (λ b. b || contains b'/' cs) (sym t) ∙ h in
      rw t (
        parts_from-append (piece ++ c ∷ []) cs rest h'
        ∙ ap (λ q. parts_from q rest) (append_assoc piece (c ∷ []) cs))
]

parts_from_end : (p : Bytes) → parts_from p [] ≡ flush p []
unfolding parts_from
parts_from_end p = refl

parts_from_slash : (p rest : Bytes) → parts_from p (b'/' ∷ rest) ≡ flush p (parts rest)
unfolding parts_from
parts_from_slash p rest = refl

-- The pieces of joined pieces are the pieces.
parts-joined : (ps : List Bytes) → All Piece ps → parts (joined ps) ≡ ps
parts-joined [] a = parts_from_end []
parts-joined (p ∷ []) ((ne, h), a) =
    ap parts (sym (append-nil p))
    ∙ parts_from-append [] p [] h
    ∙ parts_from_end p
    ∙ flush-Piece p [] ne
parts-joined (p ∷ q ∷ ps) ((ne, h), a) =
    parts_from-append [] p (b'/' ∷ joined (q ∷ ps)) h
    ∙ parts_from_slash p (joined (q ∷ ps))
    ∙ ap (flush p) (parts-joined (q ∷ ps) a)
    ∙ flush-Piece p (q ∷ ps) ne

cons_ne : (c : ℕ) (cs : Bytes) → (c ∷ cs) ≢ []
cons_ne c cs e = cc

flush-All : (p : Bytes) (ps : List Bytes) → Plain p → All Piece ps → All Piece (flush p ps)
flush-All [] ps h a = a
flush-All (c ∷ cs) ps h a = ((cons_ne c cs, h), a)

parts_from-Piece : (piece path : Bytes) → Plain piece → All Piece (parts_from piece path)
unfolding parts_from
parts_from-Piece piece [] p = flush-All piece [] p tt
parts_from-Piece piece (c ∷ cs) p = elim (Bool-cases (c == b'/')) [
  | inl t ↦ rw t (flush-All piece (parts_from [] cs) p (parts_from-Piece [] cs refl))
  | inr t ↦ rw t (parts_from-Piece (piece ++ c ∷ []) cs (contains-snoc c piece p t))
]

Piece-Plain : (ps : List Bytes) → All Piece ps → All Plain ps
Piece-Plain [] a = tt
Piece-Plain (p ∷ ps) ((ne, h), a) = (h, Piece-Plain ps a)

-- The pieces of a path have no slash.
pub parts-Plain : (path : Bytes) → All Plain (parts path)
parts-Plain path = Piece-Plain (parts path) (parts_from-Piece [] path refl)

insert_parts_step :
    (p q : Bytes) (ps : List Bytes) (x : Node) (t : Tree)
    → insert_parts (p ∷ q ∷ ps) x t ≡ within p t (subtree (lookup p t)) (insert_parts (q ∷ ps) x)
unfolding insert_parts
insert_parts_step p q ps x t = refl

-- Where a path has more than one piece, an insertion is the one at the joined other pieces, in the
-- directory of the first.
insert-joined :
    (path p q : Bytes) (ps : List Bytes) (x : Node) (t : Tree)
    → parts path ≡ p ∷ q ∷ ps
    → insert path x t ≡ within p t (subtree (lookup p t)) (insert (joined (q ∷ ps)) x)
unfolding insert
insert-joined path p q ps x t h =
    let (first, rest) = subst (All Piece) h (parts_from-Piece [] path refl) in
    ap (λ l. insert_parts l x t) h
    ∙ insert_parts_step p q ps x t
    ∙ ap (λ l. within p t (subtree (lookup p t)) (insert_parts l x))
        (sym (parts-joined (q ∷ ps) rest))
