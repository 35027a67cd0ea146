-- ===== src/GitTree.antt =====
-- src/git_tree.rs: the git hashes of files and of directory trees.
--
-- A `HashMap` of entries is a list of them, at most one of each name, in the order of its iteration.
-- The digests are the parameter `Hashes`: what they make of the whole of the bytes they are fed.
pub mod Lookup
pub mod Order
pub mod Paths
pub mod Commute
mod Tests
use hashdex.Base.{
  ℕ, zero, suc, ◌+◌, ◌/◌, ◌%◌, Bool, true, false, not, Option, none, some, List, [], ◌∷◌, ◌++◌,
  length, ltb, ◌==◌, if◌then◌else◌,
}
use hashdex.Base.Bytes.{Bytes}
use hashdex.Base.Outcome.{Result, ok, err, ◌>>=◌}
use hashdex.Base.Order.{by_key}
use hashdex.Base.Sorting.{insert_by, sort_by, lex_leb}
use hashdex.Base.Text.{Text, codes, text_eq}

mutual
  pub data Node : Type 0 where
    file : Bool → Bytes → Bytes → Node
    symlink : Bytes → Bytes → Node
    dir : Tree → Node

  pub data Tree : Type 0 where
    end : Tree
    entry : Bytes → Node → Tree → Tree

pub data Error : Type 0 where
  empty_path inside_non_directory : Error

pub record Hashes : Type 0 where
  pub sha1 : Bytes → Bytes
  pub sha256 : Bytes → Bytes

-- The decimal digits of a number in front of a text; fuel, one more than the number.
unfoldable pub decimal_onto : ℕ → ℕ → Text → Text
decimal_onto zero n acc = acc
decimal_onto (suc f) n acc =
    let rest = decimal_onto f (n / 10) ((b'0' + n % 10) ∷ acc) in
    if ltb n 10 then (b'0' + n) ∷ acc else rest

abbrev pub decimal : ℕ → Text
decimal n = decimal_onto (suc n) n []

abbrev concat : List Bytes → Bytes
concat [] = []
concat (b ∷ bs) = b ++ concat bs

-- The pieces that the caller feeds are hashed behind the header.
pub blob_hashes : Hashes → ℕ → List Bytes → Bytes × Bytes
unfolding decimal_onto
blob_hashes h prefix_len fed =
    let head = codes "blob " ++ decimal prefix_len ++ 0 ∷ [] in
    (h.sha1 (head ++ concat fed), h.sha256 (head ++ concat fed))

-- `split` at the slashes, without the empty pieces. The first list is the piece so far, reversed.
abbrev flush : Bytes → List Bytes → List Bytes
flush [] ps = ps
flush (c ∷ cs) ps = (c ∷ cs) ∷ ps

unfoldable pub parts_from : Bytes → Bytes → List Bytes
parts_from piece [] = flush piece []
parts_from piece (c ∷ cs) =
    if c == b'/' then flush piece (parts_from [] cs) else parts_from (piece ++ c ∷ []) cs

abbrev pub parts : Bytes → List Bytes
parts path = parts_from [] path

-- The pieces behind the first one, joined again for the call on the subtree.
abbrev pub joined : List Bytes → Bytes
joined [] = []
joined (p ∷ []) = p
joined (p ∷ q ∷ ps) = p ++ b'/' ∷ joined (q ∷ ps)

abbrev pub lookup : Bytes → Tree → Option Node
lookup n end = none
lookup n (entry m x t) = if text_eq m n then some x else lookup n t

-- `HashMap::insert`
abbrev pub put : Bytes → Node → Tree → Tree
put n x end = entry n x end
put n x (entry m y t) = if text_eq m n then entry n x t else entry m y (put n x t)

-- The subtree that `entry(..).or_insert_with(..)` gives, where it is a directory.
abbrev pub subtree : Option Node → Option Tree
subtree none = some end
subtree (some (dir t)) = some t
subtree (some (file x a b)) = none
subtree (some (symlink a b)) = none

abbrev within : Bytes → Tree → Option Tree → (Tree → Result Error Tree) → Result Error Tree
within n t none k = err inside_non_directory
within n t (some sub) k = k sub >>= λ sub'. ok (put n (dir sub') t)

-- Over the pieces of the path. An entry that was made for a call is only ever a directory without a
-- non-directory on the way, so that a call that fails has made none.
unfoldable pub insert_parts : List Bytes → Node → Tree → Result Error Tree
insert_parts [] x t = err empty_path
insert_parts (p ∷ []) x t = ok (put p x t)
insert_parts (p ∷ q ∷ ps) x t =
    within p t (subtree (lookup p t)) (λ sub. insert_parts (q ∷ ps) x sub)

pub insert : Bytes → Node → Tree → Result Error Tree
unfolding parts_from insert_parts
insert path x t = insert_parts (parts path) x t

-- An entry with the hashes of its node.
pub record Row : Type 0 where
  pub name : Bytes
  pub is_dir : Bool
  pub mode : Bytes
  pub hash1 : Bytes
  pub hash256 : Bytes

-- Directories sort as if their name ended in a slash.
abbrev pub sort_key : Row → Bytes
sort_key r = if r.is_dir then r.name ++ b'/' ∷ [] else r.name

abbrev line : Row → Bytes → Bytes
line r h = r.mode ++ b' ' ∷ r.name ++ 0 ∷ h

abbrev nodes1 : List Row → Bytes
nodes1 [] = []
nodes1 (r ∷ rs) = line r r.hash1 ++ nodes1 rs

abbrev nodes256 : List Row → Bytes
nodes256 [] = []
nodes256 (r ∷ rs) = line r r.hash256 ++ nodes256 rs

abbrev tree_header : Bytes → Bytes
tree_header nodes = codes "tree " ++ decimal (length nodes) ++ 0 ∷ []

pub hash_rows : Hashes → List Row → Bytes × Bytes
unfolding decimal_onto
hash_rows h rs = (
  h.sha1 (tree_header (nodes1 rs) ++ nodes1 rs),
  h.sha256 (tree_header (nodes256 rs) ++ nodes256 rs),
)

abbrev pub dir_row : Bytes → Bytes × Bytes → Row
dir_row n (a, b) = record { name = n; is_dir = true; mode = codes "40000"; hash1 = a; hash256 = b }

unfoldable mutual
  unfolding hash_rows sort_by insert_by

  pub row : Hashes → Bytes → Node → Row
  row h n (file exec a b) = record {
    name = n;
    is_dir = false;
    mode = if exec then codes "100755" else codes "100644";
    hash1 = a;
    hash256 = b;
  }
  row h n (symlink a b) = record {
    name = n;
    is_dir = false;
    mode = codes "120000";
    hash1 = a;
    hash256 = b;
  }
  row h n (dir t) = dir_row n (hash_rows h (sort_by (by_key sort_key) (rows h t)))

  pub rows : Hashes → Tree → List Row
  rows h end = []
  rows h (entry n x t) = row h n x ∷ rows h t

unfoldable pub hash : Hashes → Tree → Bytes × Bytes
unfolding row hash_rows sort_by
hash h t = hash_rows h (sort_by (by_key sort_key) (rows h t))
