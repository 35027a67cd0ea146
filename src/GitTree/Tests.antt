-- ===== src/GitTree/Tests.antt =====
-- Trees of a few entries, and the theorems at them.
use hashdex.Base.{ℕ, ◌≡◌, refl, ap, arith, true, false, List, [], ◌∷◌, ◌++◌, length, some, inl, inr}
use hashdex.Base.Outcome.{ok, err}
use hashdex.Base.Text.{codes}
use hashdex.GitTree.{
  Node, file, symlink, dir, Tree, end, entry, empty_path, inside_non_directory, Hashes, decimal,
  decimal_onto, blob_hashes, parts_from, parts, insert_parts, insert, hash, hash_rows, row,
}
use hashdex.GitTree.Lookup.{Apart, find_node, find_node-insert}
use hashdex.GitTree.Commute.{hash-insert_comm}

-- In place of the digests: the bytes themselves.
abbrev hashes : Hashes
hashes = record { sha1 = λ b. b; sha256 = λ b. b }

abbrev script : Node
script = file true (1 ∷ 2 ∷ []) (3 ∷ [])

abbrev a_link : Node
a_link = symlink (4 ∷ []) (5 ∷ [])

abbrev with_script : Tree
with_script = entry (codes "a") (dir (entry (codes "b") script end)) end

abbrev with_both : Tree
with_both = entry (codes "a") (dir (entry (codes "b") script end)) (entry (codes "a.c") a_link end)

decimal_104 : decimal 104 ≡ codes "104"
unfolding decimal_onto
decimal_104 = refl

parts_of_path : parts (codes "./a//b/") ≡ codes "." ∷ codes "a" ∷ codes "b" ∷ []
unfolding parts_from
parts_of_path = refl

insert_makes_dirs : insert (codes "a/b") script end ≡ ok with_script
unfolding insert insert_parts parts_from
insert_makes_dirs = refl

insert_empty_path : insert (codes "//") script end ≡ err empty_path
unfolding insert insert_parts parts_from
insert_empty_path = refl

insert_inside_file : insert (codes "a/b/c") a_link with_script ≡ err inside_non_directory
unfolding insert insert_parts parts_from
insert_inside_file = refl

insert_second : insert (codes "a.c") a_link with_script ≡ ok with_both
unfolding insert insert_parts parts_from
insert_second = refl

-- `a.c` stands in front of the directory `a`, since `.` is less than a slash.
hash_order : hash hashes (entry (codes "a") (dir end) (entry (codes "a.c") a_link end)) ≡ (
  codes "tree 27"
      ++ 0 ∷ codes "120000 a.c"
      ++ 0 ∷ 4 ∷ codes "40000 a"
      ++ 0 ∷ codes "tree 0"
      ++ 0 ∷ [],
  codes "tree 27"
      ++ 0 ∷ codes "120000 a.c"
      ++ 0 ∷ 5 ∷ codes "40000 a"
      ++ 0 ∷ codes "tree 0"
      ++ 0 ∷ [],
)
unfolding hash hash_rows row decimal_onto hashdex.Base.Sorting.lex_leb
hash_order = refl

blob_of_pieces :
    blob_hashes hashes 3 ((1 ∷ []) ∷ (2 ∷ 3 ∷ []) ∷ [])
    ≡ (codes "blob 3" ++ 0 ∷ 1 ∷ 2 ∷ 3 ∷ [], codes "blob 3" ++ 0 ∷ 1 ∷ 2 ∷ 3 ∷ [])
unfolding blob_hashes decimal_onto
blob_of_pieces = refl

a_b-Apart : Apart (parts (codes "a/b")) (parts (codes "a.c"))
unfolding parts_from
a_b-Apart = inl (λ e. let bad = ap length e in omega (arith, bad))

find_node-insert_example :
    (find_node (parts (codes "a/b")) with_script ≡ some script)
    × (find_node (parts (codes "a.c")) with_script ≡ find_node (parts (codes "a.c")) end)
find_node-insert_example =
    find_node-insert (codes "a/b") (codes "a.c") script end with_script insert_makes_dirs a_b-Apart

hash-insert_comm_example :
    (u1 u2 : Tree) × (insert (codes "a.c") a_link end ≡ ok u1)
    × (insert (codes "a/b") script u1 ≡ ok u2)
    × (hash hashes with_both ≡ hash hashes u2)
hash-insert_comm_example =
    hash-insert_comm hashes (codes "a/b") (codes "a.c") script a_link end with_script with_both
      a_b-Apart insert_makes_dirs insert_second
