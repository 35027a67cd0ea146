-- ===== src/Fat/Directory/Files.antt =====
-- src/fat.rs: every file that the walk finds lies in the data area.
use hashdex.Base.{
  ℕ, zero, suc, ◌+◌, ◌*◌, ◌/◌, ◌≡◌, ap, inl, inr, not, ◌&&◌, ◌||◌, List, [], ◌∷◌, ◌++◌, length,
  take, drop, get_or, All, All-append, All-imp, leb, ltb, ◌==◌, arith, Bool-cases,
}
use mathlib.Core.Path.{subst}
use hashdex.Base.Bytes.{Bytes}
use hashdex.Base.Text.{Text, contains}
use hashdex.Base.Outcome.{Result, ok, err, ◌>>=◌, ok-injective, >>=-eq-ok, Result-cases}
use hashdex.View.{View, Range}
use hashdex.Fat.{
  Fat, FatError, read_table, chain, truncate_runs, cluster_bytes, size, le16, le32, open_fat,
}
use hashdex.Fat.Truncation.{Between, truncate_runs-Between}
use hashdex.Fat.Chains.{InDataArea, chain-Chained}
use hashdex.Fat.Layout.{IsFat, tables_and_root, open_fat-IsFat}
use hashdex.Fat.Names.{Strings, long_name, short_name, flag}
use hashdex.Fat.Directory.{
  FatFile, Note, Walk, Entries, too_deep, bad_chain, add_file, add_subdir, named, skipped_name,
  named_entry, one_entry, entries, read_dir, each, enter, walk_dir, root_runs, files, max_dir_depth,
}

-- All the ranges of a file lie in the data area.
abbrev pub FileInside : Fat → FatFile → Type 0
FileInside fs f = All (InDataArea fs) f.runs

abbrev pub AllInside : Fat → Walk → Type 0
AllInside fs w = All (FileInside fs) w.out

add_file-AllInside :
    (fs : Fat) (table : Bytes) (w : Walk) (path : Text) (len start : ℕ)
    → AllInside fs w
    → AllInside fs (add_file w path len (chain fs table start))
unfolding add_file
add_file-AllInside fs table w path len start h = elim (Result-cases (chain fs table start)) [
  | inr (e, q) ↦ rw q h
  | inl (runs, q) ↦
      let inside : All (InDataArea fs) runs = (chain-Chained fs table table start runs q).0 in
      rw q (
        All-append (FileInside fs) w.out
          (record { path = path; runs = truncate_runs runs len } ∷ []) h
          (
            truncate_runs-Between fs.data_start
                (fs.data_start + fs.cluster_count * cluster_bytes fs) runs len inside,
            tt,
          ))
]

module _ (s : Strings) (fs : Fat) (table : Bytes) (prefix : Text) where
  add_subdir-AllInside :
      (w : Walk) (subdirs : List (Text × ℕ)) (name : Text) (start : ℕ)
      → AllInside fs w
      → AllInside fs (add_subdir w subdirs name start).walk
  unfolding add_subdir
  add_subdir-AllInside w subdirs name start h =
      elim (Bool-cases (leb 2 start && not (contains start w.seen))) [
        | inl p ↦ rw p h
        | inr p ↦ rw p h
      ]

  named_entry-AllInside :
      (e : Bytes) (st : Entries)
      → AllInside fs st.walk
      → AllInside fs (named_entry s fs table prefix e st).walk
  unfolding named_entry
  named_entry-AllInside e st h =
      let name = named (long_name st.lfn) (short_name s e) in
      let start = le16 e 20 * 65536 + le16 e 26 in
      elim (Bool-cases (skipped_name (get_or e 11 0) name)) [
        | inl p ↦ rw p h
        | inr p ↦ elim (Bool-cases (flag 0x10 (get_or e 11 0))) [
          | inl q ↦ rw (p, q) (add_subdir-AllInside st.walk st.subdirs name start h)
          | inr q ↦ elim (Bool-cases (le32 e 28 == 0 || ltb start 2)) [
            | inl r ↦ rw (p, q, r) h
            | inr r ↦
                rw (p, q, r)
                  (add_file-AllInside fs table st.walk (prefix ++ name) (le32 e 28) start h)
          ]
        ]
      ]

  one_entry-AllInside :
      (e : Bytes) (st : Entries)
      → AllInside fs st.walk
      → AllInside fs (one_entry s fs table prefix e st).walk
  unfolding one_entry
  one_entry-AllInside e st h = elim (Bool-cases (get_or e 0 0 == 0xE5)) [
    | inl p ↦ rw p h
    | inr p ↦ elim (Bool-cases (get_or e 11 0 == 0x0F)) [
      | inl q ↦ rw (p, q) h
      | inr q ↦ rw (p, q) (named_entry-AllInside e st h)
    ]
  ]

  entries-AllInside :
      (n : ℕ) (dir : Bytes) (st : Entries)
      → AllInside fs st.walk
      → AllInside fs (entries s fs table prefix n dir st).walk
  unfolding entries
  entries-AllInside zero dir st h = h
  entries-AllInside (suc n) dir st h = elim (Bool-cases (get_or dir 0 0 == 0)) [
    | inl p ↦ rw p h
    | inr p ↦ rw p (
        entries-AllInside n (drop 32 dir) (one_entry s fs table prefix (take 32 dir) st)
          (one_entry-AllInside (take 32 dir) st h))
  ]

-- What each round of a loop keeps, the loop keeps.
each-keeps :
    {A S : Type 0} (P : S → Type 0) (body : A → S → Result FatError S)
    → ((a : A) (x y : S) → P x → body a x ≡ ok y → P y)
    → (xs : List A) (x y : S) → P x
    → each body xs x ≡ ok y
    → P y
unfolding each
each-keeps P body keep [] x y h e = subst P (ok-injective x y e) h
each-keeps P body keep (a ∷ xs) x y h e =
    let (z, run, rest) = >>=-eq-ok (body a x) (each body xs) y e in
    each-keeps P body keep xs z y (keep a x z h run) rest

module _ (s : Strings) (fs : Fat) (view : View) (table : Bytes) where
  enter-AllInside :
      (go : List Range → Walk → Result FatError Walk) (path : Text)
      (r : Result FatError (List Range)) (w w' : Walk)
      → ((runs : List Range) (x y : Walk) → AllInside fs x → go runs x ≡ ok y → AllInside fs y)
      → AllInside fs w
      → enter go path r w ≡ ok w'
      → AllInside fs w'
  enter-AllInside go path (ok runs) w w' keep h e = keep runs w w' h e
  enter-AllInside go path (err x) w w' keep h e =
      subst (AllInside fs)
        (ok-injective
          (record { seen = w.seen; out = w.out; notes = w.notes ++ bad_chain path x ∷ [] }) w' e)
        h

  walk_dir-AllInside :
      (left : ℕ) (runs : List Range) (prefix : Text) (w w' : Walk)
      → AllInside fs w
      → walk_dir s fs view table left runs prefix w ≡ ok w'
      → AllInside fs w'
  unfolding walk_dir
  walk_dir-AllInside zero runs prefix w w' h e =
      subst (AllInside fs)
        (ok-injective
          (record { seen = w.seen; out = w.out; notes = w.notes ++ too_deep prefix ∷ [] }) w' e)
        h
  walk_dir-AllInside (suc left) runs prefix w w' h e =
      let below = λ (d : Text × ℕ).
        λ (sub : List Range). walk_dir s fs view table left sub (prefix ++ d.0 ++ b'/' ∷ []) in
      let body =
        λ (d : Text × ℕ). enter (below d) (prefix ++ d.0 ++ b'/' ∷ []) (chain fs table d.1) in
      let start : Entries = record { lfn = []; subdirs = []; walk = w } in
      let (dir, run, rest) =
        >>=-eq-ok (read_dir view runs)
          (λ dir.
            let found = entries s fs table prefix (length dir / 32) dir start in
            each body found.subdirs found.walk)
          w' e in
      let found = entries s fs table prefix (length dir / 32) dir start in
      each-keeps (AllInside fs) body
        (λ d x y hx ex.
          enter-AllInside (below d) (prefix ++ d.0 ++ b'/' ∷ []) (chain fs table d.1) x y
            (λ sub p q. walk_dir-AllInside left sub (prefix ++ d.0 ++ b'/' ∷ []) p q) hx ex)
        found.subdirs found.walk w'
        (entries-AllInside s fs table prefix (length dir / 32) dir start h) rest

files-inside :
    (s : Strings) (fs : Fat) (view : View) (out : List FatFile) (notes : List Note)
    → files s fs view ≡ ok (out, notes)
    → All (FileInside fs) out
unfolding files
files-inside s fs view out notes e =
    let empty : Walk = record { seen = []; out = []; notes = [] } in
    let walked = λ (table : Bytes). λ (root : List Range).
      walk_dir s fs view table max_dir_depth root [] empty >>= λ w. ok (w.out, w.notes) in
    let (table, loaded, rest) =
      >>=-eq-ok (read_table fs view) (λ table. (root_runs fs table fs.kind >>= walked table))
        (out, notes) e in
    let (root, started, last) =
      >>=-eq-ok (root_runs fs table fs.kind) (walked table) (out, notes) rest in
    let (w, run, done) =
      >>=-eq-ok (walk_dir s fs view table max_dir_depth root [] empty) (λ w. ok (w.out, w.notes))
        (out, notes) last in
    let same : w.out ≡ out = ap (λ p. p.0) (ok-injective (w.out, w.notes) (out, notes) done) in
    subst (All (FileInside fs)) same
      (walk_dir-AllInside s fs view table max_dir_depth root [] empty w tt run)

within_size :
    (fs : Fat) (r : Range) → IsFat fs → InDataArea fs r → Between (tables_and_root fs) (size fs) r
within_size fs r valid (a, b) =
    (omega (arith, valid.tables_before), omega (arith, valid.data_inside))

-- Every range of every file that the walk finds in a filesystem that opened lies behind its reserved
-- sectors, all of its tables and its fixed root directory, and within its size.
pub files-inside_size :
    (s : Strings) (fs : Fat) (view : View) (out : List FatFile) (notes : List Note)
    → open_fat view ≡ ok fs
    → files s fs view ≡ ok (out, notes)
    → All (λ f. All (Between (tables_and_root fs) (size fs)) f.runs) out
files-inside_size s fs view out notes opened e =
    let valid = open_fat-IsFat view fs opened in
    All-imp (FileInside fs) (λ f. All (Between (tables_and_root fs) (size fs)) f.runs) out
      (λ f h.
        All-imp (InDataArea fs) (Between (tables_and_root fs) (size fs)) f.runs
          (λ r k. within_size fs r valid k) h)
      (files-inside s fs view out notes e)
