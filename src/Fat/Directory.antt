-- ===== src/Fat/Directory.antt =====
-- src/fat.rs: the walk over the directory tree.
--
-- The sets and lists that the walk fills are passed on as one state; the depth is counted down from
-- its limit. A note is the reason why something was skipped, with the path.
pub mod Files
mod Tests
use hashdex.Base.{
  ℕ, zero, suc, ◌+◌, ◌-◌, ◌*◌, ◌/◌, ◌%◌, Bool, true, false, not, ◌&&◌, ◌||◌, Option, none, some,
  List, [], ◌∷◌, ◌++◌, length, take, drop, get_or, leb, ltb, ◌==◌, if◌then◌else◌,
}
use hashdex.Base.Bytes.{Bytes}
use hashdex.Base.Text.{Text, codes, text_eq, contains}
use hashdex.Base.Outcome.{Result, ok, err, ◌>>=◌}
use hashdex.View.{View, Range, read_full_at}
use hashdex.Fat.{
  Fat, FatBits, fat12, fat16, fat32, FatError, reading, read_table, chain, truncate_runs, le16,
  le32,
}
use hashdex.Fat.Names.{Strings, Fragment, name_units, long_name, short_name, flag}

pub record FatFile : Type 0 where
  pub path : Text
  pub runs : List Range

pub data Note : Type 0 where
  too_deep : Text → Note
  bad_chain : Text → FatError → Note

-- What the whole walk fills: the directories seen, the files and the notes.
pub record Walk : Type 0 where
  pub seen : List ℕ
  pub out : List FatFile
  pub notes : List Note

-- The variables of the loop over the entries of one directory.
pub record Entries : Type 0 where
  pub lfn : List Fragment
  pub subdirs : List (Text × ℕ)
  pub walk : Walk

max_dir_depth : ℕ
max_dir_depth = 64

-- A regular file: its chain, or the reason why it has none.
pub add_file : Walk → Text → ℕ → Result FatError (List Range) → Walk
add_file w path size (ok runs) = record {
  seen = w.seen;
  out = w.out ++ record { path = path; runs = truncate_runs runs size } ∷ [];
  notes = w.notes;
}
add_file w path size (err e) = record {
  seen = w.seen;
  out = w.out;
  notes = w.notes ++ bad_chain path e ∷ [];
}

named : Option Text → Text → Text
named none short = short
named (some long) short = long

-- A subdirectory that was not seen before is walked later.
add_subdir : Walk → List (Text × ℕ) → Text → ℕ → Entries
add_subdir w subdirs name start =
    if leb 2 start && not (contains start w.seen)
    then record {
      lfn = [];
      subdirs = subdirs ++ (name, start) ∷ [];
      walk = record { seen = start ∷ w.seen; out = w.out; notes = w.notes };
    }
    else record { lfn = []; subdirs = subdirs; walk = w }

skipped_name : ℕ → Text → Bool
skipped_name attr name =
    flag 0x08 attr || length name == 0 || text_eq name (codes ".") || text_eq name (codes "..")

module _ (s : Strings) (fs : Fat) (table : Bytes) (prefix : Text) where
  -- An entry that is neither free nor a part of a long name.
  pub named_entry : Bytes → Entries → Entries
  named_entry e st =
      let attr = get_or e 11 0 in
      let name = named (long_name st.lfn) (short_name s e) in
      let start = le16 e 20 * 65536 + le16 e 26 in
      let size = le32 e 28 in
      if skipped_name attr name
      then record { lfn = []; subdirs = st.subdirs; walk = st.walk }
      else if flag 0x10 attr
      then add_subdir st.walk st.subdirs name start
      else if size == 0 || ltb start 2
      then record { lfn = []; subdirs = st.subdirs; walk = st.walk }
      else record {
        lfn = [];
        subdirs = st.subdirs;
        walk = add_file st.walk (prefix ++ name) size (chain fs table start);
      }

  -- One entry of 32 bytes that is in use or deleted.
  pub one_entry : Bytes → Entries → Entries
  one_entry e st =
      if get_or e 0 0 == 0xE5
      then record { lfn = []; subdirs = st.subdirs; walk = st.walk }
      else if get_or e 11 0 == 0x0F
      then record {
        lfn = st.lfn ++ (get_or e 0 0 % 64, name_units e) ∷ [];
        subdirs = st.subdirs;
        walk = st.walk;
      }
      else named_entry e st

  -- The loop over the entries: `n` whole ones are left, and the first free one ends it.
  pub entries : ℕ → Bytes → Entries → Entries
  entries zero dir st = st
  entries (suc n) dir st =
      let rest = entries n (drop 32 dir) (one_entry (take 32 dir) st) in
      if get_or dir 0 0 == 0 then st else rest

-- The bytes of a directory, run after run.
pub read_dir : View → List Range → Result FatError Bytes
read_dir view [] = ok []
read_dir view ((at, len) ∷ runs) =
    reading (read_full_at view len at) >>= λ b. (read_dir view runs >>= λ rest. ok (b ++ rest))

-- A loop over a list whose rounds may fail.
pub each : {A S : Type 0} → (A → S → Result FatError S) → List A → S → Result FatError S
each body [] st = ok st
each body (a ∷ rest) st = body a st >>= each body rest

-- A subdirectory: its chain is walked, or noted.
abbrev pub enter :
    (List Range → Walk → Result FatError Walk)
    → Text
    → Result FatError (List Range)
    → Walk
    → Result FatError Walk
enter go path (ok runs) w = go runs w
enter go path (err e) w =
    ok (record { seen = w.seen; out = w.out; notes = w.notes ++ bad_chain path e ∷ [] })

module _ (s : Strings) (fs : Fat) (view : View) (table : Bytes) where
  -- `left` levels of directories may still be entered.
  pub walk_dir : ℕ → List Range → Text → Walk → Result FatError Walk
  walk_dir zero runs prefix w =
      ok (record { seen = w.seen; out = w.out; notes = w.notes ++ too_deep prefix ∷ [] })
  walk_dir (suc left) runs prefix w = read_dir view runs >>= λ dir.
      let found =
        entries s fs table prefix (length dir / 32) dir
          (record { lfn = []; subdirs = []; walk = w }) in
      each
        (λ d.
          enter (λ sub. walk_dir left sub (prefix ++ d.0 ++ b'/' ∷ [])) (prefix ++ d.0 ++ b'/' ∷ [])
            (chain fs table d.1))
        found.subdirs found.walk

-- The runs of the root directory.
pub root_runs : Fat → Bytes → FatBits → Result FatError (List Range)
root_runs fs table fat32 = chain fs table fs.root_cluster
root_runs fs table fat12 = ok (
    ((fs.reserved + fs.num_fats * fs.fat_sectors) * fs.bytes_per_sector, fs.root_entries * 32) ∷ [])
root_runs fs table fat16 = ok (
    ((fs.reserved + fs.num_fats * fs.fat_sectors) * fs.bytes_per_sector, fs.root_entries * 32) ∷ [])

pub files : Strings → Fat → View → Result FatError (List FatFile × List Note)
unfolding max_dir_depth
files s fs view = read_table fs view >>= λ table.
    (root_runs fs table fs.kind >>= λ root.
    (walk_dir s fs view table max_dir_depth root [] (record { seen = []; out = []; notes = [] })
      >>= λ w. ok (w.out, w.notes)))
