-- ===== src/PeekWalk.antt =====
-- src/peek_walk.rs: the kinds of containers, how a member's kind is told from its first bytes, and
-- which kinds a descent enters.
--
-- Labels and names are lists of code points. The suffixes that are taken off a name are ASCII, so
-- that bytes and code points agree where the source slices.
pub mod Sniffing
pub mod Padding
pub mod Cpio
pub mod Rpm
pub mod Iso
pub mod CentralDir
mod Tests
mod FormatTests
use hashdex.Base.{
  ℕ, zero, suc, ◌+◌, ◌-◌, Bool, true, false, not, ◌&&◌, ◌||◌, Option, none, some, List, [], ◌∷◌,
  ◌++◌, length, take, drop, get_or, map, ltb, leb, ◌==◌, if◌then◌else◌,
}
use hashdex.Base.Bytes.{Bytes}
use hashdex.Base.Outcome.{Result, ok, err, ◌>>=◌}
use hashdex.Base.Text.{Text, codes, text_eq, within, ascii_lowercase}
use hashdex.View.{View, IoError, read_full_at}
use hashdex.Fat.{looks_like}

pub data Kind : Type 0 where
  gzip xz zstd bzip2 tar zip ar rpm cpio squash_fs erofs seven_z iso fat_fs plain : Kind

unfoldable pub label : Kind → Text
label gzip = codes "gzip"
label xz = codes "xz"
label zstd = codes "zstd"
label bzip2 = codes "bzip2"
label tar = codes "tar"
label zip = codes "zip"
label ar = codes "ar"
label rpm = codes "rpm"
label cpio = codes "cpio"
label squash_fs = codes "squashfs"
label erofs = codes "erofs"
label seven_z = codes "7z"
label iso = codes "iso9660"
label fat_fs = codes "fat"
label plain = codes "file"

-- The kinds that `intern_label` tries, in order.
abbrev pub interned : List Kind
interned =
    gzip ∷ xz ∷ zstd ∷ bzip2 ∷ tar ∷ zip ∷ ar ∷ rpm ∷ cpio ∷ squash_fs ∷ erofs ∷ seven_z ∷ iso
    ∷ fat_fs ∷ []

unfoldable pub intern_from : List Kind → Text → Text
unfolding label
intern_from [] s = if text_eq s (codes "dir") then codes "dir" else codes "file"
intern_from (k ∷ ks) s =
    let rest = intern_from ks s in if text_eq (label k) s then label k else rest

pub intern_label : Text → Text
unfolding intern_from
intern_label s = intern_from interned s

-- `starts_with` of slices is `has_prefix`; `ends_with` of strings.
unfoldable pub has_prefix : Bytes → Bytes → Bool
has_prefix [] s = true
has_prefix (p ∷ ps) [] = false
has_prefix (p ∷ ps) (c ∷ cs) = p == c && has_prefix ps cs

abbrev pub ends_with : Text → Text → Bool
ends_with p s = leb (length p) (length s) && text_eq (drop (length s - length p) s) p

abbrev pub to_ascii_lowercase : Text → Text
to_ascii_lowercase s = map ascii_lowercase s

-- Whether these bytes stand at an offset.
unfoldable pub stands : Bytes → ℕ → Bytes → Bool
stands p off s = text_eq (take (length p) (drop off s)) p

-- A missing fourth byte is no digit, and neither is 0.
unfoldable pub sniff : Bytes → Text → Kind
unfolding has_prefix stands
sniff head name =
    if has_prefix (codes "!<arch>" ++ 10 ∷ []) head
    then ar
    else if has_prefix (0x1f ∷ 0x8b ∷ []) head
    then gzip
    else if has_prefix (0xfd ∷ b'7' ∷ b'z' ∷ b'X' ∷ b'Z' ∷ 0 ∷ []) head
    then xz
    else if has_prefix (0x28 ∷ 0xb5 ∷ 0x2f ∷ 0xfd ∷ []) head
    then zstd
    else if has_prefix (codes "BZh") head && within b'0' b'9' (get_or head 3 0)
    then bzip2
    else if has_prefix (0x50 ∷ 0x4b ∷ 3 ∷ 4 ∷ []) head
    then zip
    else if has_prefix (0xed ∷ 0xab ∷ 0xee ∷ 0xdb ∷ []) head
    then rpm
    else if has_prefix (codes "070701") head || has_prefix (codes "070702") head
    then cpio
    else if ltb 262 (length head) && stands (codes "ustar") 257 head
    then tar
    else if has_prefix (codes "hsqs") head
    then squash_fs
    else if has_prefix (0x37 ∷ 0x7a ∷ 0xbc ∷ 0xaf ∷ 0x27 ∷ 0x1c ∷ []) head
    then seven_z
    else if leb 1028 (length head) && stands (0xe2 ∷ 0xe1 ∷ 0xf5 ∷ 0xe0 ∷ []) 1024 head
    then erofs
    else if ends_with (codes ".iso") (to_ascii_lowercase name)
    then iso
    else plain

-- The suffixes of a kind, with what takes their place.
abbrev pub suffixes : Kind → List (Text × Text)
suffixes k = elim k [
  | gzip ↦ (codes ".tgz", codes ".tar") ∷ (codes ".gz", []) ∷ []
  | xz ↦ (codes ".txz", codes ".tar") ∷ (codes ".xz", []) ∷ []
  | zstd ↦ (codes ".tzst", codes ".tar") ∷ (codes ".zst", []) ∷ []
  | bzip2 ↦ (codes ".tbz2", codes ".tar") ∷ (codes ".tbz", codes ".tar") ∷ (codes ".bz2", []) ∷ []
  | _ ↦ []
]

unfoldable pub unwrapped_from : List (Text × Text) → Text → Text
unwrapped_from [] name = name ++ codes "~unpacked"
unwrapped_from ((suffix, replacement) ∷ rows) name =
    let rest = unwrapped_from rows name in
    if ends_with suffix (to_ascii_lowercase name)
    then take (length name - length suffix) name ++ replacement
    else rest

pub unwrapped_name : Text → Kind → Text
unfolding unwrapped_from
unwrapped_name name k = unwrapped_from (suffixes k) name

pub data Descent : Type 0 where
  closed cheap full : Descent

abbrev pub in_place : Kind → Bool
in_place k = elim k [
  | tar ↦ true
  | zip ↦ true
  | ar ↦ true
  | cpio ↦ true
  | squash_fs ↦ true
  | erofs ↦ true
  | iso ↦ true
  | fat_fs ↦ true
  | _ ↦ false
]

pub enters : Descent → Kind → Bool
enters closed k = false
enters full k = true
enters cheap k = in_place k

abbrev pub is_plain : Kind → Bool
is_plain k = elim k [ plain ↦ true | _ ↦ false ]

abbrev pub head_len : ℕ
head_len = 2048

-- The iso9660 descriptor's magic, out of the head's range.
abbrev pub iso_or : Kind → Bytes → Kind
iso_or k magic = if text_eq magic (codes "CD001") then iso else k

abbrev pub fat_or : Kind → Bytes → Kind
fat_or k head = if is_plain k && looks_like head then fat_fs else k

unfoldable pub descriptor_kind : View → Kind → Result IoError Kind
unfolding read_full_at
descriptor_kind v k =
    if is_plain k && leb 32774 v.len
    then (read_full_at v 5 32769 >>= λ m. ok (iso_or k m))
    else ok k

-- The kind of a member whose bytes can be read at offsets (`process_ranged`).
unfoldable pub ranged_kind : View → Text → Result IoError Kind
unfolding sniff read_full_at descriptor_kind
ranged_kind v name = read_full_at v head_len 0 >>= λ head.
    descriptor_kind v (sniff head name) >>= λ k. ok (fat_or k head)

abbrev pub max_depth : ℕ
max_depth = 16

pub data Choice : Type 0 where
  nested_too_deep not_entered descended : Choice

abbrev pub is_seven_z : Kind → Bool
is_seven_z k = elim k [ seven_z ↦ true | _ ↦ false ]

-- What is done with a member's inside.
pub choice : Descent → ℕ → ℕ → Kind → Choice
unfolding enters
choice d base depth k =
    if leb max_depth (depth - base) && not (is_plain k || is_seven_z k)
    then nested_too_deep
    else if not (enters d k) && not (is_plain k)
    then not_entered
    else descended

abbrev pub max_members : ℕ
max_members = 1000000

-- `capped`, on the count of the members of one root: whether the cap is met, and the count after.
pub capped : ℕ → Bool × ℕ
capped count = (leb max_members count, count + 1)
