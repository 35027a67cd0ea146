-- ===== src/Fat.antt =====
-- src/fat.rs: a FAT filesystem's geometry, its table and its cluster chains.
--
-- Indices into the boot sector are below 512, its length, so that they do not panic. The steps of a
-- chain are counted down from the number of clusters.
pub mod Chains
pub mod Layout
pub mod Head
pub mod Truncation
pub mod Names
pub mod Directory
pub mod Boot
pub mod Sample
mod Tests
use hashdex.Base.{
  ℕ, zero, suc, ◌+◌, ◌-◌, ◌*◌, ◌/◌, ◌%◌, ◌^◌, min, max, Bool, true, false, not, ◌&&◌, ◌||◌, Option,
  none, some, List, [], ◌∷◌, ◌++◌, length, take, drop, get_elem?, get_or, leb, ltb, ◌==◌,
  if◌then◌else◌,
}
use hashdex.Base.Bytes.{Bytes, div_ceil}
use hashdex.Base.Text.{text_eq}
use hashdex.Base.Outcome.{Result, ok, err, ◌>>=◌}
use hashdex.View.{View, IoError, Range, read_full_at}

pub data FatBits : Type 0 where
  fat12 fat16 fat32 : FatBits

pub data FatError : Type 0 where
  io : IoError → FatError
  truncated_boot_sector not_fat empty_geometry no_data_area table_too_large : FatError
  truncated_table outside_data_area chain_loops truncated_catalog no_validation_entry : FatError

pub record Fat : Type 0 where
  pub bytes_per_sector : ℕ
  pub sectors_per_cluster : ℕ
  pub reserved : ℕ
  pub num_fats : ℕ
  pub root_entries : ℕ
  pub fat_sectors : ℕ
  pub total_sectors : ℕ
  pub root_cluster : ℕ
  pub kind : FatBits
  pub data_start : ℕ
  pub cluster_count : ℕ

abbrev pub fat_table_max : ℕ
fat_table_max = 64 * 2 ^ 20

unfoldable pub le16 : Bytes → ℕ → ℕ
le16 b i = get_or b i 0 + 256 * get_or b (i + 1) 0

unfoldable pub le32 : Bytes → ℕ → ℕ
le32 b i =
    get_or b i 0
    + 256 * get_or b (i + 1) 0
    + 65536 * get_or b (i + 2) 0
    + 16777216 * get_or b (i + 3) 0

-- `is_power_of_two` of a byte.
abbrev power_of_two : ℕ → ℕ → Bool
power_of_two zero n = false
power_of_two (suc bits) n = n == 1 || n % 2 == 0 && power_of_two bits (n / 2)

-- "FAT"
abbrev fat_name : Bytes → ℕ → Bool
fat_name head at = text_eq (take 3 (drop at head)) (70 ∷ 65 ∷ 84 ∷ [])

-- The geometry of `looks_like`: the sector and the cluster size.
unfoldable pub sane_sizes : ℕ → ℕ → Bool
sane_sizes bps spc =
    (bps == 512 || bps == 1024 || bps == 2048 || bps == 4096)
    && not (spc == 0)
    && power_of_two 8 spc
    && leb spc 128

-- The length, the signature at 510 and the jump instruction.
signature : Bytes → Bool
signature head =
    not (ltb (length head) 512)
    && get_or head 510 0 == 0x55
    && get_or head 511 0 == 0xAA
    && (get_or head 0 0 == 0xEB || get_or head 0 0 == 0xE9)

-- The reserved sectors, the number of tables, the media byte and the type string.
sane_tables : Bytes → Bool
sane_tables head =
    not (le16 head 14 == 0)
    && (get_or head 16 0 == 1 || get_or head 16 0 == 2)
    && not (ltb (get_or head 21 0) 0xF0)
    && (fat_name head 54 || fat_name head 82)

pub looks_like : Bytes → Bool
unfolding signature sane_tables
looks_like head = signature head && sane_sizes (le16 head 11) (get_or head 13 0) && sane_tables head

-- A 16-bit field, or the 32-bit one that replaces it when it is 0.
abbrev or_wide : ℕ → ℕ → ℕ
or_wide zero wide = wide
or_wide (suc n) wide = suc n

unfoldable pub kind_of : ℕ → FatBits
kind_of clusters = if ltb clusters 4085 then fat12 else if ltb clusters 65525 then fat16 else fat32

-- Where the data area begins, in sectors.
unfoldable pub first_data : Bytes → ℕ → ℕ
first_data boot fat_sectors =
    le16 boot 14 + get_or boot 16 0 * fat_sectors + div_ceil (le16 boot 17 * 32) (le16 boot 11)

-- The record that `open` returns, for the sizes that it has read.
unfoldable pub geometry : Bytes → ℕ → ℕ → Fat
geometry boot fat_sectors total_sectors =
    let first = first_data boot fat_sectors in
    let clusters = (total_sectors - first) / get_or boot 13 0 in
    record {
      bytes_per_sector = le16 boot 11;
      sectors_per_cluster = get_or boot 13 0;
      reserved = le16 boot 14;
      num_fats = get_or boot 16 0;
      root_entries = le16 boot 17;
      fat_sectors = fat_sectors;
      total_sectors = total_sectors;
      root_cluster = le32 boot 44;
      kind = kind_of clusters;
      data_start = first * le16 boot 11;
      cluster_count = min clusters (2 ^ 32 - 1);
    }

-- The checks of `open`, after those of `looks_like`.
unfoldable pub sized : Bytes → ℕ → ℕ → Result FatError Fat
sized boot fat_sectors total_sectors =
    if fat_sectors == 0 || total_sectors == 0
    then err empty_geometry
    else if leb total_sectors (first_data boot fat_sectors)
    then err no_data_area
    else if ltb fat_table_max (fat_sectors * le16 boot 11)
    then err table_too_large
    else ok (geometry boot fat_sectors total_sectors)

unfoldable pub open_boot : Bytes → Result FatError Fat
open_boot boot =
    if not (length boot == 512)
    then err truncated_boot_sector
    else if not (looks_like boot)
    then err not_fat
    else sized boot (or_wide (le16 boot 22) (le32 boot 36)) (or_wide (le16 boot 19) (le32 boot 32))

-- `?` on a read.
abbrev pub reading : Result IoError Bytes → Result FatError Bytes
reading (ok b) = ok b
reading (err e) = err (io e)

unfoldable pub open_fat : View → Result FatError Fat
open_fat view = reading (read_full_at view 512 0) >>= open_boot

unfoldable pub cluster_bytes : Fat → ℕ
cluster_bytes fs = fs.bytes_per_sector * fs.sectors_per_cluster

unfoldable pub cluster_at : Fat → ℕ → ℕ
cluster_at fs c = fs.data_start + (c - 2) * cluster_bytes fs

full_table : ℕ → Bytes → Result FatError Bytes
full_table n table = if length table == n then ok table else err truncated_table

unfoldable pub read_table : Fat → View → Result FatError Bytes
unfolding full_table
read_table fs view =
    let n = fs.fat_sectors * fs.bytes_per_sector in
    reading (read_full_at view n (fs.reserved * fs.bytes_per_sector)) >>= full_table n

-- The bytes of the table at an index, little end first; `none` past its end.
unfoldable pub table_word : ℕ → Bytes → ℕ → Option ℕ
table_word zero table i = some 0
table_word (suc n) table i = elim (get_elem? table i) [
  | none ↦ none
  | some b ↦ elim (table_word n table (i + 1)) [ none ↦ none | some w ↦ some (b + 256 * w) ]
]

-- The value that the table holds for a cluster.
unfoldable pub table_entry : FatBits → Bytes → ℕ → Option ℕ
table_entry fat12 table c = elim (table_word 2 table (c + c / 2)) [
  | none ↦ none
  | some raw ↦ some (if c % 2 == 1 then raw / 16 else raw % 4096)
]
table_entry fat16 table c = table_word 2 table (c * 2)
table_entry fat32 table c = elim (table_word 4 table (c * 4)) [
  | none ↦ none
  | some raw ↦ some (raw % 2 ^ 28)
]

abbrev end_of_chain : FatBits → ℕ
end_of_chain fat12 = 0x0FF7
end_of_chain fat16 = 0xFFF7
end_of_chain fat32 = 0x0FFFFFF7

-- A value that names a cluster; `none` at the end of a chain.
unfoldable pub link : FatBits → Option ℕ → Option ℕ
link kind none = none
link kind (some v) = if leb 2 v && ltb v (end_of_chain kind) then some v else none

unfoldable pub next : Fat → Bytes → ℕ → Option ℕ
next fs table c = link fs.kind (table_entry fs.kind table c)

-- One more cluster: it extends the last run when it follows it.
unfoldable pub push_run : List Range → ℕ → ℕ → List Range
push_run [] at size = (at, size) ∷ []
push_run ((o, l) ∷ []) at size =
    if o + l == at then (o, l + size) ∷ [] else (o, l) ∷ (at, size) ∷ []
push_run (r ∷ r' ∷ runs) at size = r ∷ push_run (r' ∷ runs) at size

unfoldable pub in_data_area : Fat → ℕ → Bool
in_data_area fs cur = leb 2 cur && ltb (cur - 2) (max fs.cluster_count 1)

-- The next cluster is followed, and at the end of the chain the runs are returned.
abbrev pub follow :
    Option ℕ → (ℕ → Result FatError (List Range)) → List Range → Result FatError (List Range)
follow none walk runs = ok runs
follow (some n) walk runs = walk n

-- The loop of `chain`, with the number of steps that are left.
unfoldable pub chain_loop : Fat → Bytes → ℕ → ℕ → List Range → Result FatError (List Range)
chain_loop fs table zero cur runs =
    if in_data_area fs cur then err chain_loops else err outside_data_area
chain_loop fs table (suc left) cur runs =
    let pushed = push_run runs (cluster_at fs cur) (cluster_bytes fs) in
    let rest = follow (next fs table cur) (λ n. chain_loop fs table left n pushed) pushed in
    if in_data_area fs cur then rest else err outside_data_area

unfoldable pub chain : Fat → Bytes → ℕ → Result FatError (List Range)
chain fs table start = chain_loop fs table fs.cluster_count start []

unfoldable pub size : Fat → ℕ
size fs = fs.total_sectors * fs.bytes_per_sector

-- Cluster runs cut down to the file's length.
unfoldable pub truncate_runs : List Range → ℕ → List Range
truncate_runs [] left = []
truncate_runs ((at, len) ∷ runs) left =
    let rest = truncate_runs runs (left - min len left) in
    if left == 0 then [] else (at, min len left) ∷ rest
