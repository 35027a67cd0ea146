-- ===== src/Fat/Layout.antt =====
-- src/fat.rs: the geometry that `open` accepts.
use hashdex.Base.{
  ℕ, ◌+◌, ◌-◌, ◌*◌, ◌/◌, ◌≤◌, ◌<◌, ◌^◌, min, ◌≡◌, ap, inl, inr, Bool, true, not, ◌&&◌, ◌||◌, length,
  get_or, leb, ltb, ◌==◌, arith, Bool-cases, &&_true, not_leb→lt, not_ltb→le,
}
use mathlib.Core.Path.{subst}
use native.Mathlib.Nat.{mul-le-mul_right, div-mul-le_self, div-add-mod', mod-lt}
use hashdex.Base.Bytes.{Bytes, div_ceil}
use hashdex.Base.Outcome.{ok, ok-injective, >>=-eq-ok}
use hashdex.View.{View, read_full_at}
use hashdex.Fat.{
  Fat, le16, le32, or_wide, power_of_two, signature, sane_tables, sane_sizes, looks_like,
  first_data, geometry, sized, open_boot, reading, open_fat, fat_table_max, cluster_bytes, size,
}

-- The bytes that the reserved sectors, every table and the fixed root directory take.
abbrev pub tables_and_root : Fat → ℕ
tables_and_root fs =
    (fs.reserved + fs.num_fats * fs.fat_sectors) * fs.bytes_per_sector + fs.root_entries * 32

-- The geometry of a filesystem: sizes within the format's bounds, a table that is held in memory,
-- and a data area behind the tables and the root directory that ends within the filesystem.
pub record IsFat (fs : Fat) : Type 0 where
  pub sector_bounds : (512 ≤ fs.bytes_per_sector) × (fs.bytes_per_sector ≤ 4096)
  pub cluster_bounds : (512 ≤ cluster_bytes fs) × (cluster_bytes fs ≤ 2 ^ 19)
  pub table_fits : fs.fat_sectors * fs.bytes_per_sector ≤ fat_table_max
  pub tables_before : tables_and_root fs ≤ fs.data_start
  pub data_inside : fs.data_start + fs.cluster_count * cluster_bytes fs ≤ size fs

-- Only these two tests bound the sizes.
size_tests :
    (bps spc : ℕ) (p : Bool)
    → ((bps == 512 || bps == 1024 || bps == 2048 || bps == 4096)
        && not (spc == 0)
        && p
        && leb spc 128)
      ≡ true
    → (512 ≤ bps) × (bps ≤ 4096) × (0 < spc) × (spc ≤ 128)
size_tests bps spc p h = ground arith

sane_sizes_bounds :
    (bps spc : ℕ) → sane_sizes bps spc ≡ true → (512 ≤ bps) × (bps ≤ 4096) × (0 < spc) × (spc ≤ 128)
unfolding sane_sizes
sane_sizes_bounds bps spc h = size_tests bps spc (power_of_two 8 spc) h

product_bounds : (b s : ℕ) → 512 ≤ b → b ≤ 4096 → 0 < s → s ≤ 128 → (512 ≤ b * s) × (b * s ≤ 2 ^ 19)
product_bounds b s h k l m = grind arith

area_inside :
    (total first bps spc : ℕ)
    → first < total
    → first * bps + (total - first) / spc * (bps * spc) ≤ total * bps
area_inside total first bps spc lt =
    let d = total - first in
    let q = d / spc in
    let regrouped : q * (bps * spc) ≡ q * spc * bps = grind arith in
    let cut : q * spc * bps ≤ d * bps = mul-le-mul_right bps (div-mul-le_self d spc) in
    let whole : first + d ≡ total = omega arith in
    let parts : first * bps + d * bps ≡ (first + d) * bps = grind arith in
    let all : (first + d) * bps ≡ total * bps = ap (λ t. t * bps) whole in omega arith

le-div_ceil : (n b : ℕ) → 0 < b → n ≤ div_ceil n b * b
le-div_ceil n b pos =
    let m = n + (b - 1) in
    let whole = div-add-mod' m b in let rest = mod-lt m pos in omega (arith, whole, rest)

-- The sectors of the root directory are whole ones.
root_before :
    (sectors root bps : ℕ)
    → 0 < bps
    → sectors * bps + root * 32 ≤ (sectors + div_ceil (root * 32) bps) * bps
root_before sectors root bps pos =
    let ceil = div_ceil (root * 32) bps in
    let enough = le-div_ceil (root * 32) bps pos in
    let parts : (sectors + ceil) * bps ≡ sectors * bps + ceil * bps = grind arith in
    omega (arith, enough, parts)

-- The data area does not shrink when the number of clusters is cut to 32 bits.
fewer_clusters :
    (first_bytes k q limit all : ℕ)
    → first_bytes + q * k ≤ all
    → first_bytes + min q limit * k ≤ all
fewer_clusters first_bytes k q limit all h =
    let fewer : min q limit ≤ q = omega arith in
    let less : min q limit * k ≤ q * k = mul-le-mul_right k fewer in omega arith

geometry-IsFat :
    (boot : Bytes) (fat_sectors total_sectors : ℕ)
    → sane_sizes (le16 boot 11) (get_or boot 13 0) ≡ true
    → first_data boot fat_sectors < total_sectors
    → fat_sectors * le16 boot 11 ≤ fat_table_max
    → IsFat (geometry boot fat_sectors total_sectors)
unfolding geometry size cluster_bytes first_data
geometry-IsFat boot fat_sectors total_sectors sane lt table =
    let bps = le16 boot 11 in
    let spc = get_or boot 13 0 in
    let first = first_data boot fat_sectors in
    let (a, b, c, d) = sane_sizes_bounds bps spc sane in
    record {
      sector_bounds = (a, b);
      cluster_bounds = product_bounds bps spc a b c d;
      table_fits = table;
      tables_before =
          root_before (le16 boot 14 + get_or boot 16 0 * fat_sectors) (le16 boot 17) bps
            (omega arith);
      data_inside =
          fewer_clusters (first * bps) (bps * spc) ((total_sectors - first) / spc) (2 ^ 32 - 1)
            (total_sectors * bps) (area_inside total_sectors first bps spc lt);
    }

looks_like-sane :
    (boot : Bytes) → looks_like boot ≡ true → sane_sizes (le16 boot 11) (get_or boot 13 0) ≡ true
unfolding looks_like
looks_like-sane boot h =
    let sane = sane_sizes (le16 boot 11) (get_or boot 13 0) in
    (&&_true (signature boot) sane ((&&_true (signature boot && sane) (sane_tables boot) h).0)).1

sized-IsFat :
    (boot : Bytes) (fat_sectors total_sectors : ℕ) (fs : Fat)
    → sane_sizes (le16 boot 11) (get_or boot 13 0) ≡ true
    → sized boot fat_sectors total_sectors ≡ ok fs
    → IsFat fs
unfolding sized
sized-IsFat boot fat_sectors total_sectors fs sane e =
    elim (Bool-cases (fat_sectors == 0 || total_sectors == 0)) [
      | inl p ↦ cc (rw p at e)
      | inr p ↦ elim (Bool-cases (leb total_sectors (first_data boot fat_sectors))) [
        | inl q ↦ cc (rw (p, q) at e)
        | inr q ↦ elim (Bool-cases (ltb fat_table_max (fat_sectors * le16 boot 11))) [
          | inl r ↦ cc (rw (p, q, r) at e)
          | inr r ↦
              subst IsFat
                (ok-injective (geometry boot fat_sectors total_sectors) fs (rw (p, q, r) at e))
                (geometry-IsFat boot fat_sectors total_sectors sane
                  (not_leb→lt total_sectors (first_data boot fat_sectors) q)
                  (not_ltb→le fat_table_max (fat_sectors * le16 boot 11) r))
        ]
      ]
    ]

open_boot-IsFat : (boot : Bytes) (fs : Fat) → open_boot boot ≡ ok fs → IsFat fs
unfolding open_boot
open_boot-IsFat boot fs e = elim (Bool-cases (length boot == 512)) [
  | inr p ↦ cc (rw p at e)
  | inl p ↦ elim (Bool-cases (looks_like boot)) [
    | inr q ↦ cc (rw (p, q) at e)
    | inl q ↦
        sized-IsFat boot (or_wide (le16 boot 22) (le32 boot 36))
          (or_wide (le16 boot 19) (le32 boot 32)) fs (looks_like-sane boot q) (rw (p, q) at e)
  ]
]

-- A filesystem that opens has sectors of 512 to 4096 bytes, clusters of at most 512 KiB, a table of
-- at most 64 MiB, and a data area that begins behind the reserved sectors, all of its tables and its
-- fixed root directory, and ends within its size.
pub open_fat-IsFat : (v : View) (fs : Fat) → open_fat v ≡ ok fs → IsFat fs
unfolding open_fat
open_fat-IsFat v fs e =
    let (boot, run, opened) = >>=-eq-ok (reading (read_full_at v 512 0)) open_boot fs e in
    open_boot-IsFat boot fs opened
