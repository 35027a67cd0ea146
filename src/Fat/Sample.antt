-- ===== src/Fat/Sample.antt =====
-- A filesystem of seven sectors, for the runs of src/fat.rs.
use hashdex.Base.{ℕ, List, [], ◌∷◌, ◌++◌, set, replicate}
use hashdex.Base.Bytes.{Bytes}
use hashdex.Base.Text.{codes}
use hashdex.Base.Outcome.{ok}
use hashdex.Base.{◌≡◌, refl}
use hashdex.View.{
  View, mem, new, mapped, logical_len, read_full_at, read_full_loop, read_at_logical, read_at,
  starting_by,
}
use hashdex.Fat.{
  Fat, fat12, open_fat, open_boot, looks_like, le16, le32, sane_sizes, sized, first_data, geometry,
  kind_of,
}

abbrev pub with_bytes : Bytes → List (ℕ × ℕ) → Bytes
with_bytes bs [] = bs
with_bytes bs ((i, b) ∷ rest) = with_bytes (set bs i b) rest

abbrev pub boot : Bytes
boot = with_bytes (replicate 512 0) (
    (0, 0xEB)
    ∷ (12, 2)
    ∷ (13, 1)
    ∷ (14, 1)
    ∷ (16, 1)
    ∷ (17, 16)
    ∷ (19, 7)
    ∷ (21, 0xF8)
    ∷ (22, 1)
    ∷ (54, 70)
    ∷ (55, 65)
    ∷ (56, 84)
    ∷ (510, 0x55)
    ∷ (511, 0xAA)
    ∷ [])

-- Cluster 2 names cluster 3, which is the last.
abbrev pub table : Bytes
table = with_bytes (replicate 512 0) ((3, 3) ∷ (4, 0xF0) ∷ (5, 0xFF) ∷ [])

-- A file of 600 bytes that starts at cluster 2.
abbrev pub root : Bytes
root =
    with_bytes (codes "A       TXT" ++ replicate 501 0)
      ((11, 0x20) ∷ (26, 2) ∷ (28, 88) ∷ (29, 2) ∷ [])

abbrev pub image : Bytes
image = boot ++ table ++ root ++ replicate 2048 9

abbrev pub view : View
view = new (mem image) ((0, 3584) ∷ [])

abbrev pub volume : Fat
volume = record {
  bytes_per_sector = 512;
  sectors_per_cluster = 1;
  reserved = 1;
  num_fats = 1;
  root_entries = 16;
  fat_sectors = 1;
  total_sectors = 7;
  root_cluster = 0;
  kind = fat12;
  data_start = 1536;
  cluster_count = 4;
}

pub opened : open_fat view ≡ ok volume
unfolding open_fat open_boot looks_like le16 le32 sane_sizes sized first_data geometry kind_of new
    mapped logical_len read_full_at read_full_loop read_at_logical read_at starting_by
opened = refl
