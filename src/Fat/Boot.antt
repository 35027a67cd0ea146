-- ===== src/Fat/Boot.antt =====
-- src/fat.rs: the boot images of an El Torito catalog.
pub mod Images
mod Tests
use hashdex.Base.{
  ℕ, zero, suc, ◌+◌, ◌-◌, ◌*◌, Bool, true, false, not, ◌&&◌, ◌||◌, List, [], ◌∷◌, ◌++◌, length,
  take, drop, get_or, leb, ltb, ◌==◌, if◌then◌else◌,
}
use hashdex.Base.Bytes.{Bytes}
use hashdex.Base.Text.{Text, codes}
use hashdex.Base.Outcome.{Result, ok, err, ◌>>=◌}
use hashdex.View.{View, slice, read_full_at}
use hashdex.Fat.{
  Fat, FatError, reading, le16, le32, open_fat, size, truncated_catalog, no_validation_entry,
}

pub record BootImage : Type 0 where
  pub name : Text
  pub at : ℕ
  pub len : ℕ

-- The block address of an image past the end; the bytes that the catalog states for an image that
-- names no length of its own.
pub data BootNote : Type 0 where
  past_end no_length : ℕ → BootNote

pub record Catalog : Type 0 where
  pub platform : ℕ
  pub images : List BootImage
  pub notes : List BootNote

-- The length of an image: a filesystem's own, when it is no less than stated and fits.
own_length : ℕ → ℕ → ℕ → Result FatError Fat → ℕ
own_length stated at view_len (ok fs) =
    if leb stated (size fs) && leb (at + size fs) view_len then size fs else stated
own_length stated at view_len (err e) = stated

image_name : ℕ → Text
image_name platform = if platform == 0xEF then codes "efi.img" else codes "boot.img"

-- An image whose place and length are known.
add_image : ℕ → ℕ → ℕ → ℕ → Catalog → Catalog
add_image view_len stated at len c =
    if len == 0 || ltb view_len (at + len)
    then record {
      platform = c.platform;
      images = c.images;
      notes = c.notes ++ no_length stated ∷ [];
    }
    else record {
      platform = c.platform;
      images = c.images ++ record { name = image_name c.platform; at = at; len = len } ∷ [];
      notes = c.notes;
    }

-- A bootable entry.
bootable : View → Bytes → Catalog → Catalog
bootable view e c =
    let lba = le32 e 8 in
    let stated = le16 e 6 * 512 in
    let at = lba * 2048 in
    let len = own_length stated at view.len (open_fat (slice view ((at, view.len - at) ∷ []))) in
    if leb view.len at
    then record { platform = c.platform; images = c.images; notes = c.notes ++ past_end lba ∷ [] }
    else add_image view.len stated at len c

catalog_entry : View → Bytes → Catalog → Catalog
catalog_entry view e c =
    let first = get_or e 0 0 in
    if first == 0x01 || first == 0x90 || first == 0x91
    then record { platform = get_or e 1 0; images = c.images; notes = c.notes }
    else if first == 0x88
    then bootable view e c
    else c

catalog_entries : View → ℕ → Bytes → Catalog → Catalog
catalog_entries view zero cat c = c
catalog_entries view (suc n) cat c =
    catalog_entries view n (drop 32 cat) (catalog_entry view (take 32 cat) c)

checked_catalog : Bytes → Result FatError Bytes
checked_catalog cat =
    if not (length cat == 2048)
    then err truncated_catalog
    else if not (get_or cat 0 0 == 0x01)
    then err no_validation_entry
    else ok cat

pub boot_images : View → ℕ → Result FatError (List BootImage × List BootNote)
boot_images view catalog_lba = reading (read_full_at view 2048 (catalog_lba * 2048)) >>= λ bytes.
    (checked_catalog bytes >>= λ cat.
    let c = catalog_entries view 64 cat (record { platform = 0; images = []; notes = [] }) in
    ok (c.images, c.notes))
