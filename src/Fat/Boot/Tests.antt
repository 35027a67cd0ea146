-- ===== src/Fat/Boot/Tests.antt =====
-- The boot catalog of src/fat.rs at a small image.
use hashdex.Base.{◌≡◌, refl, List, [], ◌∷◌, ◌++◌, All, replicate}
use hashdex.Base.Bytes.{Bytes}
use hashdex.Base.Text.{codes}
use hashdex.Base.Outcome.{ok}
use hashdex.View.{
  View, mem, mapped, logical_len, new, slice, slice_ranges, slice_range, read_full_at,
  read_full_loop, read_at_logical, read_at, starting_by,
}
use hashdex.Fat.{le16, le32, open_fat, open_boot, looks_like}
use hashdex.Fat.Sample.{with_bytes}
use hashdex.Fat.Boot.{
  BootImage, boot_images, catalog_entries, catalog_entry, bootable, own_length, add_image,
  image_name, checked_catalog,
}
use hashdex.Fat.Boot.Images.{ImageInside, boot_images-inside}

-- A catalog for EFI with one image of 512 bytes, at block 1.
abbrev iso : Bytes
iso =
    with_bytes (replicate 2048 0) ((0, 1) ∷ (1, 0xEF) ∷ (32, 0x88) ∷ (38, 1) ∷ (40, 1) ∷ [])
    ++ replicate 1024 5

abbrev view : View
view = new (mem iso) ((0, 3072) ∷ [])

abbrev efi : List BootImage
efi = record { name = codes "efi.img"; at = 2048; len = 512 } ∷ []

booted : boot_images view 0 ≡ ok (efi, [])
unfolding boot_images catalog_entries catalog_entry bootable own_length add_image image_name
    checked_catalog le16 le32 open_fat open_boot looks_like mapped logical_len new slice
    slice_ranges slice_range read_full_at read_full_loop read_at_logical read_at starting_by
booted = refl

boot_images-inside_example : All (ImageInside view) efi
boot_images-inside_example = boot_images-inside view 0 efi [] booted
