-- ===== src/Fat/Boot/Images.antt =====
-- src/fat.rs: boot images lie within the image that names them.
use hashdex.Base.{
  ℕ, zero, suc, ◌+◌, ◌-◌, ◌*◌, ◌≤◌, ◌<◌, ◌≡◌, ap, inl, inr, ◌||◌, List, [], ◌∷◌, take, drop, get_or,
  All, All-append, leb, ltb, ◌==◌, arith, Bool-cases,
}
use mathlib.Core.Path.{subst}
use hashdex.Base.Bytes.{Bytes}
use hashdex.Base.Outcome.{Result, ok, ◌>>=◌, ok-injective, >>=-eq-ok}
use hashdex.View.{View, slice, read_full_at}
use hashdex.Fat.{FatError, reading, le16, le32, open_fat}
use hashdex.Fat.Boot.{
  BootImage, BootNote, Catalog, own_length, image_name, add_image, bootable, catalog_entry,
  catalog_entries, checked_catalog, boot_images,
}

-- An image that is not empty and ends within the view.
abbrev pub ImageInside : View → BootImage → Type 0
ImageInside v i = (0 < i.len) × (i.at + i.len ≤ v.len)

module _ (v : View) where
  add_image-inside :
      (stated at len : ℕ) (c : Catalog)
      → All (ImageInside v) c.images
      → All (ImageInside v) (add_image v.len stated at len c).images
  unfolding add_image
  add_image-inside stated at len c h = elim (Bool-cases (len == 0 || ltb v.len (at + len))) [
    | inl p ↦ rw p h
    | inr p ↦ rw p (
        All-append (ImageInside v) c.images
          (record { name = image_name c.platform; at = at; len = len } ∷ []) h
          ((ground arith, ground arith), tt))
  ]

  catalog_entry-inside :
      (e : Bytes) (c : Catalog)
      → All (ImageInside v) c.images
      → All (ImageInside v) (catalog_entry v e c).images
  unfolding catalog_entry bootable
  catalog_entry-inside e c h =
      let first = get_or e 0 0 in
      let at = le32 e 8 * 2048 in
      let stated = le16 e 6 * 512 in
      elim (Bool-cases (first == 0x01 || first == 0x90 || first == 0x91)) [
        | inl p ↦ rw p h
        | inr p ↦ elim (Bool-cases (first == 0x88)) [
          | inr q ↦ rw (p, q) h
          | inl q ↦ elim (Bool-cases (leb v.len at)) [
            | inl r ↦ rw (p, q, r) h
            | inr r ↦
                rw (p, q, r)
                  (add_image-inside stated at
                    (own_length stated at v.len (open_fat (slice v ((at, v.len - at) ∷ [])))) c h)
          ]
        ]
      ]

  catalog_entries-inside :
      (n : ℕ) (cat : Bytes) (c : Catalog)
      → All (ImageInside v) c.images
      → All (ImageInside v) (catalog_entries v n cat c).images
  unfolding catalog_entries
  catalog_entries-inside zero cat c h = h
  catalog_entries-inside (suc n) cat c h =
      catalog_entries-inside n (drop 32 cat) (catalog_entry v (take 32 cat) c)
        (catalog_entry-inside (take 32 cat) c h)

  -- Every boot image that the catalog yields is not empty and ends within the view, whatever lengths
  -- the catalog and the image's own filesystem state.
  pub boot_images-inside :
      (lba : ℕ) (images : List BootImage) (notes : List BootNote)
      → boot_images v lba ≡ ok (images, notes)
      → All (ImageInside v) images
  unfolding boot_images
  boot_images-inside lba images notes e =
      let empty : Catalog = record { platform = 0; images = []; notes = [] } in
      let collected = λ (cat : Bytes).
        let c = catalog_entries v 64 cat empty in
        let r : Result FatError (List BootImage × List BootNote) = ok (c.images, c.notes) in r in
      let (bytes, got, rest) =
        >>=-eq-ok (reading (read_full_at v 2048 (lba * 2048)))
          (λ bytes. (checked_catalog bytes >>= collected)) (images, notes) e in
      let (cat, valid, last) = >>=-eq-ok (checked_catalog bytes) collected (images, notes) rest in
      let c = catalog_entries v 64 cat empty in
      let same : c.images ≡ images =
        ap (λ p. p.0) (ok-injective (c.images, c.notes) (images, notes) last) in
      subst (All (ImageInside v)) same (catalog_entries-inside 64 cat empty tt)
