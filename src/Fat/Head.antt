-- ===== src/Fat/Head.antt =====
-- src/fat.rs: `looks_like` reads no more than a boot sector.
use hashdex.Base.{
  ℕ, ◌+◌, ◌-◌, ◌*◌, ◌≤◌, ◌<◌, min, ◌≡◌, refl, ap, ap₂, ◌∙◌, [], ◌∷◌, length, take, drop, get_or,
  ltb, arith, length-take, get_or-take,
}
use hashdex.Base.Bytes.{Bytes}
use hashdex.Base.Slices.{take-take, take_at, drop-take}
use hashdex.Base.Text.{text_eq}
use hashdex.Fat.{le16, fat_name, signature, sane_tables, looks_like}

module _ (n : ℕ) (head : Bytes) (enough : 512 ≤ n) where
  byte : (i : ℕ) → i < 512 → get_or (take n head) i 0 ≡ get_or head i 0
  byte i h = get_or-take n i head 0 (omega arith)

  le16-take : (i : ℕ) → i + 1 < 512 → le16 (take n head) i ≡ le16 head i
  unfolding le16
  le16-take i h = ap₂ (λ a b. a + 256 * b) (byte i (omega arith)) (byte (i + 1) h)

  fat_name-take : (at : ℕ) → at + 3 ≤ 512 → fat_name (take n head) at ≡ fat_name head at
  fat_name-take at h =
      ap (λ t. text_eq t (70 ∷ 65 ∷ 84 ∷ []))
        (ap (take 3) (drop-take at n head)
          ∙ take-take 3 (n - at) (drop at head)
          ∙ take_at (min 3 (n - at)) 3 (drop at head) (omega arith))

  long_enough : ltb (length (take n head)) 512 ≡ ltb (length head) 512
  long_enough = ap (λ k. ltb k 512) (length-take n head) ∙ ground arith

  signature-take : signature (take n head) ≡ signature head
  unfolding signature
  signature-take =
      rw (long_enough, byte 510 (omega arith), byte 511 (omega arith), byte 0 (omega arith)) refl

  sane_tables-take : sane_tables (take n head) ≡ sane_tables head
  unfolding sane_tables
  sane_tables-take =
      rw
        (
          le16-take 14 (omega arith),
          byte 16 (omega arith),
          byte 21 (omega arith),
          fat_name-take 54 (omega arith),
          fat_name-take 82 (omega arith),
        )
        refl

  pub looks_like-take : looks_like (take n head) ≡ looks_like head
  unfolding looks_like
  looks_like-take =
      rw (signature-take, le16-take 11 (omega arith), byte 13 (omega arith), sane_tables-take) refl
