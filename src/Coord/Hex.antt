-- ===== src/Coord/Hex.antt =====
-- The hexadecimal codec of src/coord.rs.
use hashdex.Base.{
  ℕ, ◌+◌, ◌*◌, ◌/◌, ◌%◌, ◌<◌, ◌≡◌, refl, ap, ap₂, ◌∙◌, true, [], ◌∷◌, length, All, arith,
}
use hashdex.Base.Bytes.{Bytes, IsByte}
use hashdex.Base.Outcome.{ok}
use hashdex.Base.Text.{
  Text, all_of, all_of_imp, is_ascii_hexdigit, is_visible, hexdigit-visible, trim_id,
  byte_len-hexdigits,
}
use hashdex.Coord.{hex_char, hex_lower, hex_value, hex_pairs, decode_hex}

pub hex_value-hex_char : (n : ℕ) → n < 16 → hex_value (hex_char n) ≡ n
hex_value-hex_char n h = ground arith

pub hex_char_digit : (n : ℕ) → n < 16 → is_ascii_hexdigit (hex_char n) ≡ true
hex_char_digit n h = ground arith

-- Hexadecimal text reads back as the bytes that it was written from.
pub hex_pairs-hex_lower : (bs : Bytes) → All IsByte bs → hex_pairs (hex_lower bs) ≡ bs
unfolding hex_pairs hex_lower
hex_pairs-hex_lower [] h = refl
hex_pairs-hex_lower (b ∷ bs) (h, hs) =
    ap₂ (λ x (xs : Bytes). x ∷ xs) byte (hex_pairs-hex_lower bs hs)
  where
    byte : hex_value (hex_char (b / 16)) * 16 + hex_value (hex_char (b % 16)) ≡ b
    byte = omega (
      arith,
      hex_value-hex_char (b / 16) (omega arith),
      hex_value-hex_char (b % 16) (omega arith),
    )

pub hex_lower-hexdigits :
    (bs : Bytes) → All IsByte bs → all_of is_ascii_hexdigit (hex_lower bs) ≡ true
unfolding hex_lower
hex_lower-hexdigits [] h = refl
hex_lower-hexdigits (b ∷ bs) (h, hs) =
    rw (hex_char_digit (b / 16) (omega arith))
      (rw (hex_char_digit (b % 16) (omega arith)) (hex_lower-hexdigits bs hs))

pub length-hex_lower : (bs : Bytes) → length (hex_lower bs) ≡ length bs * 2
unfolding hex_lower
length-hex_lower [] = refl
length-hex_lower (b ∷ bs) = omega (arith, length-hex_lower bs)

-- On hexadecimal text of even length `decode_hex` gives the pairs.
pub decode_hex-hexdigits :
    (s : Text)
    → all_of is_ascii_hexdigit s ≡ true
    → length s % 2 ≡ 0
    → decode_hex s ≡ ok (hex_pairs s)
unfolding decode_hex
decode_hex-hexdigits s h even =
    rw (trim_id s (all_of_imp is_ascii_hexdigit is_visible s hexdigit-visible h))
      (ground (arith, byte_len-hexdigits s h))

pub decode_hex-hex_lower : (bs : Bytes) → All IsByte bs → decode_hex (hex_lower bs) ≡ ok bs
decode_hex-hex_lower bs h =
    decode_hex-hexdigits (hex_lower bs) (hex_lower-hexdigits bs h)
      (omega (arith, length-hex_lower bs))
    ∙ ap ok (hex_pairs-hex_lower bs h)
