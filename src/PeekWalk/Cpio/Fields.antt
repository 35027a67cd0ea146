-- ===== src/PeekWalk/Cpio/Fields.antt =====
-- src/peek_walk.rs: `cpio_header` on the headers that archives are written with.
use hashdex.Base.{
  ℕ, zero, suc, ◌+◌, ◌-◌, ◌*◌, ◌/◌, ◌%◌, ◌^◌, ◌<◌, ◌≡◌, refl, sym, ap, ◌∙◌, inl, inr, Bool, true,
  false, ◌&&◌, not, none, some, [], ◌∷◌, ◌++◌, length, take, drop, replicate, ◌==◌, if◌then◌else◌,
  arith, length-append, Bool-cases,
}
use native.Mathlib.Nat.{pow-suc}
use hashdex.Base.Bytes.{Bytes, take-append_length, drop-append_length}
use hashdex.Base.Slices.{drop-drop}
use hashdex.Base.Outcome.{Result, ok}
use hashdex.Base.Text.{Text, codes, is_ascii_hexdigit, all_of, all_of-append}
use hashdex.Coord.{hex_char, hex_value}
use hashdex.Coord.Hex.{hex_value-hex_char, hex_char_digit}
use hashdex.PeekWalk.{has_prefix}
use hashdex.PeekWalk.Cpio.{
  WalkError, CpioHeader, radix_digits, from_str_radix, field_or, hexfield, trim_dot_slash,
  name_padded, cpio_header, round4,
}

-- A number in so many hexadecimal digits, as the writers of archives put it.
unfoldable pub hex_fixed : ℕ → ℕ → Bytes
hex_fixed zero x = []
hex_fixed (suc n) x = hex_fixed n (x / 16) ++ hex_char (x % 16) ∷ []

-- A member of an archive in the "newc" format, or in the one with checksums.
pub record Stored : Type 0 where
  pub checked : Bool
  pub inode : Bytes
  pub mode : ℕ
  pub owners : Bytes
  pub devices : Bytes
  pub check : Bytes
  pub name : Bytes
  pub contents : Bytes

abbrev pub magic : Bool → Bytes
magic b = if b then codes "070702" else codes "070701"

-- What stands from the length of the name, from the size and from the mode on.
abbrev last_part : Stored → Bytes
last_part e = hex_fixed 8 (length e.name + 1) ++ e.check

abbrev size_part : Stored → Bytes
size_part e = hex_fixed 8 (length e.contents) ++ (e.devices ++ last_part e)

abbrev mode_part : Stored → Bytes
mode_part e = hex_fixed 8 e.mode ++ (e.owners ++ size_part e)

unfoldable pub header_bytes : Stored → Bytes
header_bytes e = magic e.checked ++ (e.inode ++ mode_part e)

abbrev pub name_field : Stored → Bytes
name_field e = e.name ++ replicate (name_padded (length e.name + 1) - length e.name) 0

abbrev pub data_field : Stored → Bytes
data_field e = e.contents ++ replicate (round4 (length e.contents) - length e.contents) 0

pub record IsStored (e : Stored) : Type 0 where
  pub inode_len : length e.inode ≡ 8
  pub owners_len : length e.owners ≡ 32
  pub devices_len : length e.devices ≡ 32
  pub check_len : length e.check ≡ 8
  pub mode_small : e.mode < 16 ^ 8
  pub name_small : length e.name + 1 < 16 ^ 8
  pub data_small : length e.contents < 16 ^ 8

length-hex_fixed : (n x : ℕ) → length (hex_fixed n x) ≡ n
unfolding hex_fixed
length-hex_fixed zero x = refl
length-hex_fixed (suc n) x = omega (
  arith,
  length-append (hex_fixed n (x / 16)) (hex_char (x % 16) ∷ []),
  length-hex_fixed n (x / 16),
)

length-magic : (b : Bool) → length (magic b) ≡ 6
length-magic true = refl
length-magic false = refl

radix_digits-snoc :
    (acc v c : ℕ) (s : Bytes)
    → radix_digits acc s ≡ some v
    → is_ascii_hexdigit c ≡ true
    → radix_digits acc (s ++ c ∷ []) ≡ some (v * 16 + hex_value c)
unfolding radix_digits
radix_digits-snoc acc v c [] h d =
    let e : acc ≡ v = cc in rw d (ap (λ a. some (a * 16 + hex_value c)) e)
radix_digits-snoc acc v c (b ∷ s) h d = elim (Bool-cases (is_ascii_hexdigit b)) [
  | inl t ↦
      let h' : radix_digits (acc * 16 + hex_value b) s ≡ some v =
        sym (ap (λ t. if t then radix_digits (acc * 16 + hex_value b) s else none) t) ∙ h in
      rw t (radix_digits-snoc (acc * 16 + hex_value b) v c s h' d)
  | inr t ↦
      let bad : none ≡ some v =
        sym (ap (λ t. if t then radix_digits (acc * 16 + hex_value b) s else none) t) ∙ h in
      cc
]

radix_digits-hex_fixed : (n x : ℕ) → x < 16 ^ n → radix_digits 0 (hex_fixed n x) ≡ some x
unfolding hex_fixed radix_digits
radix_digits-hex_fixed zero x h = ap some (omega arith)
radix_digits-hex_fixed (suc n) x h =
    let d = x % 16 in
    radix_digits-snoc 0 (x / 16) (hex_char d) (hex_fixed n (x / 16))
      (radix_digits-hex_fixed n (x / 16) (omega (arith, pow-suc 16 n)))
      (hex_char_digit d (omega arith))
    ∙ ap some (omega (arith, hex_value-hex_char d (omega arith)))

hex_fixed-digits : (n x : ℕ) → all_of is_ascii_hexdigit (hex_fixed n x) ≡ true
unfolding hex_fixed
hex_fixed-digits zero x = refl
hex_fixed-digits (suc n) x =
    all_of-append is_ascii_hexdigit (hex_fixed n (x / 16)) (hex_char (x % 16) ∷ [])
      (hex_fixed-digits n (x / 16)) (rw (hex_char_digit (x % 16) (omega arith)) refl)

from_str_radix-digits :
    (s : Bytes)
    → 0 < length s
    → all_of is_ascii_hexdigit s ≡ true
    → from_str_radix s ≡ radix_digits 0 s
unfolding from_str_radix
from_str_radix-digits [] p h = absurd (omega arith)
from_str_radix-digits (c ∷ cs) p h = let plus : (c == b'+') ≡ false = ground arith in rw plus refl

from_str_radix-hex_fixed :
    (n x : ℕ) → x < 16 ^ suc n → from_str_radix (hex_fixed (suc n) x) ≡ some x
from_str_radix-hex_fixed n x h =
    from_str_radix-digits (hex_fixed (suc n) x) (omega (arith, length-hex_fixed (suc n) x))
      (hex_fixed-digits (suc n) x)
    ∙ radix_digits-hex_fixed (suc n) x h

-- A field that stands where it is read.
hexfield_lem :
    (hdr rest : Bytes) (i x off : ℕ)
    → off ≡ 6 + i * 8
    → drop off hdr ≡ hex_fixed 8 x ++ rest
    → x < 16 ^ 8
    → hexfield hdr i ≡ ok x
unfolding hexfield
hexfield_lem hdr rest i x off e at h =
    ap (λ t. field_or (from_str_radix (take 8 t))) (ap (λ k. drop k hdr) (sym e) ∙ at)
    ∙ ap (λ t. field_or (from_str_radix t))
        (take-append_length 8 (hex_fixed 8 x) rest (length-hex_fixed 8 x))
    ∙ ap field_or (from_str_radix-hex_fixed 7 x h)

module _ (e : Stored) (h : IsStored e) where
  length-size_part : length (size_part e) ≡ 56
  length-size_part = omega (
    arith,
    length-append (hex_fixed 8 (length e.contents)) (e.devices ++ last_part e),
    length-hex_fixed 8 (length e.contents),
    length-append e.devices (last_part e),
    h.devices_len,
    length-append (hex_fixed 8 (length e.name + 1)) e.check,
    length-hex_fixed 8 (length e.name + 1),
    h.check_len,
  )

  pub length-header_bytes : length (header_bytes e) ≡ 110
  unfolding header_bytes
  length-header_bytes = omega (
    arith,
    length-append (magic e.checked) (e.inode ++ mode_part e),
    length-magic e.checked,
    length-append e.inode (mode_part e),
    h.inode_len,
    length-append (hex_fixed 8 e.mode) (e.owners ++ size_part e),
    length-hex_fixed 8 e.mode,
    length-append e.owners (size_part e),
    h.owners_len,
    length-size_part,
  )

  drop-mode : drop 14 (header_bytes e) ≡ mode_part e
  unfolding header_bytes
  drop-mode =
      drop-append_length 6 8 14 (magic e.checked) (e.inode ++ mode_part e) (length-magic e.checked)
        refl
      ∙ drop-append_length 8 0 8 e.inode (mode_part e) h.inode_len refl

  drop-size : drop 54 (header_bytes e) ≡ size_part e
  drop-size =
      sym (drop-drop 40 14 (header_bytes e))
      ∙ ap (drop 40) drop-mode
      ∙ drop-append_length 8 32 40 (hex_fixed 8 e.mode) (e.owners ++ size_part e)
          (length-hex_fixed 8 e.mode) refl
      ∙ drop-append_length 32 0 32 e.owners (size_part e) h.owners_len refl

  drop-last : drop 94 (header_bytes e) ≡ last_part e
  drop-last =
      sym (drop-drop 40 54 (header_bytes e))
      ∙ ap (drop 40) drop-size
      ∙ drop-append_length 8 32 40 (hex_fixed 8 (length e.contents)) (e.devices ++ last_part e)
          (length-hex_fixed 8 (length e.contents)) refl
      ∙ drop-append_length 32 0 32 e.devices (last_part e) h.devices_len refl

  mode_field : hexfield (header_bytes e) 1 ≡ ok e.mode
  mode_field =
      hexfield_lem (header_bytes e) (e.owners ++ size_part e) 1 e.mode 14 refl drop-mode
        h.mode_small

  size_field : hexfield (header_bytes e) 6 ≡ ok (length e.contents)
  size_field =
      hexfield_lem (header_bytes e) (e.devices ++ last_part e) 6 (length e.contents) 54 refl
        drop-size h.data_small

  namesize_field : hexfield (header_bytes e) 11 ≡ ok (length e.name + 1)
  namesize_field =
      hexfield_lem (header_bytes e) e.check 11 (length e.name + 1) 94 refl drop-last h.name_small

  magic_ok :
      (not (has_prefix (codes "070701") (header_bytes e))
        && not (has_prefix (codes "070702") (header_bytes e)))
      ≡ false
  unfolding has_prefix header_bytes
  magic_ok = go e.checked
    where
      go :
          (b : Bool)
          → (not (has_prefix (codes "070701") (magic b ++ (e.inode ++ mode_part e)))
              && not (has_prefix (codes "070702") (magic b ++ (e.inode ++ mode_part e))))
            ≡ false
      go true = refl
      go false = refl

-- The header that is read of a stored member.
abbrev pub header_of : (Bytes → Text) → Stored → ℕ → CpioHeader
header_of lossy e after = record {
  mode = e.mode;
  filesize = length e.contents;
  name = trim_dot_slash (lossy e.name);
  after = after;
}

-- `cpio_header` reads the fields of a stored member back, where the name is read to its padded length.
pub cpio_header-header_bytes :
    (lossy : Bytes → Text) (e : Stored) (read_name : ℕ → Result WalkError (Bytes × ℕ)) (after : ℕ)
    → IsStored e
    → read_name (name_padded (length e.name + 1)) ≡ ok (name_field e, after)
    → cpio_header lossy (header_bytes e) read_name ≡ ok (some (header_of lossy e after))
unfolding cpio_header
cpio_header-header_bytes lossy e read_name after h r =
    rw (magic_ok e h, mode_field e h, size_field e h, namesize_field e h, r)
      (ap
        (λ t. ok (
          some (record {
            mode = e.mode;
            filesize = length e.contents;
            name = trim_dot_slash (lossy t);
            after = after;
          })))
        (ap (λ k. take k (name_field e)) (omega arith)
          ∙ take-append_length (length e.name) e.name
              (replicate (name_padded (length e.name + 1) - length e.name) 0) refl))
