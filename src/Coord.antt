-- ===== src/Coord.antt =====
-- src/coord.rs: hash schemes and coordinates, and the spellings that `Coord::parse` accepts.
--
-- `data_encoding`'s base64 and base32 decoders are parameters.
pub mod Hex
pub mod Display
pub mod Spellings
mod Tests
use hashdex.Base.{
  ℕ, zero, suc, ◌+◌, ◌-◌, ◌*◌, ◌/◌, ◌%◌, Bool, true, false, not, ◌&&◌, ◌||◌, Option, none, some,
  List, [], ◌∷◌, ◌++◌, map, length, ltb, leb, ◌==◌, if◌then◌else◌,
}
use hashdex.Base.Bytes.{Bytes}
use hashdex.Base.Outcome.{Result, ok, err, ◌>>=◌}
use hashdex.Base.Text.{
  Text, codes, within, trim, ascii_lowercase, text_eq, strip_prefix, split_once, contains, all_of,
  is_ascii_hexdigit, byte_len,
}

pub data Scheme : Type 0 where
  md5 sha1 sha256 sha512 sha1_git blake2s256 : Scheme

pub as_str : Scheme → Text
as_str md5 = codes "md5"
as_str sha1 = codes "sha1"
as_str sha256 = codes "sha256"
as_str sha512 = codes "sha512"
as_str sha1_git = codes "sha1_git"
as_str blake2s256 = codes "blake2s256"

unfoldable pub digest_len : Scheme → ℕ
digest_len md5 = 16
digest_len sha1 = 20
digest_len sha1_git = 20
digest_len sha256 = 32
digest_len blake2s256 = 32
digest_len sha512 = 64

-- The arms of the `match` in `from_prefix`, on the lower-case spelling.
scheme_named : Text → Option Scheme
scheme_named s =
    if text_eq s (codes "md5")
    then some md5
    else if text_eq s (codes "sha1") || text_eq s (codes "sha-1")
    then some sha1
    else if text_eq s (codes "sha256") || text_eq s (codes "sha-256")
    then some sha256
    else if text_eq s (codes "sha512") || text_eq s (codes "sha-512")
    then some sha512
    else if text_eq s (codes "sha1_git") || text_eq s (codes "sha1-git") || text_eq s (codes "git")
    then some sha1_git
    else if text_eq s (codes "blake2s256") || text_eq s (codes "blake2s")
    then some blake2s256
    else none

pub from_prefix : Text → Option Scheme
unfolding scheme_named
from_prefix s = scheme_named (map ascii_lowercase s)

pub record Coord : Type 0 where
  pub scheme : Scheme
  pub digest : Bytes

pub data Error : Type 0 where
  wrong_length : ℕ → Scheme → Error
  not_hex : Text → Error
  unknown_prefix : Text → Error
  invalid_base32 : Error
  no_such_length : ℕ → Error

pub new : Scheme → Bytes → Result Error Coord
unfolding digest_len
new scheme digest =
    if not (length digest == digest_len scheme)
    then err (wrong_length (length digest) scheme)
    else ok (record { scheme = scheme; digest = digest })

-- One nibble in lower case, as `{:x}` writes it.
abbrev pub hex_char : ℕ → ℕ
hex_char n = if ltb n 10 then b'0' + n else b'a' + (n - 10)

unfoldable pub hex_lower : Bytes → Text
hex_lower [] = []
hex_lower (b ∷ bs) = hex_char (b / 16) ∷ hex_char (b % 16) ∷ hex_lower bs

pub hex : Coord → Text
hex c = hex_lower c.digest

-- `fmt::Display`
pub display : Coord → Text
display c = as_str c.scheme ++ b':' ∷ hex c

-- The value of a hexadecimal digit.
abbrev pub hex_value : ℕ → ℕ
hex_value c = if leb b'a' c then c - b'a' + 10 else if leb b'A' c then c - b'A' + 10 else c - b'0'

-- `u8::from_str_radix(&s[i..i + 2], 16)` for each even `i`.
unfoldable pub hex_pairs : Text → Bytes
hex_pairs [] = []
hex_pairs (c ∷ []) = []
hex_pairs (c ∷ d ∷ rest) = (hex_value c * 16 + hex_value d) ∷ hex_pairs rest

pub decode_hex : Text → Result Error Bytes
unfolding hex_pairs
decode_hex input =
    let s = trim input in
    if not (byte_len s % 2 == 0) || not (all_of is_ascii_hexdigit s)
    then err (not_hex s)
    else ok (hex_pairs s)

-- Foreign decoders: `BASE64.decode` and `BASE32.decode`, on the bytes of a text.
pub record Decoders : Type 0 where
  pub base64 : Text → Option Bytes
  pub base32 : Text → Option Bytes

-- The scheme that a bare digest of this many bytes has.
pub infer : Bytes → Result Error Coord
unfolding new
infer bytes =
    if length bytes == 16
    then new md5 bytes
    else if length bytes == 20
    then new sha1 bytes
    else if length bytes == 32
    then new sha256 bytes
    else if length bytes == 64
    then new sha512 bytes
    else err (no_such_length (length bytes))

-- The SRI form, `none` where a condition of it fails and the next form is tried.
sri : Decoders → Text → Option (Scheme × Bytes)
sri d s = elim (split_once b'-' s) [
  | none ↦ none
  | some (prefix, b64) ↦ if contains b':' s then none else elim (from_prefix prefix) [
    | none ↦ none
    | some scheme ↦ elim (d.base64 b64) [
      | none ↦ none
      | some bytes ↦ if length bytes == digest_len scheme then some (scheme, bytes) else none
    ]
  ]
]

-- 32 characters of base32 that are not all hexadecimal.
pub is_base32 : Text → Bool
is_base32 s =
    byte_len s == 32
    && all_of (λ b. within b'A' b'Z' b || within b'2' b'7' b) s
    && not (all_of is_ascii_hexdigit s)

bare : Decoders → Text → Result Error Coord
bare d s =
    if is_base32 s
    then elim (d.base32 s) [ none ↦ err invalid_base32 | some bytes ↦ new sha1 bytes ]
    else do bytes ← decode_hex s; infer bytes

prefixed : Text × Text → Result Error Coord
prefixed (prefix, rest) = elim (from_prefix prefix) [
  | none ↦ err (unknown_prefix prefix)
  | some scheme ↦ (do bytes ← decode_hex rest; new scheme bytes)
]

-- The forms behind the SWHID and the SRI.
plain : Decoders → Text → Result Error Coord
plain d s = elim (split_once b':' s) [ none ↦ bare d s | some p ↦ prefixed p ]

trimmed : Decoders → Text → Result Error Coord
trimmed d s = elim (strip_prefix (codes "swh:1:cnt:") s) [
  | some rest ↦ (do bytes ← decode_hex rest; new sha1_git bytes)
  | none ↦ elim (sri d s) [ some (scheme, bytes) ↦ new scheme bytes | none ↦ plain d s ]
]

pub parse : Decoders → Text → Result Error Coord
parse d input = trimmed d (trim input)
