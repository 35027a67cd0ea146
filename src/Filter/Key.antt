-- ===== src/Filter/Key.antt =====
-- How src/filter.rs spells a digest as a key, and which file names it takes for filters. `hex_upper`
-- is that of src/scan_cmd.rs.
use mathlib.Core.Option.{some-injective}
use hashdex.Base.{
  ℕ, ◌+◌, ◌-◌, ◌*◌, ◌/◌, ◌%◌, ◌<◌, ◌≡◌, refl, ap, ap₂, sym, ◌∙◌, Option, none, some, List, [], ◌∷◌,
  All, arith, ltb, ◌==◌, if◌then◌else◌,
}
use hashdex.Base.Bytes.{Bytes, IsByte}
use hashdex.Base.Text.{Text, codes, text_eq}
use hashdex.Coord.{Scheme, md5, sha1, sha256, hex_lower, hex_pairs, hex_value}
use hashdex.Coord.Hex.{hex_pairs-hex_lower}

-- One nibble in upper case, as `{:X}` writes it.
abbrev upper_char : ℕ → ℕ
upper_char n = if ltb n 10 then b'0' + n else b'A' + (n - 10)

unfoldable pub hex_upper : Bytes → Text
hex_upper [] = []
hex_upper (b ∷ bs) = upper_char (b / 16) ∷ upper_char (b % 16) ∷ hex_upper bs

unfoldable pub bloom_key : Scheme → Bytes → Option Text
bloom_key md5 digest = some (hex_upper digest)
bloom_key sha1 digest = some (hex_upper digest)
bloom_key sha256 digest = some (hex_lower digest)
bloom_key _ digest = none

-- `split('.')`: the parts between the dots, one more than there are dots.
split_dots : Text → List Text
split_dots [] = [] ∷ []
split_dots (c ∷ cs) =
    let rest = split_dots cs in
    if c == b'.'
    then [] ∷ rest
    else elim rest [ [] ↦ (c ∷ []) ∷ [] | part ∷ parts ↦ (c ∷ part) ∷ parts ]

filter_scheme : Text → Option Scheme
filter_scheme s =
    if text_eq s (codes "md5")
    then some md5
    else if text_eq s (codes "sha1")
    then some sha1
    else if text_eq s (codes "sha256")
    then some sha256
    else none

-- The name and scheme of a file that `load_dir` opens; the other files are skipped.
named_parts : List Text → Option (Text × Scheme)
named_parts (name ∷ scheme ∷ suffix ∷ []) =
    if text_eq suffix (codes "bloom")
    then elim (filter_scheme scheme) [ none ↦ none | some s ↦ some (name, s) ]
    else none
named_parts _ = none

unfoldable pub filter_name : Text → Option (Text × Scheme)
unfolding split_dots named_parts filter_scheme
filter_name fname = named_parts (split_dots fname)

upper_value : (n : ℕ) → n < 16 → hex_value (upper_char n) ≡ n
upper_value n h = ground arith

hex_pairs-hex_upper : (bs : Bytes) → All IsByte bs → hex_pairs (hex_upper bs) ≡ bs
unfolding hex_pairs hex_upper
hex_pairs-hex_upper [] h = refl
hex_pairs-hex_upper (b ∷ bs) (h, hs) =
    ap₂ (λ x (xs : Bytes). x ∷ xs) byte (hex_pairs-hex_upper bs hs)
  where
    byte : hex_value (upper_char (b / 16)) * 16 + hex_value (upper_char (b % 16)) ≡ b
    byte = omega (arith, upper_value (b / 16) (omega arith), upper_value (b % 16) (omega arith))

-- The text that a key is read back from.
key_bytes :
    (s : Scheme) (bs : Bytes) (key : Text)
    → All IsByte bs
    → bloom_key s bs ≡ some key
    → hex_pairs key ≡ bs
unfolding bloom_key
key_bytes md5 bs key h e = ap hex_pairs (sym (some-injective _ _ e)) ∙ hex_pairs-hex_upper bs h
key_bytes sha1 bs key h e = ap hex_pairs (sym (some-injective _ _ e)) ∙ hex_pairs-hex_upper bs h
key_bytes sha256 bs key h e = ap hex_pairs (sym (some-injective _ _ e)) ∙ hex_pairs-hex_lower bs h
key_bytes _ bs key h e = cc

-- Two digests with the same key under one scheme are the same digest.
bloom_key_inj :
    (s : Scheme) (bs cs : Bytes) (key : Text)
    → All IsByte bs
    → All IsByte cs
    → bloom_key s bs ≡ some key
    → bloom_key s cs ≡ some key
    → bs ≡ cs
bloom_key_inj s bs cs key hb hc eb ec = sym (key_bytes s bs key hb eb) ∙ key_bytes s cs key hc ec
