-- ===== src/Coord/Tests.antt =====
-- Runs of `Coord::parse` of src/coord.rs, some of them from the tests of that file, and the theorems
-- at concrete inputs.
use hashdex.Base.{◌≡◌, refl, some, [], ◌∷◌, arith, replicate}
use hashdex.Base.Bytes.{Bytes}
use hashdex.Base.Outcome.{ok, err}
use hashdex.Base.Text.{Text, codes, trim}
use hashdex.Coord.{
  sha1, sha1_git, Coord, digest_len, from_prefix, new, infer, display, decode_hex, Decoders, parse,
  trimmed, plain, bare, is_base32, sri, prefixed, unknown_prefix, not_hex,
}
use hashdex.Coord.Display.{parse-display}

-- Decoders that know no text but one.
abbrev decoders : Decoders
decoders = record { base64 = λ t. some (replicate 20 7); base32 = λ t. some (replicate 20 9) }

abbrev sevens : Bytes
sevens = replicate 20 7

abbrev twenty : Coord
twenty = record { scheme = sha1_git; digest = replicate 20 0xa7 }

abbrev Parses : Text → Coord → Type 0
Parses s c = parse decoders s ≡ ok c

parse_runs :
    Parses (codes " SHA-1:a9993e364706816aba3e25717850c26c9cd0d89d\n") (record {
      scheme = sha1;
      digest =
          0xa9 ∷ 0x99 ∷ 0x3e ∷ 0x36 ∷ 0x47 ∷ 0x06 ∷ 0x81 ∷ 0x6a ∷ 0xba ∷ 0x3e ∷ 0x25 ∷ 0x71 ∷ 0x78
          ∷ 0x50 ∷ 0xc2 ∷ 0x6c ∷ 0x9c ∷ 0xd0 ∷ 0xd8 ∷ 0x9d ∷ [];
    })
    × Parses
        (codes "3I42H3S6NNFQ2MSVX7XZKYAYSCX5QBYJ")
        (record { scheme = sha1; digest = replicate 20 9 })
    × Parses (codes "sha1-BwcH") (record { scheme = sha1; digest = sevens })
    × (parse decoders (codes "sha3:ba78") ≡ err (unknown_prefix (codes "sha3")))
    × (parse decoders (codes "abc") ≡ err (not_hex (codes "abc")))
unfolding parse trimmed plain bare sri prefixed from_prefix new infer decode_hex trim is_base32
parse_runs = (refl, refl, refl, refl, refl)

parse-display_example : parse decoders (display twenty) ≡ ok twenty
unfolding digest_len
parse-display_example =
    parse-display decoders twenty (record { bytes = omega arith; right_length = refl })
