-- ===== src/Coord/Spellings.antt =====
-- What `Coord::parse` of src/coord.rs makes of each spelling, and what every answer satisfies.
use hashdex.Base.{
  ◌≡◌, refl, ap, ◌∙◌, true, none, Option-cases, [], ◌∷◌, ◌++◌, length, All, arith, ◌==◌,
  if◌then◌else◌, inl, inr, Bool-cases,
}
use hashdex.Base.Bytes.{Bytes, IsByte}
use hashdex.Base.Outcome.{Result, ok, err, ◌>>=◌}
use hashdex.Base.Text.{
  Text, codes, all_of, all_of_imp, is_ascii_hexdigit, is_visible, hexdigit-visible, trim, trim_id,
  contains-all_of, split_once, split_once-none, strip_prefix,
}
use hashdex.Coord.{
  Scheme, md5, sha1, sha256, sha512, sha1_git, digest_len, Coord, Error, no_such_length,
  wrong_length, new, infer, hex_lower, decode_hex, Decoders, parse, trimmed, plain, bare, is_base32,
  sri, prefixed, from_prefix,
}
use hashdex.Coord.Hex.{hex_lower-hexdigits, decode_hex-hex_lower}

abbrev Right : Coord → Type 0
Right c = length c.digest ≡ digest_len c.scheme

new-Right : (s : Scheme) (bs : Bytes) (c : Coord) → new s bs ≡ ok c → Right c
unfolding new
new-Right s bs c h = ground arith

infer-Right : (bs : Bytes) (c : Coord) → infer bs ≡ ok c → Right c
unfolding infer
infer-Right bs c h =
    ground
      (arith, new-Right md5 bs c, new-Right sha1 bs c, new-Right sha256 bs c, new-Right sha512 bs c)

then_new : (s : Scheme) (r : Result Error Bytes) (c : Coord) → (r >>= new s) ≡ ok c → Right c
then_new s (ok bs) c h = new-Right s bs c h
then_new s (err e) c h = cc

prefixed-Right : (p : Text × Text) (c : Coord) → prefixed p ≡ ok c → Right c
unfolding prefixed
prefixed-Right (prefix, rest) c h = elim (Option-cases (from_prefix prefix)) [
  | inl e ↦ cc (rw (e, prefixed) at h)
  | inr (s, e) ↦ then_new s (decode_hex rest) c (rw (e, prefixed) at h)
]

then_infer : (r : Result Error Bytes) (c : Coord) → (r >>= infer) ≡ ok c → Right c
then_infer (ok bs) c h = infer-Right bs c h
then_infer (err e) c h = cc

bare-Right : (d : Decoders) (s : Text) (c : Coord) → bare d s ≡ ok c → Right c
unfolding bare
bare-Right d s c h = elim (Bool-cases (is_base32 s)) [
  | inl b ↦ elim (Option-cases (d.base32 s)) [
    | inl e ↦ cc (rw (b, e) at h)
    | inr (bs, e) ↦ new-Right sha1 bs c (rw (b, e) at h)
  ]
  | inr b ↦ then_infer (decode_hex s) c (rw b at h)
]

plain-Right : (d : Decoders) (s : Text) (c : Coord) → plain d s ≡ ok c → Right c
unfolding plain
plain-Right d s c h = elim (Option-cases (split_once b':' s)) [
  | inl e ↦ bare-Right d s c (rw (e, plain) at h)
  | inr (p, e) ↦ prefixed-Right p c (rw (e, plain) at h)
]

trimmed-Right : (d : Decoders) (s : Text) (c : Coord) → trimmed d s ≡ ok c → Right c
unfolding trimmed
trimmed-Right d s c h = elim (Option-cases (strip_prefix (codes "swh:1:cnt:") s)) [
  | inr (rest, e) ↦ then_new sha1_git (decode_hex rest) c (rw (e, trimmed) at h)
  | inl e ↦ elim (Option-cases (sri d s)) [
    | inl n ↦ plain-Right d s c (rw (e, n, trimmed) at h)
    | inr ((scheme, bs), n) ↦ new-Right scheme bs c (rw (e, n, trimmed) at h)
  ]
]

-- Whatever the text and the decoders, a coordinate that `parse` returns has the digest length of its
-- scheme.
parse_right_length :
    (d : Decoders) (s : Text) (c : Coord) → parse d s ≡ ok c → length c.digest ≡ digest_len c.scheme
unfolding parse
parse_right_length d s c h = trimmed-Right d (trim s) c h

no_swhid :
    (s : Text) → all_of is_ascii_hexdigit s ≡ true → strip_prefix (codes "swh:1:cnt:") s ≡ none
no_swhid [] h = refl
no_swhid (c ∷ cs) h = ground arith

module _ (d : Decoders) (s : Text) (digits : all_of is_ascii_hexdigit s ≡ true) where
  sri-none : sri d s ≡ none
  unfolding sri
  sri-none = rw (split_once-none b'-' s (contains-all_of is_ascii_hexdigit b'-' s refl digits), sri)

  bare_digits : bare d s ≡ (decode_hex s >>= infer)
  unfolding bare is_base32
  bare_digits = ground arith

  plain_digits : plain d s ≡ (decode_hex s >>= infer)
  unfolding plain
  plain_digits =
      rw (split_once-none b':' s (contains-all_of is_ascii_hexdigit b':' s refl digits), plain)
        bare_digits

  parse_digits : parse d s ≡ (decode_hex s >>= infer)
  unfolding parse trimmed
  parse_digits =
      rw (trim_id s (all_of_imp is_ascii_hexdigit is_visible s hexdigit-visible digits))
        (rw (no_swhid s digits, trimmed) (rw (sri-none, trimmed) plain_digits))

abbrev coord : Scheme → Bytes → Coord
coord s bs = record { scheme = s; digest = bs }

infer_lem :
    (bs : Bytes)
    → infer bs ≡ (
        if length bs == 16
        then ok (coord md5 bs)
        else if length bs == 20
        then ok (coord sha1 bs)
        else if length bs == 32
        then ok (coord sha256 bs)
        else if length bs == 64
        then ok (coord sha512 bs)
        else err (no_such_length (length bs)))
unfolding infer new digest_len
infer_lem bs = ground arith

-- The bare hexadecimal form of any bytes parses by their number alone: 16, 20, 32 and 64 bytes are
-- an md5, a sha1, a sha256 and a sha512, and any other number is an error.
parse-hex_lower :
    (d : Decoders) (bs : Bytes)
    → All IsByte bs
    → parse d (hex_lower bs) ≡ (
        if length bs == 16
        then ok (coord md5 bs)
        else if length bs == 20
        then ok (coord sha1 bs)
        else if length bs == 32
        then ok (coord sha256 bs)
        else if length bs == 64
        then ok (coord sha512 bs)
        else err (no_such_length (length bs)))
parse-hex_lower d bs h =
    parse_digits d (hex_lower bs) (hex_lower-hexdigits bs h)
    ∙ ap (λ r. r >>= infer) (decode_hex-hex_lower bs h)
    ∙ infer_lem bs

-- A SWHID of a content names a git blob: 20 bytes are accepted, and any other number is refused.
parse_swhid :
    (d : Decoders) (bs : Bytes)
    → All IsByte bs
    → parse d (codes "swh:1:cnt:" ++ hex_lower bs) ≡ (
        if length bs == 20 then ok (coord sha1_git bs) else err (wrong_length (length bs) sha1_git))
unfolding parse trimmed
parse_swhid d bs h =
    rw
      (trim_id (codes "swh:1:cnt:" ++ hex_lower bs) (
        all_of_imp is_ascii_hexdigit is_visible (hex_lower bs) hexdigit-visible
          (hex_lower-hexdigits bs h)))
      (rw (decode_hex-hex_lower bs h) (unfold new digest_len in ground arith))
