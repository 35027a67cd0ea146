-- ===== src/Coord/Display.antt =====
-- What `Display` prints, `Coord::parse` of src/coord.rs reads back.
use hashdex.Base.{◌≡◌, refl, true, false, none, some, ◌∷◌, ◌++◌, length, All, arith}
use hashdex.Base.Bytes.{Bytes, IsByte}
use hashdex.Base.Outcome.{ok}
use hashdex.Base.Text.{
  Text, codes, all_of, all_of_imp, all_of-append, is_ascii_hexdigit, is_visible, hexdigit-visible,
  trim_id, contains, contains-append, contains-all_of, split_once-none, split_once-append,
  strip_prefix,
}
use hashdex.Coord.{
  Scheme, md5, sha1, sha256, sha512, sha1_git, blake2s256, as_str, digest_len, from_prefix, Coord,
  new, hex, hex_lower, display, Decoders, parse, trimmed, plain, sri, prefixed,
}
use hashdex.Coord.Hex.{hex_lower-hexdigits, decode_hex-hex_lower}

-- A coordinate as `Coord::new` makes it: its digest is bytes, as many as its scheme has.
pub record IsCoord (c : Coord) : Type 0 where
  pub bytes : All IsByte c.digest
  pub right_length : length c.digest ≡ digest_len c.scheme

-- What the forms test of a scheme's name.
record Name (s : Scheme) : Type 0 where
  visible : all_of is_visible (as_str s) ≡ true
  no_dash : contains b'-' (as_str s) ≡ false
  no_colon : contains b':' (as_str s) ≡ false
  known : from_prefix (as_str s) ≡ some s
  no_swhid : (rest : Text) → strip_prefix (codes "swh:1:cnt:") (as_str s ++ rest) ≡ none

names : (s : Scheme) → Name s
unfolding as_str from_prefix
names md5 = record {
  visible = refl;
  no_dash = refl;
  no_colon = refl;
  known = refl;
  no_swhid = λ r. refl;
}
names sha1 = record {
  visible = refl;
  no_dash = refl;
  no_colon = refl;
  known = refl;
  no_swhid = λ r. refl;
}
names sha256 = record {
  visible = refl;
  no_dash = refl;
  no_colon = refl;
  known = refl;
  no_swhid = λ r. refl;
}
names sha512 = record {
  visible = refl;
  no_dash = refl;
  no_colon = refl;
  known = refl;
  no_swhid = λ r. refl;
}
names sha1_git = record {
  visible = refl;
  no_dash = refl;
  no_colon = refl;
  known = refl;
  no_swhid = λ r. refl;
}
names blake2s256 = record {
  visible = refl;
  no_dash = refl;
  no_colon = refl;
  known = refl;
  no_swhid = λ r. refl;
}

new_right :
    (s : Scheme) (bs : Bytes)
    → length bs ≡ digest_len s
    → new s bs ≡ ok (record { scheme = s; digest = bs })
unfolding new
new_right s bs h = ground arith

module _ (d : Decoders) (s : Scheme) (bs : Bytes) (fits : All IsByte bs)
    (len : length bs ≡ digest_len s) where
  printed : Text
  printed = as_str s ++ b':' ∷ hex_lower bs

  printed-visible : all_of is_visible printed ≡ true
  unfolding printed
  printed-visible = all_of-append is_visible (as_str s) (b':' ∷ hex_lower bs) (names s).visible (
      all_of_imp is_ascii_hexdigit is_visible (hex_lower bs) hexdigit-visible
        (hex_lower-hexdigits bs fits))

  printed_no_dash : contains b'-' printed ≡ false
  unfolding printed
  printed_no_dash =
      contains-append b'-' (as_str s) (b':' ∷ hex_lower bs) (names s).no_dash
        (contains-all_of is_ascii_hexdigit b'-' (hex_lower bs) refl (hex_lower-hexdigits bs fits))

  prefixed_right : prefixed (as_str s, hex_lower bs) ≡ ok (record { scheme = s; digest = bs })
  unfolding prefixed
  prefixed_right =
      rw ((names s).known, prefixed) (rw (decode_hex-hex_lower bs fits) (new_right s bs len))

  plain_right : plain d printed ≡ ok (record { scheme = s; digest = bs })
  unfolding plain printed
  plain_right =
      rw (split_once-append b':' (as_str s) (hex_lower bs) (names s).no_colon, plain) prefixed_right

  sri-none : sri d printed ≡ none
  unfolding sri
  sri-none = rw (split_once-none b'-' printed printed_no_dash, sri)

  trimmed_right : trimmed d printed ≡ ok (record { scheme = s; digest = bs })
  unfolding trimmed printed
  trimmed_right =
      rw ((names s).no_swhid (b':' ∷ hex_lower bs), trimmed) (rw (sri-none, trimmed) plain_right)

  parse-printed : parse d printed ≡ ok (record { scheme = s; digest = bs })
  unfolding parse
  parse-printed = rw (trim_id printed printed-visible) trimmed_right

-- Whatever the decoders do, the printed form of a coordinate with as many digest bytes as its scheme
-- has parses to that coordinate.
pub parse-display : (d : Decoders) (c : Coord) → IsCoord c → parse d (display c) ≡ ok c
unfolding display hex printed
parse-display d c v = parse-printed d c.scheme c.digest v.bytes v.right_length
