-- ===== src/Dcso/Codec.antt =====
-- The header codec of src/dcso.rs: what `to_bytes` writes, `parse` reads back.
use Prim.Native.Nat.{bit_and}
use native.Mathlib.Nat.{pow-le-pow_right}
use hashdex.Base.{
  ℕ, ◌*◌, ◌≤◌, ◌<◌, ◌≡◌, refl, ◌++◌, length, take, drop, length-take, All, All-take, All-drop,
  length-append, arith, List, get_or, ◌∙◌, ◌^◌, ap,
}
use hashdex.Base.Bytes.{
  Bytes, le_bytes, le_bytes, from_le, from_le-lt, IsByte, from_le-le_bytes, words_bytes,
  take-words_bytes,
}
use hashdex.Base.Outcome.{ok}
use hashdex.Dcso.{Header, fields, u64_at, parse, to_bytes}

pub record IsHeader (h : Header) : Type 0 where
  pub version : h.version < 2 ^ 64
  pub n_capacity : h.n_capacity < 2 ^ 64
  pub p : h.p < 2 ^ 64
  pub k : h.k < 2 ^ 64
  pub m : h.m < 2 ^ 64
  pub n_elements : h.n_elements < 2 ^ 64
  pub supported : bit_and h.version 0xff ≡ 1

pub length-to_bytes : (h : Header) → length (to_bytes h) ≡ 48
unfolding to_bytes
length-to_bytes h = refl

parse_of :
    (bytes : Bytes) (h : Header)
    → 48 ≤ length bytes
    → bit_and h.version 0xff ≡ 1
    → u64_at bytes 0 ≡ h.version
    → u64_at bytes 1 ≡ h.n_capacity
    → u64_at bytes 2 ≡ h.p
    → u64_at bytes 3 ≡ h.k
    → u64_at bytes 4 ≡ h.m
    → u64_at bytes 5 ≡ h.n_elements
    → parse bytes ≡ ok h
unfolding parse
parse_of bytes h long sup e0 e1 e2 e3 e4 e5 = ground arith

pub u64_at-words :
    (ws : List ℕ) (i : ℕ) (rest : Bytes)
    → i < length ws
    → get_or ws i 0 < 2 ^ 64
    → u64_at (words_bytes ws ++ rest) i ≡ get_or ws i 0
u64_at-words ws i rest h fits =
    ap from_le (take-words_bytes ws i (i * 8) rest h refl) ∙ from_le-le_bytes 8 _ fits

-- Whatever follows the header, `parse` reads back the header that `to_bytes` wrote, when it has a
-- supported version and its fields are `u64`s.
pub parse-to_bytes : (h : Header) (rest : Bytes) → IsHeader h → parse (to_bytes h ++ rest) ≡ ok h
unfolding to_bytes
parse-to_bytes h rest v =
    parse_of (words_bytes (fields h) ++ rest) h
      (omega (arith, length-append (words_bytes (fields h)) rest)) v.supported
      (at 0 (omega arith) v.version) (at 1 (omega arith) v.n_capacity) (at 2 (omega arith) v.p)
      (at 3 (omega arith) v.k) (at 4 (omega arith) v.m) (at 5 (omega arith) v.n_elements)
  where
    at :
        (i : ℕ)
        → i < 6
        → get_or (fields h) i 0 < 2 ^ 64
        → u64_at (words_bytes (fields h) ++ rest) i ≡ get_or (fields h) i 0
    at i p q = u64_at-words (fields h) i rest p q

-- Eight bytes read anywhere make a `u64`.
pub word-lt :
    (bytes : Bytes) (off : ℕ) → All IsByte bytes → from_le (take 8 (drop off bytes)) < 2 ^ 64
word-lt bytes off h =
    let word = take 8 (drop off bytes) in
    let small : length word ≤ 8 = omega (arith, length-take 8 (drop off bytes)) in
    omega (
      arith,
      from_le-lt word (All-take IsByte 8 _ (All-drop IsByte off bytes h)),
      pow-le-pow_right {n = 256} (omega arith) small,
    )

u64_at-lt : (bytes : Bytes) (i : ℕ) → All IsByte bytes → u64_at bytes i < 2 ^ 64
u64_at-lt bytes i h = word-lt bytes (i * 8) h

-- Overwriting the header's third word is writing another `p`.
pub patch_p :
    (h : Header) (q : ℕ) (rest : Bytes)
    → take 16 (to_bytes (record h { p = 0 }) ++ rest)
        ++ le_bytes 8 q
        ++ drop 24 (to_bytes (record h { p = 0 }) ++ rest)
      ≡ to_bytes (record h { p = q }) ++ rest
unfolding to_bytes
patch_p h q rest = refl

-- The header that `parse` accepts holds six `u64`s, with a supported version.
pub parse-IsHeader :
    (bytes : Bytes) (h : Header) → All IsByte bytes → parse bytes ≡ ok h → IsHeader h
unfolding parse
parse-IsHeader bytes h b e = ground (
  arith,
  u64_at-lt bytes 0 b,
  u64_at-lt bytes 1 b,
  u64_at-lt bytes 2 b,
  u64_at-lt bytes 3 b,
  u64_at-lt bytes 4 b,
  u64_at-lt bytes 5 b,
)
