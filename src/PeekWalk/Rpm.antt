-- ===== src/PeekWalk/Rpm.antt =====
-- src/peek_walk.rs: `skip_rpm_headers`, the way to the payload of an rpm package.
--
-- A reader is the bytes that it has left.
use hashdex.Base.{
  ℕ, ◌+◌, ◌-◌, ◌*◌, ◌%◌, ◌^◌, ◌<◌, ◌≡◌, refl, sym, ap, ap₂, ◌∙◌, Bool, true, false, [], ◌∷◌, ◌++◌,
  length, take, drop, leb, if◌then◌else◌, arith, length-append,
}
use mathlib.Core.List.{reverse, reverse-reverse}
use hashdex.Base.Bytes.{
  Bytes, le_bytes, from_le, from_le-le_bytes, take-append_length, drop-append_length,
}
use hashdex.Base.Outcome.{Result, ok, err, ◌>>=◌}
use hashdex.Base.Slices.{drop-drop}
use hashdex.PeekWalk.{has_prefix}

pub data ReadError : Type 0 where
  truncated unexpected_eof bad_header_magic : ReadError

unfoldable pub skip_n : ℕ → Bytes → Result ReadError Bytes
skip_n n r = if leb n (length r) then ok (drop n r) else err truncated

unfoldable pub read_exact : ℕ → Bytes → Result ReadError (Bytes × Bytes)
read_exact n r = if leb n (length r) then ok (take n r, drop n r) else err unexpected_eof

-- `u32::from_be_bytes`
abbrev pub from_be : Bytes → ℕ
from_be bs = from_le (reverse bs)

abbrev pub header_magic : Bytes
header_magic = 0x8e ∷ 0xad ∷ 0xe8 ∷ []

-- The length of an index block behind its intro of 16 bytes.
abbrev pub body_len : Bytes → ℕ
body_len intro = from_be (take 4 (drop 8 intro)) * 16 + from_be (take 4 (drop 12 intro))

abbrev skip_body : Bool → ℕ → Bytes → Result ReadError Bytes
skip_body pad body r =
    skip_n body r >>= λ behind. if pad then skip_n ((8 - body % 8) % 8) behind else ok behind

unfoldable pub skip_block : Bool → Bytes → Result ReadError Bytes
unfolding skip_n read_exact has_prefix
skip_block pad r = read_exact 16 r >>= λ (intro, behind).
    if has_prefix header_magic intro
    then skip_body pad (body_len intro) behind
    else err bad_header_magic

unfoldable pub skip_rpm_headers : Bytes → Result ReadError Bytes
unfolding skip_n skip_block
skip_rpm_headers r =
    skip_n 96 r >>= λ signature. skip_block true signature >>= λ header. skip_block false header

-- `u32::to_be_bytes`
abbrev be_bytes : ℕ → ℕ → Bytes
be_bytes n x = reverse (le_bytes n x)

-- An index block: its reserved bytes, its counts, and its index and store.
pub record Block : Type 0 where
  pub reserved : Bytes
  pub nindex : ℕ
  pub hsize : ℕ
  pub body : Bytes

pub record IsBlock (b : Block) : Type 0 where
  pub reserved_len : length b.reserved ≡ 5
  pub nindex_small : b.nindex < 256 ^ 4
  pub hsize_small : b.hsize < 256 ^ 4
  pub body_is : length b.body ≡ b.nindex * 16 + b.hsize

unfoldable pub intro_bytes : Block → Bytes
intro_bytes b = header_magic ++ (b.reserved ++ (be_bytes 4 b.nindex ++ be_bytes 4 b.hsize))

-- The padding of a block to a multiple of 8.
abbrev pub padding_len : Block → ℕ
padding_len b = (8 - length b.body % 8) % 8

from_be-be_bytes : (n x : ℕ) → x < 256 ^ n → from_be (be_bytes n x) ≡ x
from_be-be_bytes n x h = ap from_le (reverse-reverse (le_bytes n x)) ∙ from_le-le_bytes n x h

length-be_bytes : (x : ℕ) → length (be_bytes 4 x) ≡ 4
length-be_bytes x = refl

pub skip_n-append : (n : ℕ) (a rest : Bytes) → length a ≡ n → skip_n n (a ++ rest) ≡ ok rest
unfolding skip_n
skip_n-append n a rest h =
    let enough : leb n (length (a ++ rest)) ≡ true = ground (arith, length-append a rest) in
    rw enough (ap (λ t. ok t) (drop-append_length n 0 n a rest h (omega arith)))

pub read_exact-append :
    (n : ℕ) (a rest : Bytes) → length a ≡ n → read_exact n (a ++ rest) ≡ ok (a, rest)
unfolding read_exact
read_exact-append n a rest h =
    let enough : leb n (length (a ++ rest)) ≡ true = ground (arith, length-append a rest) in
    rw enough (
      ap₂ (λ s t. ok (s, t)) (take-append_length n a rest h)
        (drop-append_length n 0 n a rest h (omega arith)))

module _ (b : Block) (h : IsBlock b) where
  length-intro_bytes : length (intro_bytes b) ≡ 16
  unfolding intro_bytes
  length-intro_bytes = omega (
    arith,
    length-append header_magic (b.reserved ++ (be_bytes 4 b.nindex ++ be_bytes 4 b.hsize)),
    length-append b.reserved (be_bytes 4 b.nindex ++ be_bytes 4 b.hsize),
    h.reserved_len,
    length-append (be_bytes 4 b.nindex) (be_bytes 4 b.hsize),
  )

  drop-counts : drop 8 (intro_bytes b) ≡ be_bytes 4 b.nindex ++ be_bytes 4 b.hsize
  unfolding intro_bytes
  drop-counts =
      drop-append_length 5 0 5 b.reserved (be_bytes 4 b.nindex ++ be_bytes 4 b.hsize) h.reserved_len
        refl

  body_len-intro_bytes : body_len (intro_bytes b) ≡ length b.body
  body_len-intro_bytes =
      let first =
        ap (λ t. from_be (take 4 t)) drop-counts ∙ from_be-be_bytes 4 b.nindex h.nindex_small in
      let second =
        ap (λ t. from_be (take 4 t)) (sym (drop-drop 4 8 (intro_bytes b)) ∙ ap (drop 4) drop-counts)
        ∙ from_be-be_bytes 4 b.hsize h.hsize_small in
      ap₂ (λ n s. n * 16 + s) first second ∙ sym h.body_is

  starts : has_prefix header_magic (intro_bytes b) ≡ true
  unfolding has_prefix intro_bytes
  starts = refl

  -- A block is skipped, with its padding where it has one.
  skip_block_padded :
      (padding rest : Bytes)
      → length padding ≡ padding_len b
      → skip_block true (intro_bytes b ++ (b.body ++ (padding ++ rest))) ≡ ok rest
  unfolding skip_block
  skip_block_padded padding rest p =
      rw
        (
          read_exact-append 16 (intro_bytes b) (b.body ++ (padding ++ rest)) length-intro_bytes,
          starts,
          body_len-intro_bytes,
          skip_n-append (length b.body) b.body (padding ++ rest) refl,
          skip_n-append (padding_len b) padding rest p,
        )
        refl

  skip_block_bare : (rest : Bytes) → skip_block false (intro_bytes b ++ (b.body ++ rest)) ≡ ok rest
  unfolding skip_block
  skip_block_bare rest =
      rw
        (
          read_exact-append 16 (intro_bytes b) (b.body ++ rest) length-intro_bytes,
          starts,
          body_len-intro_bytes,
          skip_n-append (length b.body) b.body rest refl,
        )
        refl

-- A package: its lead, its signature header with the padding, its header, and its payload.
unfoldable pub package_bytes : Bytes → Block → Bytes → Block → Bytes → Bytes
unfolding intro_bytes
package_bytes lead signature padding header payload =
    lead
    ++ (intro_bytes signature
        ++ (signature.body ++ (padding ++ (intro_bytes header ++ (header.body ++ payload)))))

-- Of a package with a lead of 96 bytes and headers whose counts tell their lengths, the first padded
-- to a multiple of 8, `skip_rpm_headers` leaves the payload.
pub skip_rpm_headers-package_bytes :
    (lead : Bytes) (signature : Block) (padding : Bytes) (header : Block) (payload : Bytes)
    → length lead ≡ 96
    → IsBlock signature
    → length padding ≡ padding_len signature
    → IsBlock header
    → skip_rpm_headers (package_bytes lead signature padding header payload) ≡ ok payload
unfolding skip_rpm_headers package_bytes
skip_rpm_headers-package_bytes lead signature padding header payload l s p h =
    rw
      (
        skip_n-append 96 lead _ l,
        skip_block_padded signature s padding (intro_bytes header ++ (header.body ++ payload)) p,
        skip_block_bare header h payload,
      )
      refl
