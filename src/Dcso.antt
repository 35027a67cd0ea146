-- ===== src/Dcso.antt =====
-- src/dcso.rs: the DCSO bloom filter format, its header codec and its membership hashing.
--
-- A `u64` is a number below 2 ^ 64, and every wrapping product is cut by `% 2 ^ 64`. The `f64` field
-- `p` is kept as its bit pattern, so `to_bits` and `from_bits` are the identity.
pub mod Codec
pub mod Probe
mod Tests
use Prim.Native.Nat.{bit_and, bit_xor}
use hashdex.Base.{
  ℕ, zero, suc, ◌+◌, ◌*◌, ◌/◌, ◌%◌, ◌^◌, Bool, true, false, not, ◌&&◌, ◌||◌, Option, none, some,
  List, [], ◌∷◌, ◌++◌, length, take, drop, ltb, ◌==◌, if◌then◌else◌,
}
use hashdex.Base.Bytes.{Bytes, from_le, words_bytes, div_ceil}
use hashdex.Base.Floats.{Floats}
use hashdex.Base.Outcome.{Result, ok, err}

abbrev pub header_len : ℕ
header_len = 48

-- 2 ^ 64 - 87
abbrev pub modulus : ℕ
modulus = 18_446_744_073_709_551_529

abbrev pub generator : ℕ
generator = 18_446_744_073_709_550_147

pub record Header : Type 0 where
  pub version : ℕ
  pub n_capacity : ℕ
  pub p : ℕ
  pub k : ℕ
  pub m : ℕ
  pub n_elements : ℕ

pub data Error : Type 0 where
  too_short : Error
  bad_version : ℕ → Error
  bad_size : Error

-- The closure `u64_at` of `Header::parse`.
abbrev pub u64_at : Bytes → ℕ → ℕ
u64_at bytes i = from_le (take 8 (drop (i * 8) bytes))

unfoldable pub parse : Bytes → Result Error Header
parse bytes =
    if ltb (length bytes) header_len
    then err too_short
    else if bit_and (u64_at bytes 0) 0xff == 1
    then ok (record {
      version = u64_at bytes 0;
      n_capacity = u64_at bytes 1;
      p = u64_at bytes 2;
      k = u64_at bytes 3;
      m = u64_at bytes 4;
      n_elements = u64_at bytes 5;
    })
    else err (bad_version (u64_at bytes 0))

abbrev pub fields : Header → List ℕ
fields h = h.version ∷ h.n_capacity ∷ h.p ∷ h.k ∷ h.m ∷ h.n_elements ∷ []

unfoldable pub to_bytes : Header → Bytes
to_bytes h = words_bytes (fields h)

abbrev pub bits_len : Header → ℕ
bits_len h = div_ceil h.m 64 * 8

fnv1_loop : ℕ → Bytes → ℕ
fnv1_loop h [] = h
fnv1_loop h (b ∷ rest) = fnv1_loop (bit_xor (h * 0x100000001b3 % 2 ^ 64) b) rest

pub fnv1_64 : Bytes → ℕ
unfolding fnv1_loop
fnv1_64 value = fnv1_loop 0xcbf29ce484222325 value

-- The iterator's rounds: `h` before a round, and the number of rounds left.
pub positions : ℕ → ℕ → ℕ → List ℕ
positions zero h m = []
positions (suc k) h m = let h' = h * generator % 2 ^ 64 % modulus in (h' % m) ∷ positions k h' m

-- The probed bits in probe order. `none` is the panic of `h % m` at `m = 0`, which the first round
-- meets; with no rounds nothing is divided.
unfoldable pub bit_positions : Bytes → ℕ → ℕ → Option (List ℕ)
bit_positions value k m =
    if m == 0
    then (if k == 0 then some [] else none)
    else some (positions k (fnv1_64 value % modulus) m)

-- The byte offset of the bit's word from the start of the file, and the mask within that word.
abbrev pub bit_location : ℕ → ℕ × ℕ
bit_location bit = (header_len + bit / 2 ^ 6 * 8, 2 ^ bit_and bit 63)

-- `word_at` may panic too (`none`), as a slice past the end of a mapped file does.
unfoldable pub check_bits : List ℕ → (ℕ → Option ℕ) → Option Bool
check_bits [] word_at = some true
check_bits (bit ∷ rest) word_at =
    let (off, mask) = bit_location bit in
    let more = check_bits rest word_at in
    elim (word_at off) [ none ↦ none | some w ↦ if bit_and w mask == 0 then some false else more ]

unfoldable pub check_with : Bytes → ℕ → ℕ → (ℕ → Option ℕ) → Option Bool
unfolding check_bits
check_with value k m word_at = elim (bit_positions value k m) [
  | none ↦ none
  | some bits ↦ check_bits bits word_at
]

-- The two float expressions of `size_for`, before their casts to `u64`.
abbrev pub bits_wanted : Floats → ℕ → ℕ → ℕ
bits_wanted f n p = f.ceil (f.div (f.mul (f.of_u64 n) (f.neg (f.ln p))) (f.mul f.ln_2 f.ln_2))

abbrev pub hashes_wanted : Floats → ℕ → ℕ → ℕ
hashes_wanted f n m = f.max (f.round (f.mul (f.div (f.of_u64 m) (f.of_u64 n)) f.ln_2)) f.one

-- `m` and `k` for `n` elements at the false-positive rate `p`.
unfoldable pub size_for : Floats → ℕ → ℕ → Result Error (ℕ × ℕ)
size_for f n p =
    let m = f.to_u64 (bits_wanted f n p) in
    let k = f.to_u64 (hashes_wanted f n m) in
    if n == 0 || not (f.lt f.zero p && f.lt p f.one) then err bad_size else ok (m, k)
