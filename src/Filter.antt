-- ===== src/Filter.antt =====
-- src/filter.rs: reading, building and folding bloom filters. A mapped file is its bytes; the file
-- system around it is not modelled.
mod Words
mod File
pub mod Members
pub mod Folding
pub mod Key
pub mod Total
mod Tests
use Prim.Native.Nat.{bit_and, bit_or}
use mathlib.Core.Option
use hashdex.Base.{
  ℕ, zero, suc, ◌+◌, ◌-◌, ◌*◌, ◌/◌, ◌%◌, ◌^◌, Bool, not, ◌&&◌, Option, none, some, List, [], ◌∷◌,
  ◌++◌, length, take, drop, get_elem?, set, replicate, ltb, leb, ◌==◌, if◌then◌else◌,
}
use hashdex.Base.Bits.{ones}
use hashdex.Base.Bytes.{Bytes, le_bytes, from_le, slice, words_bytes, div_ceil}
use hashdex.Base.Floats.{Floats}
use hashdex.Base.Outcome.{Result, ok, err, ◌>>=◌}
use hashdex.Dcso
use hashdex.Dcso.{Header, header_len, bits_len}

pub data Error : Type 0 where
  bad_header : Dcso.Error → Error
  truncated : Error
  odd_size : ℕ → Error

pub record Bloom : Type 0 where
  pub k : ℕ
  pub m : ℕ
  pub mmap : Bytes
  pub n_elements : ℕ

pub open_header : Bytes → Header → Result Error Bloom
open_header mmap h =
    if ltb (length mmap) (header_len + bits_len h)
    then err truncated
    else ok (record { k = h.k; m = h.m; mmap = mmap; n_elements = h.n_elements })

pub open_filter : Bytes → Result Error Bloom
unfolding open_header
open_filter mmap = elim (Dcso.parse mmap) [ err e ↦ err (bad_header e) | ok h ↦ open_header mmap h ]

-- The closure of `Bloom::check`; `none` is the panic of a slice past the end of the file.
abbrev pub word_at : Bytes → ℕ → Option ℕ
word_at mmap off = Option.map from_le (slice mmap off 8)

pub check : Bloom → Bytes → Option Bool
check b value = Dcso.check_with value b.k b.m (word_at b.mmap)

pub record BloomBuilder : Type 0 where
  pub k : ℕ
  pub m : ℕ
  pub n_capacity : ℕ
  pub p : ℕ
  pub n_elements : ℕ
  pub bits : List ℕ

pub new : Floats → ℕ → ℕ → Result Dcso.Error BloomBuilder
new f n p = do
  (m, k) ← Dcso.size_for f n p
  ok (record {
    k = k;
    m = m;
    n_capacity = n;
    p = p;
    n_elements = 0;
    bits = replicate (div_ceil m 64) 0;
  })

-- `self.bits[bit >> 6] |= 1 << (bit & 63)` for each bit; an index past the end panics.
pub add_bits : List ℕ → List ℕ → Option (List ℕ)
add_bits [] words = some words
add_bits (b ∷ rest) words = elim (get_elem? words (b / 2 ^ 6)) [
  | none ↦ none
  | some w ↦ add_bits rest (set words (b / 2 ^ 6) (bit_or w (2 ^ bit_and b 63)))
]

pub add : BloomBuilder → Bytes → Option BloomBuilder
unfolding add_bits
add b value = elim (Dcso.bit_positions value b.k b.m) [
  | none ↦ none
  | some bits ↦
      Option.map (λ words. record b { bits = words; n_elements = (b.n_elements + 1) % 2 ^ 64 })
        (add_bits bits b.bits)
]

abbrev pub header : BloomBuilder → Header
header b = record {
  version = 1;
  n_capacity = b.n_capacity;
  p = b.p;
  k = b.k;
  m = b.m;
  n_elements = b.n_elements;
}

-- The bytes that `write` puts into the file.
pub write : BloomBuilder → Bytes
write b = Dcso.to_bytes (header b) ++ words_bytes b.bits

pub size_bytes : BloomBuilder → ℕ
size_bytes b = header_len + length b.bits * 8

pub record FoldStats : Type 0 where
  pub m_old : ℕ
  pub m_new : ℕ
  pub fill : ℕ
  pub p_new : ℕ

-- The closure `word` of `fold`: words past the array and bits past `m` read as zero.
pub source_word : Bytes → ℕ → ℕ → ℕ
source_word mmap m i =
    let w = from_le (take 8 (drop (header_len + i * 8) mmap)) in
    if leb (div_ceil m 64) i
    then 0
    else if i == div_ceil m 64 - 1 && not (m % 64 == 0)
    then bit_and w (2 ^ (m % 64) - 1)
    else w

-- The 64 bits at bit offset `o` of the source.
pub high_word : (ℕ → ℕ) → ℕ → ℕ
high_word word o =
    if o % 64 == 0
    then word (o / 64)
    else bit_or (word (o / 64) / 2 ^ (o % 64)) (word (o / 64 + 1) * 2 ^ (64 - o % 64) % 2 ^ 64)

-- Word `j` of the folded array, of `m2` bits.
pub folded_word : (ℕ → ℕ) → ℕ → ℕ → ℕ
folded_word word m2 j =
    let d = bit_or (word j) (high_word word (m2 + 64 * j)) in
    if j == div_ceil m2 64 - 1 && not (m2 % 64 == 0) then bit_and d (2 ^ (m2 % 64) - 1) else d

-- The loop over `j`, with the number of rounds left.
pub folded_words : (ℕ → ℕ) → ℕ → ℕ → ℕ → List ℕ
folded_words word m2 zero j = []
folded_words word m2 (suc n) j = folded_word word m2 j ∷ folded_words word m2 n (j + 1)

abbrev count_ones : List ℕ → ℕ
count_ones [] = 0
count_ones (d ∷ ds) = ones 64 d + count_ones ds

-- Overwrite 8 bytes at an offset: the seek back to the header's `p`.
abbrev patch : ℕ → ℕ → Bytes → Bytes
patch off v out = take off out ++ le_bytes 8 v ++ drop (off + 8) out

pub fold_header : Floats → Bytes → Header → Bytes × FoldStats
unfolding folded_words source_word
fold_header f mmap h =
    let m2 = h.m / 2 in
    let words = folded_words (source_word mmap h.m) m2 (div_ceil m2 64) 0 in
    let fill = f.div (f.of_u64 (count_ones words)) (f.of_u64 m2) in
    let p_new = f.powi fill (h.k % 2 ^ 32) in
    let out = Dcso.to_bytes (record h { version = 1; p = 0; m = m2 }) ++ words_bytes words in
    (patch 16 p_new out, record { m_old = h.m; m_new = m2; fill = fill; p_new = p_new })

pub fold : Floats → Bytes → Result Error (Bytes × FoldStats)
unfolding fold_header
fold f mmap = elim (Dcso.parse mmap) [
  | err e ↦ err (bad_header e)
  | ok h ↦
      if not (h.m % 2 == 0)
      then err (odd_size h.m)
      else if ltb (length mmap) (header_len + div_ceil h.m 64 * 8)
      then err truncated
      else ok (fold_header f mmap h)
]
