-- ===== src/Filter/Folding/Digits.antt =====
-- Digit by digit: the folded array is the lower half of the source or-ed with the upper half.
use Prim.Native.Nat.{bit_and, bit_or}
use native.Mathlib.Decide.{dec_lt}
use native.Mathlib.Nat.{div-le_self}
use hashdex.Base.{
  ℕ, zero, suc, ◌+◌, ◌-◌, ◌*◌, ◌/◌, ◌%◌, ◌^◌, ◌≤◌, ◌<◌, ◌≡◌, refl, ap, ◌∙◌, length, get_or, All,
  arith, take, drop, ◌==◌, max, Bool-cases, inl, inr, ==_iff,
}
use hashdex.Base.Bits.{
  bit, bit-le-one, bit-bit_or, bit-bit_and, bit-shr, bit-mod, bit-ge, bit-shl_lt, bit-shl_ge,
  bit-mask_lt, bit_or-lt, bit_and-le,
}
use hashdex.Base.Bytes.{Bytes, from_le}
use hashdex.Dcso.{header_len}
use hashdex.Filter.{source_word, high_word, folded_word, folded_words}
use hashdex.Filter.Words.{IsWord}

-- The digit at bit offset `i` of an array that is read word by word.
abbrev pub digit_at : (ℕ → ℕ) → ℕ → ℕ
digit_at word i = bit (i % 64) (word (i / 64))

-- Word `i` of the array in a file, with no cut at the end.
abbrev pub raw_word : Bytes → ℕ → ℕ
raw_word mmap i = from_le (take 8 (drop (header_len + i * 8) mmap))

masked : (k i x : ℕ) → i < k → bit i (bit_and x (2 ^ k - 1)) ≡ bit i x
masked k i x h = omega (arith, bit-bit_and i x (2 ^ k - 1), bit-mask_lt k i h, bit-le-one i x)

-- Below `m` the cut changes no digit.
pub digit_at-source_word :
    (mmap : Bytes) (m i : ℕ) → i < m → digit_at (source_word mmap m) i ≡ digit_at (raw_word mmap) i
unfolding source_word
digit_at-source_word mmap m i h = ground (arith, masked (m % 64) (i % 64) (raw_word mmap (i / 64)))

pub source_word-IsWord :
    (mmap : Bytes) (m i : ℕ) → IsWord (raw_word mmap i) → IsWord (source_word mmap m i)
unfolding source_word
source_word-IsWord mmap m i h = ground (arith, bit_and-le 64 (raw_word mmap i) (2 ^ (m % 64) - 1) h)

module _ (s r a b : ℕ) (within : s < 64) (h : r < 64) where
  pair : ℕ
  pair = bit_or (a / 2 ^ s) (b * 2 ^ (64 - s) % 2 ^ 64)

  pair_low : s + r < 64 → 0 < s → bit r pair ≡ bit (s + r) a
  unfolding pair
  pair_low p pos = omega (
    arith,
    bit-bit_or r (a / 2 ^ s) (b * 2 ^ (64 - s) % 2 ^ 64),
    bit-shr s r (s + r) a refl,
    bit-mod 64 r (b * 2 ^ (64 - s)) h,
    bit-shl_lt (64 - s) r b (omega arith),
  )

  pair_high : 64 ≤ s + r → a < 2 ^ 64 → bit r pair ≡ bit (s + r - 64) b
  unfolding pair
  pair_high p fits = omega (
    arith,
    bit-bit_or r (a / 2 ^ s) (b * 2 ^ (64 - s) % 2 ^ 64),
    bit-shr s r (s + r) a refl,
    bit-ge 64 (s + r) a fits p,
    bit-mod 64 r (b * 2 ^ (64 - s)) h,
    bit-shl_ge (64 - s) r (s + r - 64) b (omega arith),
  )

digit_of : (word : ℕ → ℕ) (q t i : ℕ) → q ≡ i / 64 → t ≡ i % 64 → bit t (word q) ≡ digit_at word i
digit_of word q t i e d = rw (e, d)

module _ (word : ℕ → ℕ) (fits : (i : ℕ) → IsWord (word i)) where
  -- Digit `r` of the 64 that begin at offset `o`.
  digit-high_word : (o r : ℕ) → r < 64 → bit r (high_word word o) ≡ digit_at word (o + r)
  unfolding high_word pair
  digit-high_word o r h = elim (Bool-cases (o % 64 == 0)) [
    | inl z ↦
        let z' = (==_iff (o % 64) 0).0 z in
        rw z (digit_of word (o / 64) r (o + r) (omega arith) (omega arith))
    | inr n ↦ rw n (elim (dec_lt (o % 64 + r) 64) [
      | yes p ↦
          pair_low (o % 64) r (word (o / 64)) (word (o / 64 + 1)) (omega arith) h p (ground arith)
          ∙ digit_of word (o / 64) (o % 64 + r) (o + r) (omega arith) (omega arith)
      | no p ↦
          pair_high (o % 64) r (word (o / 64)) (word (o / 64 + 1)) (omega arith) h (omega arith)
            (fits (o / 64))
          ∙ digit_of word (o / 64 + 1) (o % 64 + r - 64) (o + r) (omega arith) (omega arith)
    ])
  ]

  high_word-IsWord : (o : ℕ) → IsWord (high_word word o)
  unfolding high_word
  high_word-IsWord o = ground (
    arith,
    fits (o / 64),
    bit_or-lt 64 (word (o / 64) / 2 ^ (o % 64)) (word (o / 64 + 1) * 2 ^ (64 - o % 64) % 2 ^ 64)
        (omega (arith, fits (o / 64), div-le_self (word (o / 64)) (2 ^ (o % 64)))) (omega arith),
  )

  -- Below `m2` a digit of the folded array is the maximum of two of the source.
  pub digit_at-folded_word :
      (m2 i : ℕ)
      → i < m2
      → digit_at (folded_word word m2) i ≡ max (digit_at word i) (digit_at word (m2 + i))
  unfolding folded_word
  digit_at-folded_word m2 i h = ground (arith, masked (m2 % 64) (i % 64) d, both)
    where
      d : ℕ
      d = bit_or (word (i / 64)) (high_word word (m2 + 64 * (i / 64)))

      upper : digit_at word (m2 + 64 * (i / 64) + i % 64) ≡ digit_at word (m2 + i)
      upper = let e : m2 + 64 * (i / 64) + i % 64 ≡ m2 + i = omega arith in ap (digit_at word) e

      both : bit (i % 64) d ≡ max (digit_at word i) (digit_at word (m2 + i))
      both = omega (
        arith,
        bit-bit_or (i % 64) (word (i / 64)) (high_word word (m2 + 64 * (i / 64))),
        digit-high_word (m2 + 64 * (i / 64)) (i % 64) (omega arith),
        upper,
      )

  pub folded_word-IsWord : (m2 j : ℕ) → IsWord (folded_word word m2 j)
  unfolding folded_word
  folded_word-IsWord m2 j =
      let d = bit_or (word j) (high_word word (m2 + 64 * j)) in
      let small =
        bit_or-lt 64 (word j) (high_word word (m2 + 64 * j)) (fits j) (high_word-IsWord _) in
      ground (arith, small, bit_and-le 64 d (2 ^ (m2 % 64) - 1) small)

pub length-folded_words : (word : ℕ → ℕ) (m2 n j : ℕ) → length (folded_words word m2 n j) ≡ n
unfolding folded_words
length-folded_words word m2 zero j = refl
length-folded_words word m2 (suc n) j = ap suc (length-folded_words word m2 n (j + 1))

pub get_or-folded_words :
    (word : ℕ → ℕ) (m2 n j i k : ℕ)
    → i < n
    → k ≡ j + i
    → get_or (folded_words word m2 n j) i 0 ≡ folded_word word m2 k
unfolding folded_words
get_or-folded_words word m2 zero j i k h e = absurd (omega arith)
get_or-folded_words word m2 (suc n) j zero k h e =
    let e' : j ≡ k = omega arith in ap (folded_word word m2) e'
get_or-folded_words word m2 (suc n) j (suc i) k h e =
    get_or-folded_words word m2 n (j + 1) i k (omega arith) (omega arith)

pub folded_words-IsWord :
    (word : ℕ → ℕ) (m2 n j : ℕ)
    → ((i : ℕ) → IsWord (word i))
    → All IsWord (folded_words word m2 n j)
unfolding folded_words
folded_words-IsWord word m2 zero j fits = tt
folded_words-IsWord word m2 (suc n) j fits =
    (folded_word-IsWord word fits m2 j, folded_words-IsWord word m2 n (j + 1) fits)
