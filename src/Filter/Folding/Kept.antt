-- ===== src/Filter/Folding/Kept.antt =====
-- A bit of the source array is found at its remainder in the folded array.
use hashdex.Filter.Folding.Digits.{
  digit_at, raw_word, digit_at-source_word, source_word-IsWord, digit_at-folded_word,
  get_or-folded_words,
}
use native.Mathlib.Decide.{dec_lt}
use native.Mathlib.Nat.{mod-lt, mod-eq_of_lt, mod-eq-sub-mod}
use hashdex.Base.{
  ℕ, ◌+◌, ◌-◌, ◌*◌, ◌/◌, ◌%◌, ◌^◌, ◌<◌, ◌≡◌, ap, ◌∙◌, ◌⊎◌, inl, inr, List, All, arith,
}
use hashdex.Base.Bits.{bit, bit-le-one}
use hashdex.Base.Bytes.{Bytes, IsByte, div_ceil}
use hashdex.Dcso.{header_len}
use hashdex.Dcso.Codec.{word-lt}
use hashdex.Dcso.Probe.{Holds}
use hashdex.Filter.{word_at, source_word, folded_word, folded_words}
use hashdex.Filter.Words.{IsWord, array_bit}

-- The folded array of a file whose header states `m` bits.
abbrev pub folded : Bytes → ℕ → List ℕ
folded mmap m = folded_words (source_word mmap m) (m / 2) (div_ceil (m / 2) 64) 0

module _ (mmap : Bytes) (m : ℕ) (pos : 0 < m) (even : m % 2 ≡ 0) (bytes : All IsByte mmap) where
  pub source-IsWord : (i : ℕ) → IsWord (source_word mmap m i)
  source-IsWord i = source_word-IsWord mmap m i (word-lt mmap (header_len + i * 8) bytes)

  half_mod : (i : ℕ) → i < m → (i % (m / 2) ≡ i) ⊎ (m / 2 + i % (m / 2) ≡ i)
  half_mod i h = elim (dec_lt i (m / 2)) [
    | yes p ↦ inl (mod-eq_of_lt p)
    | no p ↦ inr (
        omega (
          arith,
          mod-eq-sub-mod {n = i} {m = m / 2} (omega arith),
          mod-eq_of_lt {n = i - m / 2} {m = m / 2} (omega arith),
        ))
  ]

  array_bit-folded :
      (j : ℕ)
      → j < m / 2
      → array_bit (folded mmap m) j ≡ digit_at (folded_word (source_word mmap m) (m / 2)) j
  array_bit-folded j h = ap (bit (j % 64)) (
      get_or-folded_words (source_word mmap m) (m / 2) (div_ceil (m / 2) 64) 0 (j / 2 ^ 6) (j / 64)
        (omega arith) (omega arith))

  -- A bit of the source is found at its remainder.
  pub kept_bit :
      (i : ℕ) → digit_at (raw_word mmap) i ≡ 1 → i < m → array_bit (folded mmap m) (i % (m / 2)) ≡ 1
  kept_bit i d h =
      array_bit-folded j small
      ∙ omega (
        arith,
        digit_at-folded_word (source_word mmap m) source-IsWord (m / 2) j small,
        either,
        bit-le-one (j % 64) (source_word mmap m (j / 64)),
        bit-le-one ((m / 2 + j) % 64) (source_word mmap m ((m / 2 + j) / 64)),
      )
    where
      j : ℕ
      j = i % (m / 2)

      small : j < m / 2
      small = mod-lt i (omega arith)

      lit : digit_at (source_word mmap m) i ≡ 1
      lit = digit_at-source_word mmap m i h ∙ d

      either :
          (digit_at (source_word mmap m) j ≡ 1) ⊎ (digit_at (source_word mmap m) (m / 2 + j) ≡ 1)
      either = elim (half_mod i h) [
        | inl e ↦ inl (ap (digit_at (source_word mmap m)) e ∙ lit)
        | inr e ↦ inr (ap (digit_at (source_word mmap m)) e ∙ lit)
      ]

pub Holds-digit_at :
    (mmap : Bytes) (i : ℕ) → Holds (word_at mmap) 1 i → digit_at (raw_word mmap) i ≡ 1
Holds-digit_at mmap i h = ap (bit (i % 64)) same ∙ h.digit
  where
    same : raw_word mmap (i / 64) ≡ h.word
    same = ground (arith, h.readable)
