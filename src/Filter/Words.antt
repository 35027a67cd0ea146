-- ===== src/Filter/Words.antt =====
-- The bit array of src/filter.rs as a set of bit positions, in memory and in a written file.
use Prim.Native.Nat.{bit_and, bit_or}
use mathlib.Core.List.{append-nil}
use mathlib.Core.Option
use native.Mathlib.Nat.{pow-le-pow_right}
use native.Mathlib.Decide.{ℕ_discrete}
use hashdex.Base.{
  ℕ, ◌+◌, ◌*◌, ◌/◌, ◌%◌, ◌^◌, ◌≤◌, ◌<◌, ◌≡◌, refl, ap, sym, All-imp, ◌∙◌, some, List, [], ◌∷◌, ◌++◌,
  length, length-append, length-set, get_or, set, All, arith, take, drop, get_elem?-get_or,
  get_or-set_self, get_or-set_ne, All-get_or, All-set,
}
use hashdex.Base.Bits.{bit, bit-le-one, bit-bit_or, bit-pow_self, bit_or-lt}
use hashdex.Base.Bytes.{
  Bytes, from_le, le_bytes, slice-eq_some, words_bytes, length-words_bytes, take-words_bytes,
  drop-append_length, from_le-le_bytes,
}
use hashdex.Dcso.{header_len}
use hashdex.Dcso.Probe.{bit_and_63}
use hashdex.Filter.{add_bits, word_at}

abbrev pub IsWord : ℕ → Type 0
IsWord w = w < 2 ^ 64

-- Bit `b` of the array.
abbrev pub array_bit : List ℕ → ℕ → ℕ
array_bit words b = bit (b % 64) (get_or words (b / 2 ^ 6) 0)

pow_63-IsWord : (b : ℕ) → IsWord (2 ^ bit_and b 63)
pow_63-IsWord b =
    let small : b % 64 ≤ 63 = omega arith in
    rw bit_and_63 (omega (arith, pow-le-pow_right {n = 2} (omega arith) small))

or-bit_self : (w b : ℕ) → bit (b % 64) (bit_or w (2 ^ bit_and b 63)) ≡ 1
or-bit_self w b = omega (
  arith,
  bit-bit_or (b % 64) w (2 ^ bit_and b 63),
  ap (λ n. bit (b % 64) (2 ^ n)) (bit_and_63 b),
  bit-pow_self (b % 64),
  bit-le-one (b % 64) w,
)

or-bit_kept : (i w x : ℕ) → bit i w ≡ 1 → bit i (bit_or w x) ≡ 1
or-bit_kept i w x h = omega (arith, bit-bit_or i w x, bit-le-one i x)

-- What `add_bits` does to the array `words`, for the positions `bits`.
pub record Added (words words' : List ℕ) : Type 0 where
  pub same_length : length words' ≡ length words
  pub fits : All IsWord words'
  pub kept : (b : ℕ) → array_bit words b ≡ 1 → array_bit words' b ≡ 1

Added-refl : (words : List ℕ) → All IsWord words → Added words words
Added-refl words fits = record { same_length = refl; fits = fits; kept = λ b h. h }

Added-trans : (u v w : List ℕ) → Added u v → Added v w → Added u w
Added-trans u v w p q = record {
  same_length = q.same_length ∙ p.same_length;
  fits = q.fits;
  kept = λ b h. q.kept b (p.kept b h);
}

module _ (words : List ℕ) (b : ℕ) (fits : All IsWord words)
    (inside : b / 2 ^ 6 < length words) where
  abbrev or_word : List ℕ
  or_word = set words (b / 2 ^ 6) (bit_or (get_or words (b / 2 ^ 6) 0) (2 ^ bit_and b 63))

  or_word_self : array_bit or_word b ≡ 1
  or_word_self = ap (bit (b % 64)) (get_or-set_self words (b / 2 ^ 6) _ 0 inside) ∙ or-bit_self _ b

  or_word_kept : (c : ℕ) → array_bit words c ≡ 1 → array_bit or_word c ≡ 1
  or_word_kept c h = elim (ℕ_discrete (b / 2 ^ 6) (c / 2 ^ 6)) [
    | yes e ↦
        ap (λ i. bit (c % 64) (get_or or_word i 0)) (sym e)
        ∙ ap (bit (c % 64)) (get_or-set_self words (b / 2 ^ 6) _ 0 inside)
        ∙ or-bit_kept (c % 64) _ _ (ap (λ i. bit (c % 64) (get_or words i 0)) e ∙ h)
    | no ne ↦ ap (bit (c % 64)) (get_or-set_ne words _ _ _ 0 ne) ∙ h
  ]

  or_word-Added : Added words or_word
  or_word-Added = record {
    same_length = length-set words _ _;
    fits =
        All-set IsWord words _ _ fits
          (bit_or-lt 64 _ _ (All-get_or IsWord words _ 0 fits inside) (pow_63-IsWord b));
    kept = or_word_kept;
  }

  add_bits_step : (rest : List ℕ) → add_bits (b ∷ rest) words ≡ add_bits rest or_word
  unfolding add_bits
  add_bits_step rest = rw (get_elem?-get_or words (b / 2 ^ 6) 0 inside, add_bits)

-- In an array that is long enough `add_bits` succeeds, sets every position, and clears none.
pub add_bits_lem :
    (bits words : List ℕ)
    → All IsWord words
    → All (λ b. b / 2 ^ 6 < length words) bits
    → (words' : List ℕ) × (add_bits bits words ≡ some words')
      × Added words words'
      × All (λ b. array_bit words' b ≡ 1) bits
add_bits_lem [] words fits h = (words, unfold add_bits in refl, Added-refl words fits, tt)
add_bits_lem (b ∷ rest) words fits (h, hs) =
    let one = or_word-Added words b fits h in
    let inside =
      All-imp (λ c. c / 2 ^ 6 < length words) (λ c. c / 2 ^ 6 < length (or_word words b fits h))
        rest (λ c p. rw one.same_length p) hs in
    let (words', run, more, found) = add_bits_lem rest (or_word words b fits h) one.fits inside in
    (
      words',
      add_bits_step words b fits h rest ∙ run,
      Added-trans words _ words' one more,
      (more.kept b (or_word_self words b fits h), found),
    )

-- A word of the array, read back from the written file.
pub word_at-written :
    (hd : Bytes) (words : List ℕ) (i : ℕ)
    → length hd ≡ header_len
    → All IsWord words
    → i < length words
    → word_at (hd ++ words_bytes words) (header_len + i * 8) ≡ some (get_or words i 0)
word_at-written hd words i len fits h =
    ap (Option.map from_le) (slice-eq_some (hd ++ words_bytes words) (header_len + i * 8) 8 long)
    ∙ ap some (ap from_le here ∙ from_le-le_bytes 8 _ (All-get_or IsWord words i 0 fits h))
  where
    long : header_len + i * 8 + 8 ≤ length (hd ++ words_bytes words)
    long = omega (arith, length-append hd (words_bytes words), length-words_bytes words)

    here :
        take 8 (drop (header_len + i * 8) (hd ++ words_bytes words)) ≡ le_bytes 8 (get_or words i 0)
    here =
        ap (take 8) (drop-append_length header_len (i * 8) _ hd (words_bytes words) len refl)
        ∙ ap (λ bs. take 8 (drop (i * 8) bs)) (sym (append-nil (words_bytes words)))
        ∙ take-words_bytes words i (i * 8) [] h refl
