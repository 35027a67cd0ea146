-- ===== src/Filter/File.antt =====
-- A filter file, a header followed by its bit array, as `Bloom::open` and `Bloom::check` read it.
use hashdex.Base.{
  ℕ, ◌+◌, ◌*◌, ◌/◌, ◌%◌, ◌^◌, ◌≤◌, ◌<◌, ◌≡◌, sym, ◌∙◌, true, some, List, ◌++◌, inl, inr, length,
  length-append, get_or, All, All-imp₂, All-imp, arith,
}
use hashdex.Base.Bytes.{Bytes, words_bytes, length-words_bytes, div_ceil}
use hashdex.Base.Outcome.{ok, err, Result-cases}
use hashdex.Dcso
use hashdex.Dcso.{Header, header_len, fnv1_64, positions, modulus}
use hashdex.Dcso.Codec.{IsHeader, parse-to_bytes, length-to_bytes}
use hashdex.Dcso.Probe.{Holds, positions-lt, check_bits-Holds, check_with_pos}
use hashdex.Filter.{Bloom, open_filter, open_header, check, word_at, bad_header}
use hashdex.Filter.Words.{IsWord, array_bit, word_at-written}

-- The positions that a key probes in a filter of `m` bits.
abbrev pub probes : ℕ → ℕ → Bytes → List ℕ
probes k m value = positions k (fnv1_64 value % modulus) m

pub probes_inside :
    (k m n : ℕ) (value : Bytes)
    → 0 < m
    → n ≡ div_ceil m 64
    → All (λ i. i / 2 ^ 6 < n) (probes k m value)
probes_inside k m n value pos e =
    All-imp (λ i. i < m) (λ i. i / 2 ^ 6 < n) (probes k m value) (λ i h. omega (arith, e))
      (positions-lt k _ m pos)

module _ (h : Header) (words : List ℕ) where
  abbrev pub file : Bytes
  file = Dcso.to_bytes h ++ words_bytes words

  abbrev pub opened : Bloom
  opened = record { k = h.k; m = h.m; mmap = file; n_elements = h.n_elements }

  length-file : length file ≡ header_len + length words * 8
  length-file = omega (
    arith,
    length-append (Dcso.to_bytes h) (words_bytes words),
    length-to_bytes h,
    length-words_bytes words,
  )

  module _ (valid : IsHeader h) (whole : length words ≡ div_ceil h.m 64) where
    parse-file : Dcso.parse file ≡ ok h
    parse-file = parse-to_bytes h (words_bytes words) valid

    open_header-file : open_header file h ≡ ok opened
    unfolding open_header
    open_header-file = ground (arith, length-file, whole)

    pub open_filter-file : open_filter file ≡ ok opened
    unfolding open_filter
    open_filter-file = rw (parse-file, open_filter) open_header-file

  module _ (fits : All IsWord words) (whole : length words ≡ div_ceil h.m 64) (pos : 0 < h.m) where
    Holds-file :
        (i : ℕ) → array_bit words i ≡ 1 → i / 2 ^ 6 < length words → Holds (word_at file) 1 i
    Holds-file i d inside = record {
      word = get_or words (i / 2 ^ 6) 0;
      readable =
          word_at-written (Dcso.to_bytes h) words (i / 2 ^ 6) (length-to_bytes h) fits inside;
      digit = d;
    }

    -- A key whose every probe is set in the array is found in the file.
    pub check-file :
        (value : Bytes)
        → All (λ i. array_bit words i ≡ 1) (probes h.k h.m value)
        → check opened value ≡ some true
    unfolding check
    check-file value found =
        check_with_pos value h.k h.m pos (word_at file)
        ∙ check_bits-Holds (probes h.k h.m value) (word_at file) (
            All-imp₂ (λ i. array_bit words i ≡ 1) (λ i. i / 2 ^ 6 < length words)
              (Holds (word_at file) 1) (probes h.k h.m value) Holds-file found
              (probes_inside h.k h.m (length words) value pos whole))

-- What a successful `open_filter` says of the file.
pub record Opened (mmap : Bytes) (b : Bloom) : Type 0 where
  pub head : Header
  pub parsed : Dcso.parse mmap ≡ ok head
  pub long : header_len + div_ceil head.m 64 * 8 ≤ length mmap
  pub fields : b ≡ record { k = head.k; m = head.m; mmap = mmap; n_elements = head.n_elements }

open_header-ok :
    (mmap : Bytes) (h : Header) (b : Bloom)
    → Dcso.parse mmap ≡ ok h
    → open_header mmap h ≡ ok b
    → Opened mmap b
unfolding open_header
open_header-ok mmap h b p e = record {
  head = h;
  parsed = p;
  long = ground arith;
  fields = ground arith;
}

open_filter_of :
    (mmap : Bytes) (h : Header) → Dcso.parse mmap ≡ ok h → open_filter mmap ≡ open_header mmap h
unfolding open_filter
open_filter_of mmap h p = rw (p, open_filter)

open_filter_bad :
    (mmap : Bytes) (x : Dcso.Error)
    → Dcso.parse mmap ≡ err x
    → open_filter mmap ≡ err (bad_header x)
unfolding open_filter
open_filter_bad mmap x p = rw (p, open_filter)

pub open_filter-ok : (mmap : Bytes) (b : Bloom) → open_filter mmap ≡ ok b → Opened mmap b
open_filter-ok mmap b e = elim (Result-cases (Dcso.parse mmap)) [
  | inl (h, p) ↦ open_header-ok mmap h b p (sym (open_filter_of mmap h p) ∙ e)
  | inr (x, p) ↦ cc (open_filter_bad mmap x p)
]
