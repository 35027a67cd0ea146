-- ===== src/Filter/Folding.antt =====
-- `fold` of src/filter.rs loses no key.
mod Digits
mod Kept
use Kept.{folded, source-IsWord, kept_bit, Holds-digit_at}
use Digits.{
  digit_at, raw_word, digit_at-source_word, source_word-IsWord, digit_at-folded_word,
  length-folded_words, get_or-folded_words, folded_words-IsWord,
}
use native.Mathlib.Decide.{dec_lt}
use native.Mathlib.Nat.{mod-lt, mod-eq_of_lt, mod-eq-sub-mod}
use hashdex.Base.{
  ℕ, zero, suc, ◌+◌, ◌-◌, ◌*◌, ◌/◌, ◌%◌, ◌^◌, ◌≤◌, ◌<◌, ◌≡◌, refl, ap, sym, ◌∙◌, ◌⊎◌, inl, inr,
  Bool, true, some, List, ◌++◌, length, get_or, All, All-imp₂, All-imp, All-map, arith, take, drop,
  map, none, Option, not, ltb, leb, ◌==◌, if◌then◌else◌,
}
use hashdex.Base.Bits.{bit, bit-le-one}
use hashdex.Base.Bytes.{Bytes, IsByte, div_ceil, from_le, slice, words_bytes}
use hashdex.Base.Floats.{Floats}
use hashdex.Base.Outcome.{ok, err}
use hashdex.Dcso
use hashdex.Dcso.{Header, header_len, positions, fnv1_64, modulus}
use hashdex.Dcso.Codec.{IsHeader, parse-IsHeader, word-lt, patch_p}
use hashdex.Dcso.Probe.{Holds, positions-lt, positions_half, check_with_pos, Holds-check_bits}
use hashdex.Filter.{
  Bloom, FoldStats, open_filter, check, word_at, fold, fold_header, odd_size, source_word,
  folded_word, folded_words,
}
use hashdex.Filter.File.{file, opened, probes, open_filter-file, check-file, Opened, open_filter-ok}
use hashdex.Filter.Words.{IsWord, array_bit}

-- The result of folding, in terms of what the two files answer.
abbrev pub FoldKeeps : Floats → Bytes → Bloom → Type 0
FoldKeeps f mmap b =
    (out : Bytes) × (stats : FoldStats) × (b' : Bloom) × (fold f mmap ≡ ok (out, stats))
    × (open_filter out ≡ ok b')
    × (b'.m * 2 ≡ b.m)
    × ((value : Bytes) → check b value ≡ some true → check b' value ≡ some true)

-- The header of the folded file.
abbrev fold_head : Header → ℕ → Header
fold_head h p = record h { version = 1; p = p; m = h.m / 2 }

-- What `fold` does to a file that opens and whose bit count is even and not 0.
module _ (f : Floats) (mmap : Bytes) (h : Header) (parsed : Dcso.parse mmap ≡ ok h) (pos : 0 < h.m)
    (even : h.m % 2 ≡ 0) (bytes : All IsByte mmap) where
  valid : (p : ℕ) → p < 2 ^ 64 → IsHeader (fold_head h p)
  valid p fits =
      let v = parse-IsHeader mmap h bytes parsed in
      record {
        version = omega arith;
        n_capacity = v.n_capacity;
        p = fits;
        k = v.k;
        m = omega (arith, v.m);
        n_elements = v.n_elements;
        supported = refl;
      }

  stats : FoldStats
  unfolding fold_header
  stats = (fold_header f mmap h).1

  fold_header-file : (fold_header f mmap h).0 ≡ file (fold_head h stats.p_new) (folded mmap h.m)
  unfolding fold_header stats
  fold_header-file = patch_p (fold_head h 0) _ (words_bytes (folded mmap h.m))

  fold_runs :
      header_len + div_ceil h.m 64 * 8 ≤ length mmap → fold f mmap ≡ ok (fold_header f mmap h)
  unfolding fold
  fold_runs long = rw (parsed, fold) (ground arith)

  whole : length (folded mmap h.m) ≡ div_ceil (h.m / 2) 64
  whole = length-folded_words (source_word mmap h.m) (h.m / 2) (div_ceil (h.m / 2) 64) 0

  fits : All IsWord (folded mmap h.m)
  fits =
      folded_words-IsWord (source_word mmap h.m) (h.m / 2) _ 0
        (source-IsWord mmap h.m pos even bytes)

  kept_key :
      (value : Bytes) (p n : ℕ)
      → check (record { k = h.k; m = h.m; mmap = mmap; n_elements = n }) value ≡ some true
      → check (opened (fold_head h p) (folded mmap h.m)) value ≡ some true
  unfolding check
  kept_key value p n found =
      unfold check in
      check-file (fold_head h p) (folded mmap h.m) fits whole (omega arith) value (
        rw (positions_half h.k (fnv1_64 value % modulus) h.m (h.m / 2) (omega arith)) (
          All-map (λ i. array_bit (folded mmap h.m) i ≡ 1) (λ i. i % (h.m / 2))
            (probes h.k h.m value) lit))
    where
      held : All (Holds (word_at mmap) 1) (probes h.k h.m value)
      held =
          Holds-check_bits (probes h.k h.m value) (word_at mmap)
            (sym (check_with_pos value h.k h.m pos (word_at mmap)) ∙ found)

      lit : All (λ i. array_bit (folded mmap h.m) (i % (h.m / 2)) ≡ 1) (probes h.k h.m value)
      lit =
          All-imp₂ (Holds (word_at mmap) 1) (λ i. i < h.m)
            (λ i. array_bit (folded mmap h.m) (i % (h.m / 2)) ≡ 1) (probes h.k h.m value)
            (λ i a b. kept_bit mmap h.m pos even bytes i (Holds-digit_at mmap i a) b) held
            (positions-lt h.k _ h.m pos)

  kept_all :
      (n : ℕ)
      → header_len + div_ceil h.m 64 * 8 ≤ length mmap
      → FoldKeeps f mmap (record { k = h.k; m = h.m; mmap = mmap; n_elements = n })
  unfolding stats fold_header
  kept_all n long =
      let p = (fold_header f mmap h).1.p_new in
      let out = fold_header f mmap h in
      (
        out.0,
        out.1,
        opened (fold_head h p) (folded mmap h.m),
        fold_runs long,
        rw fold_header-file
            (open_filter-file (fold_head h p) (folded mmap h.m) (valid p (f.powi_fits _ _)) whole),
        omega arith,
        λ value. kept_key value p n,
      )

-- Folding a filter that opens, with an even number of bits that is not 0, succeeds; the file it
-- writes opens, has half the bits, and answers `true` for every key for which the source does.
pub fold-check :
    (f : Floats) (mmap : Bytes) (b : Bloom)
    → open_filter mmap ≡ ok b
    → 0 < b.m
    → b.m % 2 ≡ 0
    → All IsByte mmap
    → FoldKeeps f mmap b
fold-check f mmap b e pos even bytes =
    let o = open_filter-ok mmap b e in
    let same = ap (λ (x : Bloom). x.m) o.fields in
    rw o.fields (
      kept_all f mmap o.head o.parsed (omega (arith, same)) (omega (arith, same)) bytes
        o.head.n_elements o.long)

-- A filter with an odd number of bits is refused.
pub fold_odd :
    (f : Floats) (mmap : Bytes) (b : Bloom)
    → open_filter mmap ≡ ok b
    → b.m % 2 ≡ 1
    → fold f mmap ≡ err (odd_size b.m)
unfolding fold
fold_odd f mmap b e odd =
    let o = open_filter-ok mmap b e in
    let same = ap (λ (x : Bloom). x.m) o.fields in rw (o.parsed, fold) (ground (arith, same))
