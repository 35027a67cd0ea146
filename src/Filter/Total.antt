-- ===== src/Filter/Total.antt =====
-- When `Bloom::check` of src/filter.rs can panic.
use hashdex.Base.{
  ℕ, ◌+◌, ◌*◌, ◌/◌, ◌^◌, ◌<◌, ◌≤◌, ◌≡◌, refl, ap, ◌∙◌, Bool, none, some, All-imp, length, arith,
}
use mathlib.Core.Option
use hashdex.Base.Bytes.{Bytes, from_le, slice-eq_some, div_ceil}
use hashdex.Base.Outcome.{ok}
use hashdex.Dcso
use hashdex.Dcso.{header_len, positions, modulus, fnv1_64}
use hashdex.Dcso.Probe.{Readable, check_bits_total, check_with_pos}
use hashdex.Filter.{Bloom, open_filter, check, word_at}
use hashdex.Filter.File.{open_filter-ok, probes, probes_inside}

word-Readable :
    (mmap : Bytes) (n i : ℕ)
    → header_len + n * 8 ≤ length mmap
    → i / 2 ^ 6 < n
    → Readable (word_at mmap) i
word-Readable mmap n i long h =
    (_, ap (Option.map from_le) (slice-eq_some mmap (header_len + i / 2 ^ 6 * 8) 8 (omega arith)))

-- On a filter that opened, with at least one bit, every check answers: no probe reads past the file.
pub check_total :
    (mmap : Bytes) (b : Bloom) (value : Bytes)
    → open_filter mmap ≡ ok b
    → 0 < b.m
    → (answer : Bool) × (check b value ≡ some answer)
unfolding check
check_total mmap b value e pos =
    let o = open_filter-ok mmap b e in
    let m = o.head.m in
    let same = ap (λ (x : Bloom). x.m) o.fields in
    let pos' : 0 < m = omega (arith, same) in
    let reads = check_bits_total (probes o.head.k m value) (word_at mmap) (
      All-imp (λ i. i / 2 ^ 6 < div_ceil m 64) (Readable (word_at mmap)) (probes o.head.k m value)
        (λ i h. word-Readable mmap (div_ceil m 64) i o.long h)
        (probes_inside o.head.k m (div_ceil m 64) value pos' refl)) in
    (reads.0, rw o.fields (check_with_pos value o.head.k m pos' (word_at mmap) ∙ reads.1))

-- Every check of a filter that states no bits and at least one probe panics.
check_no_bits : (b : Bloom) (value : Bytes) → b.m ≡ 0 → 0 < b.k → check b value ≡ none
unfolding check Dcso.check_with Dcso.bit_positions
check_no_bits b value e h = ground arith
