-- ===== src/Filter/Members.antt =====
-- A key added to a builder of src/filter.rs is found in the file that the builder writes.
use mathlib.Core.Option
use mathlib.Core.Path.{subst}
use hashdex.Base.{
  ℕ, ◌+◌, ◌%◌, ◌^◌, ◌<◌, ◌≡◌, refl, ap, sym, ◌∙◌, true, Option, none, some, List, [], ◌∷◌, length,
  replicate, length-replicate, All-replicate, All, All-imp, arith,
}
use hashdex.Base.Bytes.{Bytes, div_ceil}
use hashdex.Base.Outcome.{ok}
use hashdex.Dcso
use hashdex.Dcso.{
  bits_wanted, hashes_wanted, header_len, fnv1_64, positions, modulus, check_with, bits_len,
}
use hashdex.Dcso.Codec.{IsHeader}
use hashdex.Dcso.Probe.{bit_positions_pos}
use hashdex.Base.Floats.{Floats}
use hashdex.Filter.{new, BloomBuilder, Bloom, add, add_bits, write, header, open_filter, check}
use hashdex.Filter.File.{probes, probes_inside, opened, open_filter-file, check-file}
use hashdex.Filter.Words.{IsWord, array_bit, add_bits_lem}

-- The state of a builder between operations.
pub record IsBuilder (b : BloomBuilder) : Type 0 where
  pub m_pos : 0 < b.m
  pub m_fits : b.m < 2 ^ 64
  pub k_fits : b.k < 2 ^ 64
  pub n_capacity_fits : b.n_capacity < 2 ^ 64
  pub p_fits : b.p < 2 ^ 64
  pub n_elements_fits : b.n_elements < 2 ^ 64
  pub length_bits : length b.bits ≡ div_ceil b.m 64
  pub words_fit : All IsWord b.bits

-- Every bit that the key probes is set.
abbrev pub Contains : BloomBuilder → Bytes → Type 0
Contains b value = All (λ i. array_bit b.bits i ≡ 1) (probes b.k b.m value)

pub record Grown (b b' : BloomBuilder) : Type 0 where
  pub valid : IsBuilder b'
  pub kept : (value : Bytes) → Contains b value → Contains b' value

add_eq :
    (b : BloomBuilder) (value : Bytes)
    → 0 < b.m
    → add b value
      ≡ Option.map
          (λ words. record b { bits = words; n_elements = (b.n_elements + 1) % 2 ^ 64 })
          (add_bits (probes b.k b.m value) b.bits)
unfolding add
add_eq b value h = rw (bit_positions_pos value b.k b.m h, add)

-- On a valid builder `add` never panics: it keeps the builder valid, holds the new key, and loses none.
pub add_lem :
    (b : BloomBuilder) (value : Bytes)
    → IsBuilder b
    → (b' : BloomBuilder) × (add b value ≡ some b') × Grown b b' × Contains b' value
add_lem b value v =
    let (words, run, more, found) =
      add_bits_lem (probes b.k b.m value) b.bits v.words_fit
        (probes_inside b.k b.m (length b.bits) value v.m_pos v.length_bits) in
    (
      record b { bits = words; n_elements = (b.n_elements + 1) % 2 ^ 64 },
      add_eq b value v.m_pos ∙ ap (Option.map _) run,
      record {
        valid = record {
          m_pos = v.m_pos;
          m_fits = v.m_fits;
          k_fits = v.k_fits;
          n_capacity_fits = v.n_capacity_fits;
          p_fits = v.p_fits;
          n_elements_fits = omega arith;
          length_bits = more.same_length ∙ v.length_bits;
          words_fit = more.fits;
        };
        kept = λ w.
            All-imp (λ i. array_bit b.bits i ≡ 1) (λ i. array_bit words i ≡ 1) (probes b.k b.m w)
              (λ i h. more.kept i h);
      },
      found,
    )

header-IsHeader : (b : BloomBuilder) → IsBuilder b → IsHeader (header b)
header-IsHeader b v = record {
  version = omega arith;
  n_capacity = v.n_capacity_fits;
  p = v.p_fits;
  k = v.k_fits;
  m = v.m_fits;
  n_elements = v.n_elements_fits;
  supported = refl;
}

-- What `open_filter` makes of a written builder.
abbrev pub written : BloomBuilder → Bloom
written b = opened (header b) b.bits

open_filter-write : (b : BloomBuilder) → IsBuilder b → open_filter (write b) ≡ ok (written b)
unfolding write
open_filter-write b v = open_filter-file (header b) b.bits (header-IsHeader b v) v.length_bits

-- Any number of keys, one after the other.
pub add_all : BloomBuilder → List Bytes → Option BloomBuilder
add_all b [] = some b
add_all b (v ∷ vs) = elim (add b v) [ none ↦ none | some b' ↦ add_all b' vs ]

add_all_lem :
    (b : BloomBuilder) (vs : List Bytes)
    → IsBuilder b
    → (b' : BloomBuilder) × (add_all b vs ≡ some b') × Grown b b' × All (Contains b') vs
unfolding add_all
add_all_lem b [] v = (b, refl, record { valid = v; kept = λ w h. h }, tt)
add_all_lem b (value ∷ vs) v =
    let (b', run, more, found) = add_lem b value v in
    let (b'', run', more', found') = add_all_lem b' vs more.valid in
    (
      b'',
      rw (run, add_all) run',
      record { valid = more'.valid; kept = λ w h. more'.kept w (more.kept w h) },
      (more'.kept value found, found'),
    )

-- The keys can be added, the file opens, and the filter read from it answers `true` for each.
abbrev pub Found : BloomBuilder → List Bytes → Type 0
Found b keys =
    (b' : BloomBuilder) × (add_all b keys ≡ some b')
    × (bloom : Bloom) × (open_filter (write b') ≡ ok bloom)
    × All (λ key. check bloom key ≡ some true) keys

-- No false negatives: keys added to a valid builder are all found in the file that it writes, and
-- neither adding, opening nor checking fails.
pub no_false_negatives : (b : BloomBuilder) (keys : List Bytes) → IsBuilder b → Found b keys
no_false_negatives b keys v =
    let (b', run, more, found) = add_all_lem b keys v in
    (
      b',
      run,
      written b',
      open_filter-write b' more.valid,
      All-imp (Contains b') (λ key. check (written b') key ≡ some true) keys
          (check-file (header b') b'.bits more.valid.words_fit more.valid.length_bits
            more.valid.m_pos)
          found,
    )

fresh : ℕ → ℕ → ℕ → ℕ → BloomBuilder
fresh n p m k = record {
  k = k;
  m = m;
  n_capacity = n;
  p = p;
  n_elements = 0;
  bits = replicate (div_ceil m 64) 0;
}

new-ok :
    (f : Floats) (n p : ℕ) (b : BloomBuilder)
    → new f n p ≡ ok b
    → (let m = f.to_u64 (bits_wanted f n p) in b ≡ fresh n p m (f.to_u64 (hashes_wanted f n m)))
unfolding new Dcso.size_for fresh
new-ok f n p b h = ground arith

-- A new builder is valid when its parameters are `u64`s and the size computed for it is not 0.
new-IsBuilder :
    (f : Floats) (n p : ℕ) (b : BloomBuilder)
    → n < 2 ^ 64
    → p < 2 ^ 64
    → new f n p ≡ ok b
    → 0 < b.m
    → IsBuilder b
unfolding fresh
new-IsBuilder f n p b hn hp e pos =
    let m = f.to_u64 (bits_wanted f n p) in
    let k = f.to_u64 (hashes_wanted f n m) in
    let same = new-ok f n p b e in
    subst IsBuilder (sym same) (record {
      m_pos = omega (arith, ap (λ (x : BloomBuilder). x.m) same);
      m_fits = f.to_u64_fits _;
      k_fits = f.to_u64_fits _;
      n_capacity_fits = hn;
      p_fits = hp;
      n_elements_fits = omega arith;
      length_bits = length-replicate (div_ceil m 64) 0;
      words_fit = All-replicate IsWord (div_ceil m 64) 0 (omega arith);
    })
