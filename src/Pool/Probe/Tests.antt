-- ===== src/Pool/Probe/Tests.antt =====
-- Runs of `probe` of src/peek_pool.rs over filters that src/filter.rs built, and the theorem at a
-- concrete input.
use hashdex.Base.{
  ℕ, ◌^◌, ◌≡◌, ◌⊎◌, ◌↔◌, refl, Bool, true, false, some, List, [], ◌∷◌, All, arith, replicate,
}
use mathlib.Core.List.{Memᴰ}
use hashdex.Base.Bytes.{Bytes}
use hashdex.Base.Sorting.{sort_by, dedup_by, insert_by}
use hashdex.Base.Text.{Text, codes}
use hashdex.Coord.{sha1}
use hashdex.Filter.{BloomBuilder, Bloom}
use hashdex.Filter.Key.{bloom_key, hex_upper}
use hashdex.Filter.Members.{IsBuilder, Found, no_false_negatives}
use hashdex.Pool.Probe.{NamedFilter, fires, probe, probe_loop, probe_skipping}

abbrev builder : BloomBuilder
builder = record { k = 2; m = 100; n_capacity = 3; p = 7; n_elements = 0; bits = replicate 2 0 }

builder-IsBuilder : IsBuilder builder
builder-IsBuilder = record {
  m_pos = omega arith;
  m_fits = omega arith;
  k_fits = omega arith;
  n_capacity_fits = omega arith;
  p_fits = omega arith;
  n_elements_fits = omega arith;
  length_bits = refl;
  words_fit = omega arith;
}

abbrev digest1 : Bytes
digest1 = replicate 20 0xa7

abbrev digest2 : Bytes
digest2 = replicate 32 9

-- A filter that the first digest was added to.
built : Found builder (hex_upper digest1 ∷ [])
built = no_false_negatives builder (hex_upper digest1 ∷ []) builder-IsBuilder

abbrev bloom : Bloom
bloom = built.2

abbrev filter : Text → ℕ → NamedFilter
filter name bytes = record { name = name; scheme = sha1; bloom = bloom; bytes = bytes }

abbrev two : List NamedFilter
two = filter (codes "swh") 100 ∷ filter (codes "circl") (2 ^ 32) ∷ []

hit : (name : Text) (bytes : ℕ) → fires digest1 digest2 (filter name bytes) ≡ some true
unfolding fires bloom_key
hit name bytes = built.4.0

-- The expensive one is skipped, since the cheap one has the digest.
two_runs : probe two digest1 digest2 false ≡ some (codes "swh" ∷ [], true)
unfolding probe probe_loop sort_by dedup_by insert_by
two_runs = rw (hit (codes "swh") 100) refl

probe_skipping_example :
    (m m' : List Text) × (skipped : Bool) × (probe two digest1 digest2 false ≡ some (m, skipped))
    × (probe two digest1 digest2 true ≡ some (m', false))
    × All (λ t. Memᴰ t m') m
    × ((m ≡ []) ↔ (m' ≡ []))
    × ((skipped ≡ true) ⊎ (m ≡ m'))
probe_skipping_example =
    probe_skipping two digest1 digest2
      ((true, hit (codes "swh") 100), ((true, hit (codes "circl") (2 ^ 32)), tt))
