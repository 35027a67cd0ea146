-- ===== src/Filter/Tests.antt =====
-- Runs of src/filter.rs on small filters, and its theorems at concrete inputs.
use hashdex.Base.{ℕ, ◌≡◌, refl, Bool, true, none, some, List, [], ◌∷◌, All, arith, replicate}
use hashdex.Base.Bytes.{Bytes, IsByte}
use hashdex.Base.Floats.{Floats}
use hashdex.Base.Outcome.{ok}
use hashdex.Base.Text.{codes}
use hashdex.Coord.{sha1, sha256, hex_lower}
use hashdex.Dcso
use hashdex.Filter.{BloomBuilder, Bloom, new, write, open_filter, open_header, check}
use hashdex.Filter.Folding.{FoldKeeps, fold-check}
use hashdex.Filter.Key.{bloom_key, hex_upper, filter_name}
use hashdex.Filter.Members.{IsBuilder, Found, no_false_negatives}
use hashdex.Filter.Total.{check_total}

abbrev small : ℕ → BloomBuilder
small m = record { k = 2; m = m; n_capacity = 3; p = 7; n_elements = 0; bits = replicate 2 0 }

small-IsBuilder : IsBuilder (small 100)
small-IsBuilder = record {
  m_pos = omega arith;
  m_fits = omega arith;
  k_fits = omega arith;
  n_capacity_fits = omega arith;
  p_fits = omega arith;
  n_elements_fits = omega arith;
  length_bits = refl;
  words_fit = omega arith;
}

abbrev keys : List Bytes
keys = codes "A9993E36" ∷ codes "DA39A3EE" ∷ []

no_false_negatives_example : Found (small 100) keys
no_false_negatives_example = no_false_negatives (small 100) keys small-IsBuilder

-- Floats whose every value is the pattern 64, with a comparison that holds.
abbrev constant : Floats
constant = record {
  zero = 0;
  one = 64;
  ln_2 = 64;
  lt = λ a b. true;
  of_u64 = λ n. 64;
  to_u64 = λ x. 64;
  neg = λ x. 64;
  ln = λ x. 64;
  ceil = λ x. 64;
  round = λ x. 64;
  max = λ a b. 64;
  mul = λ a b. 64;
  div = λ a b. 64;
  powi = λ x k. 64;
  to_u64_fits = λ x. omega arith;
  powi_fits = λ x k. omega arith;
}

abbrev sized : BloomBuilder
sized = record { k = 64; m = 64; n_capacity = 5; p = 9; n_elements = 0; bits = 0 ∷ [] }

new_runs : new constant 5 9 ≡ ok sized
unfolding new Dcso.size_for
new_runs = refl

abbrev opened_small : ℕ → Bloom
opened_small m = record { k = 2; m = m; mmap = write (small m); n_elements = 0 }

small_opens : open_filter (write (small 100)) ≡ ok (opened_small 100)
unfolding open_filter open_header write Dcso.parse Dcso.to_bytes
small_opens = refl

small-bytes : All IsByte (write (small 100))
unfolding write Dcso.to_bytes
small-bytes = omega arith

fold-check_example : FoldKeeps constant (write (small 100)) (opened_small 100)
fold-check_example =
    fold-check constant (write (small 100)) (opened_small 100) small_opens (omega arith) refl
      small-bytes

check_total_example : (answer : Bool) × (check (opened_small 100) (codes "KEY") ≡ some answer)
check_total_example =
    check_total (write (small 100)) (opened_small 100) (codes "KEY") small_opens (omega arith)

abbrev no_bits : Bloom
no_bits = record { k = 1; m = 0; mmap = []; n_elements = 0 }

key_cases :
    (bloom_key sha1 (0xab ∷ 0x09 ∷ []) ≡ some (codes "AB09"))
    × (bloom_key sha256 (0xab ∷ 0x09 ∷ []) ≡ some (codes "ab09"))
    × (filter_name (codes "swh.sha256.bloom") ≡ some (codes "swh", sha256))
    × (filter_name (codes "swh.v2.sha256.bloom") ≡ none)
unfolding bloom_key hex_upper hex_lower filter_name
key_cases = (refl, refl, refl, refl)
