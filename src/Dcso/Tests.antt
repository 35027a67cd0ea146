-- ===== src/Dcso/Tests.antt =====
-- Runs of src/dcso.rs, and its theorem at a concrete input.
use hashdex.Base.{◌≡◌, refl, [], ◌∷◌, ◌++◌, arith}
use hashdex.Base.Outcome.{ok}
use hashdex.Base.Text.{codes}
use hashdex.Dcso.{Header, parse, to_bytes, fnv1_64, fnv1_loop, bit_location}
use hashdex.Dcso.Codec.{parse-to_bytes}

abbrev head : Header
head = record {
  version = 1;
  n_capacity = 100;
  p = 4576918229304087675;
  k = 7;
  m = 959;
  n_elements = 3;
}

parse-to_bytes_example : parse (to_bytes head ++ 9 ∷ []) ≡ ok head
parse-to_bytes_example = parse-to_bytes head (9 ∷ []) (record {
  version = omega arith;
  n_capacity = omega arith;
  p = omega arith;
  k = omega arith;
  m = omega arith;
  n_elements = omega arith;
  supported = refl;
})

-- FNV-1 of the empty string and of "a"
fnv_runs : (fnv1_64 [] ≡ 0xcbf29ce484222325) × (fnv1_64 (codes "a") ≡ 0xaf63bd4c8601b7be)
unfolding fnv1_64 fnv1_loop
fnv_runs = (refl, refl)

location_run : bit_location 130 ≡ (64, 4)
location_run = refl
