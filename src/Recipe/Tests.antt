-- ===== src/Recipe/Tests.antt =====
-- Runs of the merge of src/recipe_cmd.rs on a small build, and its theorems there.
use hashdex.Base.{ℕ, ◌≡◌, refl, none, some, List, [], ◌∷◌, arith}
use hashdex.Recipe.{
  Seg, child, tabled, pcluster, gap, Build, splice_build, accept_all, accept, relocated, run_of,
  without_gaps, taken_by, place, sort_onto, tile_gaps, tile_from, gap_to, admits, free_at,
  starts_in, put, last_end, runs_size,
}
use hashdex.Recipe.Tiling.{TiledFrom, tile_gaps-TiledFrom}
use hashdex.Base.{ap, sym, ◌+◌, ◌++◌, replicate, get_or, All, true}
use hashdex.Base.Bytes.{Bytes}
use hashdex.Base.{take, drop}
use hashdex.Recipe.{Runs}
use hashdex.Recipe.Ranges.{map_range, map_from, root_bytes, member_bytes, map_range-take}
use hashdex.Recipe.Covers.{Cover, Copies, splice_span, splice_span-Copies}
use hashdex.Recipe.Rotated.{PCluster, interlaced, splice_rotated, splice_rotated-Copies}
use hashdex.Recipe.Splicing.{IsBuild, Spliced, splice_build-Spliced}

-- A child in the middle of 100 bytes, which are two runs of the root file.
abbrev image : Build
image = record {
  segs = gap 0 30 none none ∷ child 1 0 20 30 530 ∷ gap 50 50 none none ∷ [];
  runs = (0, 500, 60) ∷ (60, 900, 40) ∷ [];
}

abbrev extra : List Seg
extra = tabled 2 0 10 0 60 ∷ pcluster 7 0 10 25 ∷ pcluster 8 0 10 55 ∷ tabled 3 4 5 0 10 ∷ []

image-IsBuild : IsBuild image
unfolding runs_size
image-IsBuild = (
  (refl, (refl, tt)),
  (refl, (refl, (refl, refl))),
  (omega arith, (omega arith, (omega arith, tt))),
)

-- The second overlaps the child, and the third straddles the runs.
merged :
    splice_build image extra
    ≡ some (record {
      segs =
          gap 0 10 none none
          ∷ tabled 3 4 5 10 510
          ∷ gap 15 15 none none
          ∷ child 1 0 20 30 530
          ∷ gap 50 10 none none
          ∷ tabled 2 0 10 60 900
          ∷ gap 70 30 none none
          ∷ [];
      runs = (0, 500, 60) ∷ (60, 900, 40) ∷ [];
    })
unfolding splice_build accept_all accept relocated run_of without_gaps taken_by place sort_onto
    tile_gaps tile_from gap_to admits free_at starts_in put last_end runs_size
merged = refl

splice_build-Spliced_example : Spliced image extra
splice_build-Spliced_example =
    splice_build-Spliced image extra image-IsBuild
      (omega arith, (omega arith, (omega arith, (omega arith, tt))))

tile_gaps-TiledFrom_example :
    (tiled : List Seg) × (tile_gaps (child 1 0 20 30 530 ∷ tabled 2 0 10 60 900 ∷ []) 100
      ≡ some tiled)
    × TiledFrom 0 100 (child 1 0 20 30 530 ∷ tabled 2 0 10 60 900 ∷ []) tiled
tile_gaps-TiledFrom_example =
    tile_gaps-TiledFrom 100 (child 1 0 20 30 530 ∷ tabled 2 0 10 60 900 ∷ [])
      (omega arith, (omega arith, omega arith)) (omega arith, (omega arith, tt))

-- A pcluster of 200 bytes, stored with its second half first.
abbrev logical : Bytes
logical = replicate 80 1 ++ replicate 120 2

abbrev stored : Bytes
stored = replicate 120 2 ++ replicate 80 1

abbrev rotated : PCluster
rotated = record { la = 0; pa = 0; plen = 200; alg = interlaced 120 }

abbrev whole : List Cover
whole = record { idx = 4; from = 0; pstart = 0; len = 200; proved = true } ∷ []

from_zero : (bytes : Bytes) (i : ℕ) → get_or bytes i 0 ≡ get_or bytes (0 + i) 0
from_zero bytes i = let e : i ≡ 0 + i = omega arith in ap (λ j. get_or bytes j 0) e

splice_rotated-Copies_example :
    All
      (Copies (λ idx j. get_or logical j 0) (λ j. get_or logical j 0) (λ j. get_or stored j 0))
      (splice_rotated rotated logical stored whole []).1
splice_rotated-Copies_example =
    splice_rotated-Copies (λ idx j. get_or logical j 0) (λ j. get_or logical j 0)
      (λ j. get_or stored j 0) rotated logical stored (λ i lt. sym (from_zero logical i))
      (λ i lt. from_zero stored i) whole [] ((λ k lt. refl), tt) tt

splice_span-Copies_example :
    All (Copies (λ idx j. j) (λ j. j) (λ j. j)) (splice_span whole 0 200 0 [])
splice_span-Copies_example =
    splice_span-Copies (λ idx j. j) (λ j. j) (λ j. j) whole 0 200 0 [] ((λ k lt. refl), tt)
      (λ i lt. refl) tt

abbrev root : Bytes
root = 10 ∷ 11 ∷ 12 ∷ 13 ∷ 14 ∷ 15 ∷ 16 ∷ 17 ∷ []

abbrev runs : Runs
runs = (0, 5, 3) ∷ (3, 1, 2) ∷ []

over_two_runs : map_range runs 2 2 ≡ (7, 1) ∷ (1, 1) ∷ []
unfolding map_range map_from
over_two_runs = refl

map_range-take_example :
    root_bytes root (map_range runs 2 2) ≡ take 2 (drop 2 (member_bytes root runs))
map_range-take_example =
    map_range-take root runs 2 2 (refl, (refl, tt)) (omega arith, (omega arith, tt))
