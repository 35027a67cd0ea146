-- ===== src/Recipe/Tiling.antt =====
-- src/recipe_cmd.rs: `tile_gaps` fills exactly the space between segments.
use hashdex.Base.{
  ℕ, ◌+◌, ◌-◌, ◌≤◌, ◌<◌, ◌≡◌, refl, ap, ◌∙◌, inl, inr, true, some, List, [], ◌∷◌, ◌++◌, All, leb,
  ltb, if◌then◌else◌, arith, Bool-cases, le→leb, not_ltb→le,
}
use mathlib.Core.List.{append-nil}
use hashdex.Recipe.{Seg, seg_at, seg_len, is_gap, gap_to, tile_from, tile_gaps, without_gaps}
use hashdex.Recipe.Admission.{Ordered}

-- Segments that cover the range from `pos` to `size`, each starting where the one before ends.
abbrev pub Tiles : ℕ → ℕ → List Seg → Type 0
Tiles pos size [] = pos ≡ size
Tiles pos size (s ∷ segs) = (seg_at s ≡ pos) × Tiles (seg_at s + seg_len s) size segs

-- The gap between two places, and what comes after it.
gap_to-Tiles :
    (pos at size : ℕ) (rest : List Seg)
    → pos ≤ at
    → Tiles at size rest
    → Tiles pos size (gap_to pos at ++ rest)
unfolding gap_to
gap_to-Tiles pos at size rest h t = elim (Bool-cases (ltb pos at)) [
  | inl p ↦ let back : at ≡ pos + (at - pos) = ground arith in rw p (refl, rw back at t)
  | inr p ↦ let same : at ≡ pos = omega (arith, not_ltb→le pos at p) in rw p (rw same at t)
]

gap_to-kept :
    (pos at : ℕ) (rest : List Seg) → without_gaps (gap_to pos at ++ rest) ≡ without_gaps rest
unfolding gap_to without_gaps
gap_to-kept pos at rest = elim (Bool-cases (ltb pos at)) [ inl p ↦ rw p | inr p ↦ rw p ]

abbrev pub IsLong : Seg → Type 0
IsLong s = 0 < seg_len s

gap_to-IsLong :
    (pos at : ℕ) (rest : List Seg) → All IsLong rest → All IsLong (gap_to pos at ++ rest)
unfolding gap_to
gap_to-IsLong pos at rest h = elim (Bool-cases (ltb pos at)) [
  | inl p ↦ rw p (ground arith, h)
  | inr p ↦ rw p h
]

-- A tiling made of some segments and the gaps between them, none of them empty.
abbrev pub TiledFrom : ℕ → ℕ → List Seg → List Seg → Type 0
TiledFrom pos size segs tiled =
    Tiles pos size tiled × (without_gaps tiled ≡ without_gaps segs) × All IsLong tiled

tile_from-TiledFrom :
    (pos size : ℕ) (segs : List Seg)
    → Ordered pos size segs
    → All IsLong segs
    → (tiled : List Seg) × (tile_from pos segs size ≡ some tiled) × TiledFrom pos size segs tiled
unfolding tile_from without_gaps
tile_from-TiledFrom pos size [] h l =
    let alone : gap_to pos size ++ [] ≡ gap_to pos size = append-nil (gap_to pos size) in
    let tiles : Tiles pos size (gap_to pos size ++ []) = gap_to-Tiles pos size size [] h refl in
    let long : All IsLong (gap_to pos size ++ []) = gap_to-IsLong pos size [] tt in
    let kept : without_gaps (gap_to pos size ++ []) ≡ [] = gap_to-kept pos size [] in
    (gap_to pos size, refl, (rw alone at tiles, rw alone at kept, rw alone at long))
tile_from-TiledFrom pos size (s ∷ segs) (h, hs) (l, ls) =
    let (rest, run, (tiles, kept, long)) =
      tile_from-TiledFrom (seg_at s + seg_len s) size segs hs ls in
    let lo : leb pos (seg_at s) ≡ true = le→leb pos (seg_at s) h in
    (
      gap_to pos (seg_at s) ++ s ∷ rest,
      rw (lo, run),
      (
        gap_to-Tiles pos (seg_at s) size (s ∷ rest) h (refl, tiles),
        gap_to-kept pos (seg_at s) (s ∷ rest) ∙ ap (λ t. if is_gap s then t else s ∷ t) kept,
        gap_to-IsLong pos (seg_at s) (s ∷ rest) (l, long),
      ),
    )

-- Segments in order and apart, none of them empty, are tiled without a failed assertion: the result
-- covers the build exactly with segments that are not empty, and without its gaps it is the segments.
pub tile_gaps-TiledFrom :
    (size : ℕ) (segs : List Seg)
    → Ordered 0 size segs
    → All IsLong segs
    → (tiled : List Seg) × (tile_gaps segs size ≡ some tiled) × TiledFrom 0 size segs tiled
unfolding tile_gaps
tile_gaps-TiledFrom size segs h l = tile_from-TiledFrom 0 size segs h l
