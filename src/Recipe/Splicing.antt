-- ===== src/Recipe/Splicing.antt =====
-- src/recipe_cmd.rs: `splice_in` merges segments into a build that tiles its member, and the result
-- tiles it again.
use native.Mathlib.Omega.{arith}
use hashdex.Base.{
  ℕ, ◌+◌, ◌≤◌, ◌≡◌, refl, sym, ap, ◌∙◌, inl, inr, true, false, some, List, [], ◌∷◌, ◌++◌, All,
  All-append_left, All-imp, leb, ltb, ◌==◌, Bool-cases,
}
use mathlib.Core.List.{append-nil, append_assoc}
use hashdex.Recipe.{
  Seg, seg_at, seg_len, is_gap, put, insert, runs_size, Build, accept_all, without_gaps, taken_by,
  place, sort_onto, splice_build,
}
use hashdex.Recipe.Admission.{Ordered, Ordered-le, spans}
use hashdex.Recipe.Tiling.{Tiles, IsLong, tile_gaps-TiledFrom}
use hashdex.Recipe.Merging.{RunsTiled, IsKept, Merged, sort_onto-All, accept_all-Merged}

place-end :
    (pos : ℕ) (segs : List Seg) (s : Seg)
    → Ordered pos (seg_at s) segs
    → All IsLong segs
    → (place s segs ≡ segs ++ s ∷ [])
      × (insert (spans segs) (seg_at s) (seg_len s) ≡ spans (segs ++ s ∷ []))
unfolding place put
place-end pos [] s h l = (refl, refl)
place-end pos (x ∷ xs) s (h, hs) (l, ls) =
    let past : seg_at x + seg_len x ≤ seg_at s =
      Ordered-le (seg_at x + seg_len x) (seg_at s) xs hs in
    let (placed, same) = place-end (seg_at x + seg_len x) xs s hs ls in
    let a : leb (seg_at x) (seg_at s) ≡ true = ground arith in
    let b : ltb (seg_at s) (seg_at x) ≡ false = ground arith in
    let c : (seg_at x == seg_at s) ≡ false = ground arith in
    (rw a (ap (λ t. x ∷ t) placed), rw (b, c) (ap (λ t. (seg_at x, seg_at x + seg_len x) ∷ t) same))

Ordered-front :
    (pos size : ℕ) (acc : List Seg) (s : Seg) (segs : List Seg)
    → Ordered pos size (acc ++ s ∷ segs)
    → Ordered pos (seg_at s) acc
Ordered-front pos size [] s segs (h, hs) = h
Ordered-front pos size (x ∷ acc) s segs (h, hs) =
    (h, Ordered-front (seg_at x + seg_len x) size acc s segs hs)

-- Segments in order are already sorted, and take their spans.
in_order :
    (size : ℕ) (acc segs : List Seg)
    → Ordered 0 size (acc ++ segs)
    → All IsLong (acc ++ segs)
    → (sort_onto acc segs ≡ acc ++ segs) × (taken_by (spans acc) segs ≡ spans (acc ++ segs))
unfolding sort_onto taken_by
in_order size acc [] h l = (sym (append-nil acc), ap (λ t. spans t) (sym (append-nil acc)))
in_order size acc (s ∷ segs) h l =
    let (placed, same) =
      place-end 0 acc s (Ordered-front 0 size acc s segs h)
        (All-append_left IsLong acc (s ∷ segs) l) in
    let grouped : (acc ++ s ∷ []) ++ segs ≡ acc ++ s ∷ segs = append_assoc acc (s ∷ []) segs in
    let (sorted, taken) = in_order size (acc ++ s ∷ []) segs (rw grouped h) (rw grouped l) in
    (rw placed (sorted ∙ grouped), rw same (taken ∙ ap (λ t. spans t) grouped))

Tiles-Ordered :
    (pos low size : ℕ) (segs : List Seg)
    → low ≤ pos
    → Tiles pos size segs
    → Ordered low size (without_gaps segs)
unfolding without_gaps
Tiles-Ordered pos low size [] le h = omega arith
Tiles-Ordered pos low size (s ∷ segs) le (h, hs) =
    let end_ = seg_at s + seg_len s in
    elim (Bool-cases (is_gap s)) [
      | inl p ↦ rw p (Tiles-Ordered end_ low size segs (omega arith) hs)
      | inr p ↦ rw p (omega arith, Tiles-Ordered end_ end_ size segs (omega arith) hs)
    ]

without_gaps-IsKept : (segs : List Seg) → All IsLong segs → All IsKept (without_gaps segs)
unfolding without_gaps
without_gaps-IsKept [] l = tt
without_gaps-IsKept (s ∷ segs) (l, ls) = elim (Bool-cases (is_gap s)) [
  | inl p ↦ rw p (without_gaps-IsKept segs ls)
  | inr p ↦ rw p ((p, l), without_gaps-IsKept segs ls)
]

without_gaps-kept : (segs : List Seg) → All IsKept segs → without_gaps segs ≡ segs
unfolding without_gaps
without_gaps-kept [] h = refl
without_gaps-kept (s ∷ segs) ((g, l), hs) = rw g (ap (λ t. s ∷ t) (without_gaps-kept segs hs))

-- A build whose segments tile its member, and whose runs hold the member in order.
abbrev pub IsBuild : Build → Type 0
IsBuild b = RunsTiled 0 b.runs × Tiles 0 (runs_size b.runs) b.segs × All IsLong b.segs

-- What a merge makes of a build: a build of the same member, with all the segments that were
-- there and those that were added.
abbrev pub Spliced : Build → List Seg → Type 0
Spliced b extra =
    (b' : Build) × (added : List Seg) × (splice_build b extra ≡ some b')
    × IsBuild b'
    × (without_gaps b'.segs ≡ sort_onto [] (without_gaps b.segs ++ added))

start-IsMerge :
    (b : Build)
    → IsBuild b
    → Merged
        (runs_size b.runs)
        (without_gaps b.segs)
        (without_gaps b.segs, taken_by [] (without_gaps b.segs))
start-IsMerge b (runs, tiles, long) =
    let kept = without_gaps b.segs in
    let ordered : Ordered 0 (runs_size b.runs) kept =
      Tiles-Ordered 0 0 (runs_size b.runs) b.segs (omega arith) tiles in
    let all_kept : All IsKept kept = without_gaps-IsKept b.segs long in
    let (sorted, taken) =
      in_order (runs_size b.runs) [] kept ordered
        (All-imp IsKept IsLong kept (λ s h. h.1) all_kept) in
    (
      (rw sorted ordered, taken ∙ ap (λ t. spans t) (sym sorted), all_kept),
      [],
      sym (append-nil kept),
    )

-- Merging any segments that are not empty into a build whose segments tile its member fails no
-- assertion; the result again tiles the member with segments that are not empty, and its segments
-- that are no gaps are the ones that were there with those added, sorted.
pub splice_build-Spliced :
    (b : Build) (extra : List Seg) → IsBuild b → All IsLong extra → Spliced b extra
unfolding splice_build
splice_build-Spliced b extra (runs, tiles, long) l =
    let kept = without_gaps b.segs in
    let m = accept_all b.runs (kept, taken_by [] kept) extra in
    let ((ordered, taken, all_kept), added, e) =
      accept_all-Merged b.runs kept (kept, taken_by [] kept) extra runs l
        (start-IsMerge b (runs, tiles, long)) in
    let sorted = sort_onto [] m.0 in
    let sorted_kept : All IsKept sorted = sort_onto-All IsKept [] m.0 tt all_kept in
    let (tiled, run, (covers, same, each_long)) =
      tile_gaps-TiledFrom (runs_size b.runs) sorted ordered
        (All-imp IsKept IsLong sorted (λ s h. h.1) sorted_kept) in
    (
      record { segs = tiled; runs = b.runs },
      added,
      rw run,
      (runs, covers, each_long),
      same ∙ without_gaps-kept sorted sorted_kept ∙ ap (λ t. sort_onto [] t) e,
    )
