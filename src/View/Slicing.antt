-- ===== src/View/Slicing.antt =====
-- src/peek_source.rs: `View::slice`, which translates ranges of a view down to its source.
use hashdex.Base.{
  ℕ, ◌+◌, ◌-◌, ◌≤◌, ◌<◌, ◌^◌, min, max, ◌≡◌, refl, sym, ap, ap₂, ◌∙◌, inl, inr, true, false, ◌||◌,
  List, [], ◌∷◌, ◌++◌, length, take, drop, All, leb, arith, Bool-cases, leb→le, not_leb→lt,
  lt→not_leb, le→leb,
}
use hashdex.Base.{length-drop, All-append}
use mathlib.Core.List.{append-nil, append_assoc}
use hashdex.Base.Bytes.{Bytes}
use hashdex.Base.Slices.{
  take-in_piece, take_at, drop_at, take-append, drop-append, drop-all, take-all, take-min, drop-min,
}
use hashdex.View.{Extent, Range, View, slice_range, slice_ranges, slice, saturating_add}
use hashdex.View.Window.{
  IsView, view_bytes, Tiled, piece, extent_bytes, range_bytes, length-piece, WithinExtent,
  WithinRange, new-IsView, view_bytes-new,
}
use hashdex.View.Reads.{length-view_bytes}

pub range_bytes-append :
    (c : Bytes) (xs ys : List Range)
    → range_bytes c (xs ++ ys) ≡ range_bytes c xs ++ range_bytes c ys
range_bytes-append c [] ys = refl
range_bytes-append c ((off, len) ∷ xs) ys =
    ap (λ t. take len (drop off c) ++ t) (range_bytes-append c xs ys)
    ∙ sym (append_assoc (take len (drop off c)) (range_bytes c xs) (range_bytes c ys))

-- What `slice_range` is to select from extents that start at `b`.
abbrev Selected : Bytes → ℕ → ℕ → ℕ → List Extent → Type 0
Selected c b lo hi es =
    range_bytes c (slice_range lo hi es) ≡ take (hi - max lo b) (drop (lo - b) (extent_bytes c es))

module _ (c : Bytes) (b lo hi : ℕ) (e : Extent) (es : List Extent) (t : Tiled b (e ∷ es))
    (h : WithinExtent c e) where
  size : length (piece c e) ≡ e.elen
  size = length-piece c e h

  done : hi ≤ lo → Selected c b lo hi (e ∷ es)
  unfolding slice_range
  done p =
      rw (le→leb hi lo p)
        (take_at 0 (hi - max lo b) (drop (lo - b) (extent_bytes c (e ∷ es))) (omega arith))

  after : Bytes
  after = extent_bytes c es

  passed_same :
      lo < hi
      → (leb (e.elog + e.elen) lo || leb hi e.elog) ≡ true
      → take (hi - max lo (b + e.elen)) (drop (lo - (b + e.elen)) (extent_bytes c es))
        ≡ take (hi - max lo b) (drop (lo - b) (extent_bytes c (e ∷ es)))
  passed_same p q =
      let log : e.elog ≡ b = t.0 in
      elim (Bool-cases (leb (e.elog + e.elen) lo)) [
        | inl r ↦
            let past : e.elog + e.elen ≤ lo = leb→le (e.elog + e.elen) lo r in
            sym (
              ap (λ u. take (hi - max lo b) u)
                (drop-append (lo - b) (piece c e) (extent_bytes c es)
                  ∙ ap₂ (λ u w. u ++ w) (drop-all (lo - b) (piece c e) (omega (arith, size)))
                      (drop_at (lo - b - length (piece c e)) (lo - (b + e.elen)) (extent_bytes c es)
                        (omega (arith, size))))
              ∙ take_at (hi - max lo b) (hi - max lo (b + e.elen))
                  (drop (lo - (b + e.elen)) (extent_bytes c es)) (omega arith))
        | inr r ↦
            let before : hi ≤ e.elog = ground arith in
            take_at (hi - max lo (b + e.elen)) 0 (drop (lo - (b + e.elen)) (extent_bytes c es))
              (omega arith)
            ∙ take_at 0 (hi - max lo b) (drop (lo - b) (extent_bytes c (e ∷ es))) (omega arith)
      ]

  passed :
      lo < hi
      → (leb (e.elog + e.elen) lo || leb hi e.elog) ≡ true
      → Selected c (b + e.elen) lo hi es
      → Selected c b lo hi (e ∷ es)
  unfolding slice_range
  passed p q rec = rw (lt→not_leb hi lo p, q) (rec ∙ passed_same p q)

  module _ (p : lo < hi) (below : lo < e.elog + e.elen) (above : e.elog < hi) where
    cut : Bytes
    cut = drop (lo - b) (piece c e)

    cut_size : length cut ≡ e.elen - (lo - b)
    unfolding cut
    cut_size = omega (arith, length-drop (lo - b) (piece c e), size)

    head_same :
        take (min hi (e.elog + e.elen) - max lo e.elog) (drop (e.eoff + (max lo e.elog - e.elog)) c)
        ≡ take (hi - max lo b) cut
    unfolding cut
    head_same =
        let log : e.elog ≡ b = t.0 in
        let n = min hi (e.elog + e.elen) - max lo e.elog in
        let w = max lo e.elog - e.elog in
        take-in_piece n w e.eoff e.elen c [] (omega arith) h
        ∙ ap (λ u. take n u) (append-nil (drop w (piece c e)))
        ∙ ap (λ u. take n u) (drop_at w (lo - b) (piece c e) (omega arith))
        ∙ take_at n (min (hi - max lo b) (length cut)) cut (omega (arith, cut_size))
        ∙ take-min (hi - max lo b) cut

    inside_same :
        take (hi - max lo b) cut
          ++ take
              (hi - max (min hi (e.elog + e.elen)) (b + e.elen))
              (drop (min hi (e.elog + e.elen) - (b + e.elen)) (extent_bytes c es))
        ≡ take (hi - max lo b) (drop (lo - b) (extent_bytes c (e ∷ es)))
    unfolding cut
    inside_same =
        let log : e.elog ≡ b = t.0 in
        sym (
          ap (λ u. take (hi - max lo b) u)
            (drop-append (lo - b) (piece c e) (extent_bytes c es)
              ∙ ap (λ u. cut ++ u)
                  (drop_at (lo - b - length (piece c e)) (min hi (e.elog + e.elen) - (b + e.elen))
                    (extent_bytes c es) (omega (arith, size))))
          ∙ take-append (hi - max lo b) cut
              (drop (min hi (e.elog + e.elen) - (b + e.elen)) (extent_bytes c es))
          ∙ ap (λ u. take (hi - max lo b) cut ++ u)
              (take_at (hi - max lo b - length cut)
                (hi - max (min hi (e.elog + e.elen)) (b + e.elen))
                (drop (min hi (e.elog + e.elen) - (b + e.elen)) (extent_bytes c es))
                (omega (arith, cut_size))))

    inside : Selected c (b + e.elen) (min hi (e.elog + e.elen)) hi es → Selected c b lo hi (e ∷ es)
    unfolding slice_range
    inside rec =
        let q : (leb (e.elog + e.elen) lo || leb hi e.elog) ≡ false = ground arith in
        rw (lt→not_leb hi lo p, q) (ap₂ (λ u w. u ++ w) head_same rec ∙ inside_same)

selected :
    (c : Bytes) (b lo hi : ℕ) (es : List Extent)
    → Tiled b es
    → All (WithinExtent c) es
    → Selected c b lo hi es
unfolding slice_range
selected c b lo hi [] t w = sym (
    ap (λ u. take (hi - max lo b) u) (drop-all (lo - b) [] (omega arith))
    ∙ take-all (hi - max lo b) [] (omega arith))
selected c b lo hi (e ∷ es) t (h, hs) = elim (Bool-cases (leb hi lo)) [
  | inl p ↦ done c b lo hi e es t h (leb→le hi lo p)
  | inr p ↦
      let lt : lo < hi = not_leb→lt hi lo p in
      elim (Bool-cases (leb (e.elog + e.elen) lo || leb hi e.elog)) [
        | inl q ↦ passed c b lo hi e es t h lt q (selected c (b + e.elen) lo hi es t.2 hs)
        | inr q ↦
            inside c b lo hi e es t h lt (ground arith) (ground arith)
              (selected c (b + e.elen) (min hi (e.elog + e.elen)) hi es t.2 hs)
      ]
]

slice_range-WithinRange :
    (c : Bytes) (lo hi : ℕ) (es : List Extent)
    → All (WithinExtent c) es
    → All (WithinRange c) (slice_range lo hi es)
unfolding slice_range
slice_range-WithinRange c lo hi [] w = tt
slice_range-WithinRange c lo hi (e ∷ es) (h, hs) = elim (Bool-cases (leb hi lo)) [
  | inl p ↦ rw p tt
  | inr p ↦ elim (Bool-cases (leb (e.elog + e.elen) lo || leb hi e.elog)) [
    | inl q ↦ rw (p, q) (slice_range-WithinRange c lo hi es hs)
    | inr q ↦
        rw (p, q) (ground arith, slice_range-WithinRange c (min hi (e.elog + e.elen)) hi es hs)
  ]
]

slice_ranges-WithinRange :
    (c : Bytes) (len : ℕ) (es : List Extent) (ranges : List Range)
    → All (WithinExtent c) es
    → All (WithinRange c) (slice_ranges len es ranges)
unfolding slice_ranges
slice_ranges-WithinRange c len es [] w = tt
slice_ranges-WithinRange c len es ((lo, ln) ∷ ranges) w =
    All-append (WithinRange c) (slice_range (min lo len) (min (saturating_add lo ln) len) es)
      (slice_ranges len es ranges)
      (slice_range-WithinRange c (min lo len) (min (saturating_add lo ln) len) es w)
      (slice_ranges-WithinRange c len es ranges w)

module _ (c : Bytes) (v : View) (ok_view : IsView c v) where
  -- A slice of a well-formed view is a well-formed view of the same source: its extents are not
  -- empty, follow each other, add up to its length and lie within the source.
  slice-IsView : (ranges : List Range) → IsView c (slice v ranges)
  unfolding slice
  slice-IsView ranges =
      let (s, t, l, w) = ok_view in
      new-IsView c v.src (slice_ranges v.len v.extents ranges) s
        (slice_ranges-WithinRange c v.len v.extents ranges w)

  one_range :
      v.len < 2 ^ 64
      → (lo ln : ℕ)
      → range_bytes c (slice_range (min lo v.len) (min (saturating_add lo ln) v.len) v.extents)
        ≡ take ln (drop lo (view_bytes c v))
  one_range small lo ln =
      let (s, t, l, w) = ok_view in
      let bs = view_bytes c v in
      let size : length bs ≡ v.len = length-view_bytes c v ok_view in
      let from = min lo v.len in
      let to = min (saturating_add lo ln) v.len in
      selected c 0 from to v.extents t w
      ∙ ap (λ u. take (to - max from 0) u)
          (drop_at (from - 0) (min lo (length bs)) bs (omega (arith, size)) ∙ drop-min lo bs)
      ∙ take_at (to - max from 0) (min ln (length (drop lo bs))) (drop lo bs)
          (omega (arith, length-drop lo bs, size))
      ∙ take-min ln (drop lo bs)

  all_ranges :
      v.len < 2 ^ 64
      → (ranges : List Range)
      → range_bytes c (slice_ranges v.len v.extents ranges) ≡ range_bytes (view_bytes c v) ranges
  unfolding slice_ranges
  all_ranges small [] = refl
  all_ranges small ((lo, ln) ∷ ranges) =
      range_bytes-append c (slice_range (min lo v.len) (min (saturating_add lo ln) v.len) v.extents)
        (slice_ranges v.len v.extents ranges)
      ∙ ap₂ (λ u w. u ++ w) (one_range small lo ln) (all_ranges small ranges)

  -- A slice of a well-formed view shorter than 2^64 bytes shows, for each range in order, the bytes
  -- that the view shows there, cut at its end.
  pub view_bytes-slice :
      v.len < 2 ^ 64
      → (ranges : List Range) → view_bytes c (slice v ranges) ≡ range_bytes (view_bytes c v) ranges
  unfolding slice
  view_bytes-slice small ranges =
      view_bytes-new c v.src (slice_ranges v.len v.extents ranges) ∙ all_ranges small ranges
