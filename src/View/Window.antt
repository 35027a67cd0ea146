-- ===== src/View/Window.antt =====
-- What a view of src/peek_source.rs shows: the concatenation of its extents, cut from the contents
-- of the source; and when a view is well formed.
use hashdex.Base.{
  ℕ, zero, suc, ◌+◌, ◌-◌, ◌≤◌, ◌<◌, min, ◌≡◌, refl, sym, ap, ◌∙◌, List, [], ◌∷◌, ◌++◌, length, take,
  drop, All, arith,
}
use hashdex.Base.{length-append, length-take, length-drop}
use hashdex.Base.Bytes.{Bytes}
use hashdex.Base.Outcome.{ok}
use hashdex.Base.Slices.{take_at, drop-min}
use hashdex.View.{PSource, mem, read_at, Extent, Range, View, mapped, logical_len, new}

-- A source that holds `contents`: a read returns a prefix of what stands at the offset, and some
-- of it unless the room or the contents end there. A short read is allowed.
abbrev pub Serves : PSource → Bytes → Type 0
Serves src contents =
    (n off : ℕ)
    → (got : Bytes) × (read_at src n off ≡ ok got)
      × (got ≡ take (length got) (drop off contents))
      × (length got ≤ n)
      × (0 < n → off < length contents → 0 < length got)

abbrev pub piece : Bytes → Extent → Bytes
piece c e = take e.elen (drop e.eoff c)

abbrev pub extent_bytes : Bytes → List Extent → Bytes
extent_bytes c [] = []
extent_bytes c (e ∷ es) = piece c e ++ extent_bytes c es

abbrev pub range_bytes : Bytes → List Range → Bytes
range_bytes c [] = []
range_bytes c ((off, len) ∷ ranges) = take len (drop off c) ++ range_bytes c ranges

abbrev pub WithinExtent : Bytes → Extent → Type 0
WithinExtent c e = e.eoff + e.elen ≤ length c

abbrev pub WithinRange : Bytes → Range → Type 0
WithinRange c (off, len) = off + len ≤ length c

-- Extents that are not empty and start where the one before ends.
abbrev pub Tiled : ℕ → List Extent → Type 0
Tiled b [] = Unit
Tiled b (e ∷ es) = (e.elog ≡ b) × (0 < e.elen) × Tiled (b + e.elen) es

abbrev pub total : List Extent → ℕ
total [] = 0
total (e ∷ es) = e.elen + total es

abbrev pub IsView : Bytes → View → Type 0
IsView c v =
    Serves v.src c × Tiled 0 v.extents × (v.len ≡ total v.extents) × All (WithinExtent c) v.extents

abbrev pub view_bytes : Bytes → View → Bytes
view_bytes c v = extent_bytes c v.extents

pub length-piece : (c : Bytes) (e : Extent) → WithinExtent c e → length (piece c e) ≡ e.elen
length-piece c e h = omega (arith, length-take e.elen (drop e.eoff c), length-drop e.eoff c)

pub length-extent_bytes :
    (c : Bytes) (es : List Extent) → All (WithinExtent c) es → length (extent_bytes c es) ≡ total es
length-extent_bytes c [] h = refl
length-extent_bytes c (e ∷ es) (h, hs) = omega (
  arith,
  length-append (piece c e) (extent_bytes c es),
  length-piece c e h,
  length-extent_bytes c es hs,
)

pub mapped-Tiled : (b : ℕ) (ranges : List Range) → Tiled b (mapped b ranges)
unfolding mapped
mapped-Tiled b [] = tt
mapped-Tiled b ((off, zero) ∷ ranges) = mapped-Tiled b ranges
mapped-Tiled b ((off, suc k) ∷ ranges) = (refl, omega arith, mapped-Tiled (b + suc k) ranges)

pub total-mapped : (b : ℕ) (ranges : List Range) → total (mapped b ranges) ≡ logical_len ranges
unfolding mapped logical_len
total-mapped b [] = refl
total-mapped b ((off, zero) ∷ ranges) = omega (arith, total-mapped b ranges)
total-mapped b ((off, suc k) ∷ ranges) = omega (arith, total-mapped (b + suc k) ranges)

pub mapped-WithinExtent :
    (c : Bytes) (b : ℕ) (ranges : List Range)
    → All (WithinRange c) ranges
    → All (WithinExtent c) (mapped b ranges)
unfolding mapped
mapped-WithinExtent c b [] h = tt
mapped-WithinExtent c b ((off, zero) ∷ ranges) (h, hs) = mapped-WithinExtent c b ranges hs
mapped-WithinExtent c b ((off, suc k) ∷ ranges) (h, hs) =
    (h, mapped-WithinExtent c (b + suc k) ranges hs)

pub extent_bytes-mapped :
    (c : Bytes) (b : ℕ) (ranges : List Range)
    → extent_bytes c (mapped b ranges) ≡ range_bytes c ranges
unfolding mapped
extent_bytes-mapped c b [] = refl
extent_bytes-mapped c b ((off, zero) ∷ ranges) = extent_bytes-mapped c b ranges
extent_bytes-mapped c b ((off, suc k) ∷ ranges) =
    ap (λ t. take (suc k) (drop off c) ++ t) (extent_bytes-mapped c (b + suc k) ranges)

pub new-IsView :
    (c : Bytes) (src : PSource) (ranges : List Range)
    → Serves src c
    → All (WithinRange c) ranges
    → IsView c (new src ranges)
unfolding new
new-IsView c src ranges s h =
    (s, mapped-Tiled 0 ranges, sym (total-mapped 0 ranges), mapped-WithinExtent c 0 ranges h)

pub view_bytes-new :
    (c : Bytes) (src : PSource) (ranges : List Range)
    → view_bytes c (new src ranges) ≡ range_bytes c ranges
unfolding new
view_bytes-new c src ranges = extent_bytes-mapped c 0 ranges

-- A source in memory serves its bytes.
pub mem-Serves : (m : Bytes) → Serves (mem m) m
unfolding read_at
mem-Serves m n off =
    let start = min off (length m) in
    let k = min n (length m - start) in
    let got = take k (drop start m) in
    let size : length got ≡ k = omega (arith, length-take k (drop start m), length-drop start m) in
    let same : got ≡ take (length got) (drop off m) =
      take_at k (length got) (drop start m) (sym size)
      ∙ ap (λ t. take (length got) t) (drop-min off m) in
    (got, refl, same, omega (arith, size), λ p q. omega (arith, size))
