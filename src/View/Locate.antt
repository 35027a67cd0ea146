-- ===== src/View/Locate.antt =====
-- src/peek_source.rs: the extent that `read_at_logical` picks by `partition_point`.
use hashdex.Base.{
  ℕ, suc, ◌+◌, ◌-◌, ◌≤◌, ◌<◌, ◌≡◌, refl, ap, ap₂, ◌∙◌, inl, inr, some, List, [], ◌∷◌, ◌++◌, length,
  drop, get_elem?, All, leb, arith, Bool-cases, le→leb, leb→le, not_leb→lt,
}
use hashdex.Base.Bytes.{Bytes}
use hashdex.Base.Slices.{drop-append, drop_at, drop-all}
use hashdex.View.{Extent, starting_by}
use hashdex.View.Window.{WithinExtent, Tiled, total, piece, extent_bytes, length-piece}

-- The extent found: it holds the position, and the view from there on starts inside it.
abbrev pub Located : Bytes → ℕ → List Extent → ℕ → Type 0
Located c b es at =
    (e : Extent) × (rest : Bytes) × (get_elem? es (starting_by es at - 1) ≡ some e)
    × (e.elog ≤ at)
    × (at < e.elog + e.elen)
    × WithinExtent c e
    × (drop (at - b) (extent_bytes c es) ≡ drop (at - e.elog) (piece c e) ++ rest)

starting_by-zero : (b : ℕ) (es : List Extent) (at : ℕ) → Tiled b es → at < b → starting_by es at ≡ 0
unfolding starting_by
starting_by-zero b [] at t h = refl
starting_by-zero b (e ∷ es) at (log, pos, t) h = ground arith

starting_by-suc :
    (b : ℕ) (e : Extent) (es : List Extent) (at : ℕ)
    → Tiled b (e ∷ es)
    → b ≤ at
    → starting_by (e ∷ es) at ≡ suc (starting_by es at)
unfolding starting_by
starting_by-suc b e es at (log, pos, t) h = rw (le→leb e.elog at (omega arith))

starting_by-positive :
    (b : ℕ) (es : List Extent) (at : ℕ)
    → Tiled b es
    → b ≤ at
    → at < b + total es
    → 0 < starting_by es at
starting_by-positive b [] at t lo hi = absurd (omega arith)
starting_by-positive b (e ∷ es) at t lo hi = omega (arith, starting_by-suc b e es at t lo)

module _ (c : Bytes) (b : ℕ) (e : Extent) (es : List Extent) (at : ℕ) (t : Tiled b (e ∷ es))
    (h : WithinExtent c e) (lo : b ≤ at) where
  at_first : at < b + e.elen → Located c b (e ∷ es) at
  at_first hi =
      let log : e.elog ≡ b = t.0 in
      let zero_left : starting_by es at ≡ 0 = starting_by-zero (b + e.elen) es at (t.2) hi in
      let index : starting_by (e ∷ es) at - 1 ≡ 0 =
        omega (arith, starting_by-suc b e es at t lo, zero_left) in
      let whole : drop (at - b) (extent_bytes c (e ∷ es))
          ≡ drop (at - e.elog) (piece c e) ++ extent_bytes c es =
        drop-append (at - b) (piece c e) (extent_bytes c es)
        ∙ ap₂ (λ s u. s ++ u) (drop_at (at - b) (at - e.elog) (piece c e) (omega arith))
            (drop_at (at - b - length (piece c e)) 0 (extent_bytes c es)
              (omega (arith, length-piece c e h))) in
      (
        e,
        extent_bytes c es,
        ap (λ i. get_elem? (e ∷ es) i) index,
        omega arith,
        omega arith,
        h,
        whole,
      )

  at_later :
      b + e.elen ≤ at
      → at < b + total (e ∷ es)
      → Located c (b + e.elen) es at
      → Located c b (e ∷ es) at
  at_later past hi (x, rest, found, below, above, w, same) =
      let s : ℕ = starting_by es at in
      let some_left : 0 < s = starting_by-positive (b + e.elen) es at (t.2) past (omega arith) in
      let index : starting_by (e ∷ es) at - 1 ≡ suc (s - 1) =
        omega (arith, starting_by-suc b e es at t lo, some_left) in
      let size : length (piece c e) ≡ e.elen = length-piece c e h in
      let whole : drop (at - b) (extent_bytes c (e ∷ es)) ≡ drop (at - x.elog) (piece c x) ++ rest =
        drop-append (at - b) (piece c e) (extent_bytes c es)
        ∙ ap₂ (λ s u. s ++ u) (drop-all (at - b) (piece c e) (omega (arith, size)))
            (drop_at (at - b - length (piece c e)) (at - (b + e.elen)) (extent_bytes c es)
              (omega (arith, size)))
        ∙ same in
      (x, rest, ap (λ i. get_elem? (e ∷ es) i) index ∙ found, below, above, w, whole)

pub locate :
    (c : Bytes) (b : ℕ) (es : List Extent) (at : ℕ)
    → Tiled b es
    → All (WithinExtent c) es
    → b ≤ at
    → at < b + total es
    → Located c b es at
locate c b [] at t w lo hi = absurd (omega arith)
locate c b (e ∷ es) at t (h, hs) lo hi = elim (Bool-cases (leb (b + e.elen) at)) [
  | inl p ↦
      let past : b + e.elen ≤ at = leb→le (b + e.elen) at p in
      at_later c b e es at t h lo past hi (locate c (b + e.elen) es at (t.2) hs past (omega arith))
  | inr p ↦ at_first c b e es at t h lo (not_leb→lt (b + e.elen) at p)
]
