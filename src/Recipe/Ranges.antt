-- ===== src/Recipe/Ranges.antt =====
-- src/recipe_cmd.rs: `map_range` maps a range of a member through its runs to ranges of the root file.
use native.Mathlib.Omega.{arith}
use mathlib.Core.List.{append-nil}
use hashdex.Base.{
  ℕ, ◌+◌, ◌-◌, ◌≤◌, ◌<◌, min, max, ◌≡◌, sym, ap, ap₂, ◌∙◌, inl, inr, List, [], ◌∷◌, ◌++◌, length,
  take, drop, All, ltb, if◌then◌else◌, Bool-cases, not_ltb→le, ltb→lt,
}
use hashdex.Base.{length-drop, length-take}
use hashdex.Base.Bytes.{Bytes}
use hashdex.Base.Slices.{
  take-in_piece, take_at, drop_at, take-append, drop-append, drop-all, take-all, take-min,
}
use hashdex.Recipe.{Runs}
use hashdex.Recipe.Merging.{RunsTiled}

unfoldable pub map_from : Runs → ℕ → ℕ → List (ℕ × ℕ)
map_from [] from end_ = []
map_from ((rlog, roff, rlen) ∷ runs) from end_ =
    let lo = max from rlog in
    let hi = min end_ (rlog + rlen) in
    let rest = map_from runs from end_ in
    if ltb lo hi then (roff + (lo - rlog), hi - lo) ∷ rest else rest

unfoldable pub map_range : Runs → ℕ → ℕ → List (ℕ × ℕ)
map_range runs from len = map_from runs from (from + len)

-- The bytes of ranges of the root file, one after the other.
abbrev pub root_bytes : Bytes → List (ℕ × ℕ) → Bytes
root_bytes root [] = []
root_bytes root ((off, len) ∷ ranges) = take len (drop off root) ++ root_bytes root ranges

-- The bytes of a member, which its runs hold.
abbrev pub member_bytes : Bytes → Runs → Bytes
member_bytes root [] = []
member_bytes root ((log, off, len) ∷ runs) = take len (drop off root) ++ member_bytes root runs

abbrev pub InRoot : Bytes → ℕ × ℕ × ℕ → Type 0
InRoot root (log, off, len) = off + len ≤ length root

module _ (root : Bytes) (b rlog roff rlen : ℕ) (after : Bytes) (log : rlog ≡ b)
    (inside : roff + rlen ≤ length root) (from end_ : ℕ) where
  piece : Bytes
  piece = take rlen (drop roff root)

  size : length piece ≡ rlen
  unfolding piece
  size = omega (arith, length-take rlen (drop roff root), length-drop roff root)

  kept : Bytes
  kept = drop (from - b) piece

  kept_size : length kept ≡ rlen - (from - b)
  unfolding kept
  kept_size = omega (arith, size, length-drop (from - b) piece)

  -- The range of the whole, cut at the end of the piece.
  cut_range :
      take (end_ - max from b) (drop (from - b) (piece ++ after))
      ≡ take (end_ - max from b) kept
        ++ take (end_ - max from (b + rlen)) (drop (from - (b + rlen)) after)
  unfolding kept
  cut_range =
      let n = end_ - max from b in
      let beyond = drop (from - (b + rlen)) after in
      ap (λ u. take n u)
        (drop-append (from - b) piece after
          ∙ ap (λ u. kept ++ u)
              (drop_at (from - b - length piece) (from - (b + rlen)) after (omega (arith, size))))
      ∙ take-append n kept beyond
      ∙ ap (λ u. take n kept ++ u)
          (take_at (n - length kept) (end_ - max from (b + rlen)) beyond (omega (arith, kept_size)))

  mapped_piece :
      max from rlog < min end_ (rlog + rlen)
      → take (min end_ (rlog + rlen) - max from rlog) (drop (roff + (max from rlog - rlog)) root)
        ≡ take (end_ - max from b) kept
  unfolding kept piece
  mapped_piece lt =
      let n = min end_ (rlog + rlen) - max from rlog in
      let w = max from rlog - rlog in
      take-in_piece n w roff rlen root [] (omega arith) inside
      ∙ ap (λ u. take n u) (append-nil (drop w piece))
      ∙ ap (λ u. take n u) (drop_at w (from - b) piece (omega arith))
      ∙ take_at n (min (end_ - max from b) (length kept)) kept (omega (arith, kept_size))
      ∙ take-min (end_ - max from b) kept

  no_piece : min end_ (rlog + rlen) ≤ max from rlog → [] ≡ take (end_ - max from b) kept
  no_piece le =
      take_at 0 (min (end_ - max from b) (length kept)) kept (omega (arith, kept_size))
      ∙ take-min (end_ - max from b) kept

map_from-take :
    (root : Bytes) (b : ℕ) (runs : Runs) (from end_ : ℕ)
    → RunsTiled b runs
    → All (InRoot root) runs
    → root_bytes root (map_from runs from end_)
      ≡ take (end_ - max from b) (drop (from - b) (member_bytes root runs))
unfolding map_from piece
map_from-take root b [] from end_ t w = sym (
    ap (λ u. take (end_ - max from b) u) (drop-all (from - b) [] (omega arith))
    ∙ take-all (end_ - max from b) [] (omega arith))
map_from-take root b ((rlog, roff, rlen) ∷ runs) from end_ (log, t) (inside, w) =
    let after = member_bytes root runs in
    let rest = map_from-take root (b + rlen) runs from end_ t w in
    let cut = cut_range root b rlog roff rlen after log inside from end_ in
    elim (Bool-cases (ltb (max from rlog) (min end_ (rlog + rlen)))) [
      | inl p ↦
          let lt = ltb→lt (max from rlog) (min end_ (rlog + rlen)) p in
          rw p (
            ap₂ (λ u v. u ++ v) (mapped_piece root b rlog roff rlen after log inside from end_ lt)
              rest
            ∙ sym cut)
      | inr p ↦
          let le = not_ltb→le (max from rlog) (min end_ (rlog + rlen)) p in
          rw p (
            ap₂ (λ u v. u ++ v) (no_piece root b rlog roff rlen after log inside from end_ le) rest
            ∙ sym cut)
    ]

-- A range of a member whose runs follow each other and lie within the root file maps to ranges of
-- the root file that hold, in order, the member's bytes in that range, cut at its end.
pub map_range-take :
    (root : Bytes) (runs : Runs) (from len : ℕ)
    → RunsTiled 0 runs
    → All (InRoot root) runs
    → root_bytes root (map_range runs from len) ≡ take len (drop from (member_bytes root runs))
unfolding map_range
map_range-take root runs from len t w =
    let bytes = member_bytes root runs in
    map_from-take root 0 runs from (from + len) t w
    ∙ take_at (from + len - max from 0) len (drop (from - 0) bytes) (omega arith)
    ∙ ap (λ u. take len u) (drop_at (from - 0) from bytes (omega arith))
