-- ===== src/Recipe/Covers.antt =====
-- src/recipe_cmd.rs: splicing a range of an image's logical stream out of the members that cover it.
use hashdex.Base.{
  ℕ, ◌+◌, ◌-◌, ◌≤◌, ◌<◌, min, max, ◌≡◌, ap, ◌∙◌, inl, inr, Bool, List, [], ◌∷◌, ◌++◌, All,
  All-append, leb, ltb, if◌then◌else◌, arith, Bool-cases, not_leb→lt,
}
use hashdex.Recipe.{Seg, child, tabled, pcluster, gap}

-- `idx`'s bytes from `from` are the stream's from `pstart`, `len` of them.
pub record Cover : Type 0 where
  pub idx : ℕ
  pub from : ℕ
  pub pstart : ℕ
  pub len : ℕ
  pub proved : Bool

unfoldable pub cover_end : Cover → ℕ
cover_end cv = cv.pstart + cv.len

abbrev inline_max : ℕ
inline_max = 64

-- The segment for `[lo, hi)` of a cover, when it is long enough.
unfoldable pub piece_of : Cover → ℕ → ℕ → ℕ → ℕ → List Seg
piece_of cv lo hi lstart root_at =
    if ltb inline_max (hi - lo)
    then tabled cv.idx (cv.from + (lo - cv.pstart)) (hi - lo) 0 (root_at + (lo - lstart)) ∷ []
    else []

-- The loop of `splice_span`: `pos` is how far the range is served.
unfoldable pub splice_from : List Cover → ℕ → ℕ → ℕ → ℕ → List Seg
splice_from [] pos end_ lstart root_at = []
splice_from (cv ∷ covers) pos end_ lstart root_at =
    let lo = max cv.pstart pos in
    let hi = min (cover_end cv) end_ in
    let skipped = splice_from covers pos end_ lstart root_at in
    let served = splice_from covers hi end_ lstart root_at in
    if leb (cover_end cv) pos
    then skipped
    else if leb end_ cv.pstart
    then []
    else if leb hi lo
    then skipped
    else piece_of cv lo hi lstart root_at ++ served

unfoldable pub splice_span : List Cover → ℕ → ℕ → ℕ → List Seg → List Seg
splice_span covers lstart len root_at segs =
    segs ++ splice_from covers lstart (lstart + len) lstart root_at

module _ (member : ℕ → ℕ → ℕ) (stream root : ℕ → ℕ) where
  -- A cover that tells the truth about its member.
  abbrev pub Holds : Cover → Type 0
  Holds cv = (k : ℕ) → k < cv.len → member cv.idx (cv.from + k) ≡ stream (cv.pstart + k)

  -- A segment of a member whose bytes are those of the root file where it lands.
  pub Copies : Seg → Type 0
  Copies (tabled idx from len at root_off) =
      (k : ℕ) → k < len → member idx (from + k) ≡ root (root_off + k)
  Copies (child idx from len at root_off) =
      (k : ℕ) → k < len → member idx (from + k) ≡ root (root_off + k)
  Copies (pcluster pc at len root_off) = Unit
  Copies (gap at len residue_off inline) = Unit

  module _ (lstart end_ root_at : ℕ)
      (straight : (i : ℕ) → lstart + i < end_ → stream (lstart + i) ≡ root (root_at + i)) where
    piece_of-Copies :
        (cv : Cover) (lo hi : ℕ)
        → Holds cv
        → cv.pstart ≤ lo
        → lstart ≤ lo
        → hi ≤ cv.pstart + cv.len
        → hi ≤ end_
        → All Copies (piece_of cv lo hi lstart root_at)
    unfolding piece_of Copies
    piece_of-Copies cv lo hi holds a b c d = elim (Bool-cases (ltb inline_max (hi - lo))) [
      | inr p ↦ rw p tt
      | inl p ↦ rw p (
        (λ k lt.
            ap (λ t. member cv.idx t) (there k)
            ∙ holds (lo - cv.pstart + k) (omega arith)
            ∙ ap stream (same k)
            ∙ straight (lo - lstart + k) (omega arith)
            ∙ ap root (lands k)),
        tt,
      )
    ]
      where
        there : (k : ℕ) → cv.from + (lo - cv.pstart) + k ≡ cv.from + (lo - cv.pstart + k)
        there k = omega arith

        same : (k : ℕ) → cv.pstart + (lo - cv.pstart + k) ≡ lstart + (lo - lstart + k)
        same k = omega arith

        lands : (k : ℕ) → root_at + (lo - lstart + k) ≡ root_at + (lo - lstart) + k
        lands k = omega arith

    splice_from-Copies :
        (covers : List Cover) (pos : ℕ)
        → All Holds covers
        → lstart ≤ pos
        → All Copies (splice_from covers pos end_ lstart root_at)
    unfolding splice_from cover_end
    splice_from-Copies [] pos h le = tt
    splice_from-Copies (cv ∷ covers) pos (h, hs) le =
        let lo = max cv.pstart pos in
        let hi = min (cv.pstart + cv.len) end_ in
        elim (Bool-cases (leb (cv.pstart + cv.len) pos)) [
          | inl p ↦ rw p (splice_from-Copies covers pos hs le)
          | inr p ↦ elim (Bool-cases (leb end_ cv.pstart)) [
            | inl q ↦ rw (p, q) tt
            | inr q ↦ elim (Bool-cases (leb hi lo)) [
              | inl r ↦ rw (p, q, r) (splice_from-Copies covers pos hs le)
              | inr r ↦
                  rw (p, q, r)
                    (All-append Copies (piece_of cv lo hi lstart root_at)
                      (splice_from covers hi end_ lstart root_at)
                      (piece_of-Copies cv lo hi h (omega arith) (omega arith) (omega arith)
                        (omega arith))
                      (splice_from-Copies covers hi hs (omega (arith, not_leb→lt hi lo r))))
            ]
          ]
        ]

  -- When the covers tell the truth and the stream stands straight in the root file, every segment
  -- that `splice_span` adds copies the root file's own bytes.
  pub splice_span-Copies :
      (covers : List Cover) (lstart len root_at : ℕ) (segs : List Seg)
      → All Holds covers
      → ((i : ℕ) → i < len → stream (lstart + i) ≡ root (root_at + i))
      → All Copies segs
      → All Copies (splice_span covers lstart len root_at segs)
  unfolding splice_span
  splice_span-Copies covers lstart len root_at segs h straight before =
      All-append Copies segs (splice_from covers lstart (lstart + len) lstart root_at) before (
        splice_from-Copies lstart (lstart + len) root_at (λ i lt. straight i (omega arith)) covers
          lstart h (omega arith))
