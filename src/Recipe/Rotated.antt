-- ===== src/Recipe/Rotated.antt =====
-- src/recipe_cmd.rs and src/erofs.rs: a raw pcluster that is stored rotated, as two pieces of its
-- logical bytes.
use hashdex.Base.{
  ℕ, ◌+◌, ◌-◌, ◌%◌, ◌≤◌, ◌<◌, ◌≡◌, sym, ap, ◌∙◌, inl, inr, Bool, true, false, not, ◌&&◌, ◌||◌,
  Option, none, some, List, length, take, drop, get_or, All, ltb, ◌==◌, if◌then◌else◌, arith,
  Bool-cases,
}
use hashdex.Base.{get_or-take, get_or-drop}
use hashdex.Base.Bytes.{Bytes}
use hashdex.Base.Text.{text_eq, text_eq→eq}
use hashdex.Recipe.{Seg}
use hashdex.Recipe.Covers.{Cover, splice_span, Holds, Copies, splice_span-Copies}

pub data Alg : Type 0 where
  shifted lz4 lzma deflate zstd : Alg
  interlaced : ℕ → Alg

-- The fields of a pcluster that the planner reads here.
pub record PCluster : Type 0 where
  pub la : ℕ
  pub pa : ℕ
  pub plen : ℕ
  pub alg : Alg

unfoldable skip_of : Alg → ℕ → Option ℕ
skip_of (interlaced skip) plen = if ltb 0 plen then some (skip % plen) else none
skip_of shifted plen = none
skip_of lz4 plen = none
skip_of lzma plen = none
skip_of deflate plen = none
skip_of zstd plen = none

unfoldable pub interlace_skip : PCluster → Option ℕ
unfolding skip_of
interlace_skip pc = skip_of pc.alg pc.plen

-- The comparison of the rotation with the bytes that are stored.
unfoldable rotation_matches : ℕ → ℕ → Bytes → Bytes → Bool
rotation_matches skip head logical stored =
    text_eq (take skip stored) (drop head logical) && text_eq (drop skip stored) (take head logical)

unfoldable rotated_by :
    PCluster → Option ℕ → Bytes → Bytes → List Cover → List Seg → Bool × List Seg
rotated_by pc none logical stored covers segs = (false, segs)
rotated_by pc (some skip) logical stored covers segs =
    let head = pc.plen - skip in
    let tail_first = splice_span covers (pc.la + head) skip pc.pa segs in
    let both = splice_span covers pc.la head (pc.pa + skip) tail_first in
    if skip == 0 || not (length logical == pc.plen) || not (length stored == pc.plen)
    then (false, segs)
    else if not (rotation_matches skip head logical stored)
    then (false, segs)
    else (ltb (length segs) (length both), both)

-- The segments with those of the rotation, and whether any was added.
pub splice_rotated : PCluster → Bytes → Bytes → List Cover → List Seg → Bool × List Seg
unfolding rotated_by
splice_rotated pc logical stored covers segs =
    rotated_by pc (interlace_skip pc) logical stored covers segs

module _ (member : ℕ → ℕ → ℕ) (stream root : ℕ → ℕ) (pc : PCluster) (logical stored : Bytes)
    (decoded : (i : ℕ) → i < pc.plen → stream (pc.la + i) ≡ get_or logical i 0)
    (on_disk : (i : ℕ) → i < pc.plen → get_or stored i 0 ≡ root (pc.pa + i)) where
  module _ (skip : ℕ) (le : skip ≤ pc.plen)
      (matches : rotation_matches skip (pc.plen - skip) logical stored ≡ true) where
    tail_straight : (i : ℕ) → i < skip → stream (pc.la + (pc.plen - skip) + i) ≡ root (pc.pa + i)
    unfolding rotation_matches
    tail_straight i lt =
        let head = pc.plen - skip in
        let same : take skip stored ≡ drop head logical =
          text_eq→eq (take skip stored) (drop head logical) (ground arith) in
        let at : pc.la + head + i ≡ pc.la + (head + i) = omega arith in
        ap stream at
        ∙ decoded (head + i) (omega arith)
        ∙ sym (get_or-drop head i logical 0)
        ∙ ap (λ t. get_or t i 0) (sym same)
        ∙ get_or-take skip i stored 0 lt
        ∙ on_disk i (omega arith)

    head_straight : (i : ℕ) → i < pc.plen - skip → stream (pc.la + i) ≡ root (pc.pa + skip + i)
    unfolding rotation_matches
    head_straight i lt =
        let head = pc.plen - skip in
        let same : drop skip stored ≡ take head logical =
          text_eq→eq (drop skip stored) (take head logical) (ground arith) in
        let at : pc.pa + (skip + i) ≡ pc.pa + skip + i = omega arith in
        decoded i (omega arith)
        ∙ sym (get_or-take head i logical 0 lt)
        ∙ ap (λ t. get_or t i 0) (sym same)
        ∙ get_or-drop skip i stored 0
        ∙ on_disk (skip + i) (omega arith)
        ∙ ap root at

  by_skip :
      (skip : ℕ) (covers : List Cover) (segs : List Seg)
      → skip ≤ pc.plen
      → All (Holds member stream root) covers
      → All (Copies member stream root) segs
      → All (Copies member stream root) (rotated_by pc (some skip) logical stored covers segs).1
  unfolding rotated_by
  by_skip skip covers segs le h c =
      let head = pc.plen - skip in
      elim (Bool-cases
        (skip == 0 || not (length logical == pc.plen) || not (length stored == pc.plen))) [
          | inl p ↦ rw p c
          | inr p ↦ elim (Bool-cases (rotation_matches skip head logical stored)) [
            | inr q ↦ rw (p, q) c
            | inl q ↦
                rw (p, q)
                  (splice_span-Copies member stream root covers pc.la head (pc.pa + skip)
                    (splice_span covers (pc.la + head) skip pc.pa segs) h (head_straight skip le q)
                    (splice_span-Copies member stream root covers (pc.la + head) skip pc.pa segs h
                      (tail_straight skip le q) c))
          ]
        ]

  by_alg :
      (alg : Alg) (covers : List Cover) (segs : List Seg)
      → All (Holds member stream root) covers
      → All (Copies member stream root) segs
      → All
          (Copies member stream root)
          (rotated_by pc (skip_of alg pc.plen) logical stored covers segs).1
  unfolding rotated_by skip_of
  by_alg shifted covers segs h c = c
  by_alg lz4 covers segs h c = c
  by_alg lzma covers segs h c = c
  by_alg deflate covers segs h c = c
  by_alg zstd covers segs h c = c
  by_alg (interlaced skip) covers segs h c = elim (Bool-cases (ltb 0 pc.plen)) [
    | inr p ↦ rw p c
    | inl p ↦ rw p (by_skip (skip % pc.plen) covers segs (ground arith) h c)
  ]

  -- Whatever rotation is tried, every segment of a member in the result copies the bytes of the
  -- root file where it lands, given that the covers hold and the bytes compared are the real ones.
  pub splice_rotated-Copies :
      (covers : List Cover) (segs : List Seg)
      → All (Holds member stream root) covers
      → All (Copies member stream root) segs
      → All (Copies member stream root) (splice_rotated pc logical stored covers segs).1
  unfolding splice_rotated interlace_skip
  splice_rotated-Copies covers segs h c = by_alg pc.alg covers segs h c
