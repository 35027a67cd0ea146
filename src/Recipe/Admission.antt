-- ===== src/Recipe/Admission.antt =====
-- src/recipe_cmd.rs: what `Intervals::admits` guarantees.
use hashdex.Base.{
  ℕ, ◌+◌, ◌≤◌, ◌<◌, ◌≡◌, refl, ap, inl, inr, true, false, some, List, [], ◌∷◌, map, leb, ltb, ◌==◌,
  arith, Bool-cases, Option-cases, leb→le, not_leb→lt,
}
use mathlib.Core.Option.{none-ne-some, some-injective}
use hashdex.Recipe.{
  Seg, seg_at, seg_len, Intervals, last_end, some_or, starts_in, free_at, admits, put, insert,
  place,
}

-- Segments in order, apart from each other, from `pos` to `size`.
abbrev pub Ordered : ℕ → ℕ → List Seg → Type 0
Ordered pos size [] = pos ≤ size
Ordered pos size (s ∷ segs) = (pos ≤ seg_at s) × Ordered (seg_at s + seg_len s) size segs

abbrev pub spans : List Seg → Intervals
spans segs = map (λ s. (seg_at s, seg_at s + seg_len s)) segs

pub Ordered-le : (pos size : ℕ) (segs : List Seg) → Ordered pos size segs → pos ≤ size
Ordered-le pos size [] h = h
Ordered-le pos size (s ∷ segs) (h, hs) =
    omega (arith, Ordered-le (seg_at s + seg_len s) size segs hs)

-- The end of the interval found is not before the start of the list.
last_end-ge :
    (pos size at pe : ℕ) (segs : List Seg)
    → Ordered pos size segs
    → last_end (spans segs) at ≡ some pe
    → pos ≤ pe
unfolding last_end
last_end-ge pos size at pe [] h e = cc
last_end-ge pos size at pe (s ∷ segs) (h, hs) e = elim (Bool-cases (leb (seg_at s) at)) [
  | inr p ↦ absurd (none-ne-some pe (rw p at e))
  | inl p ↦
      let end_ = seg_at s + seg_len s in
      let e' : some_or (last_end (spans segs) at) end_ ≡ some pe = rw p at e in
      elim (Option-cases (last_end (spans segs) at)) [
        | inl q ↦ let eq : end_ ≡ pe = some-injective end_ pe (rw q at e') in omega arith
        | inr (pe', q) ↦
            let eq : pe' ≡ pe = some-injective pe' pe (rw q at e') in
            omega (arith, last_end-ge end_ size at pe' segs hs q)
      ]
]

free_at-le : (pe at : ℕ) → free_at (some pe) at ≡ true → pe ≤ at
unfolding free_at
free_at-le pe at h = ground arith

-- An interval that starts by `at` ends by it too, when what is found there is free.
free_behind :
    (end_ size at : ℕ) (segs : List Seg)
    → Ordered end_ size segs
    → free_at (some_or (last_end (spans segs) at) end_) at ≡ true
    → (end_ ≤ at) × (free_at (last_end (spans segs) at) at ≡ true)
unfolding free_at
free_behind end_ size at segs h f = elim (Option-cases (last_end (spans segs) at)) [
  | inl q ↦ (free_at-le end_ at (rw q at f), rw q refl)
  | inr (pe, q) ↦
      let f' : free_at (some pe) at ≡ true = rw q at f in
      (omega (arith, free_at-le pe at f', last_end-ge end_ size at pe segs h q), rw q f')
]

-- The segments with one more in its place, and the intervals that they take.
abbrev pub Placed : ℕ → ℕ → Seg → List Seg → Type 0
Placed pos size s segs =
    Ordered pos size (place s segs)
    × (spans (place s segs) ≡ insert (spans segs) (seg_at s) (seg_len s))

module _ (size : ℕ) (s : Seg) (fits : seg_at s + seg_len s ≤ size) (some_len : 0 < seg_len s) where
  ahead :
      (pos : ℕ) (x : Seg) (xs : List Seg)
      → pos ≤ seg_at s
      → Ordered pos size (x ∷ xs)
      → seg_at s < seg_at x
      → starts_in (spans (x ∷ xs)) (seg_at s) (seg_at s + seg_len s) ≡ false
      → Placed pos size s (x ∷ xs)
  unfolding place put starts_in
  ahead pos x xs lo (h, hs) lt none_starts =
      let a : leb (seg_at x) (seg_at s) ≡ false = ground arith in
      let b : ltb (seg_at s) (seg_at x) ≡ true = ground arith in
      let c : seg_at s + seg_len s ≤ seg_at x = ground arith in rw (a, b) ((lo, (c, hs)), refl)

  behind :
      (pos : ℕ) (x : Seg) (xs : List Seg)
      → Ordered pos size (x ∷ xs)
      → seg_at x ≤ seg_at s
      → starts_in (spans (x ∷ xs)) (seg_at s) (seg_at s + seg_len s) ≡ false
      → Placed (seg_at x + seg_len x) size s xs
      → Placed pos size s (x ∷ xs)
  unfolding place put starts_in
  behind pos x xs (h, hs) le none_starts (rest, same) =
      let a : leb (seg_at x) (seg_at s) ≡ true = ground arith in
      let b : ltb (seg_at s) (seg_at x) ≡ false = ground arith in
      let c : (seg_at x == seg_at s) ≡ false = ground arith in
      rw (a, b, c) ((h, rest), ap (λ t. (seg_at x, seg_at x + seg_len x) ∷ t) same)

  place-Placed :
      (pos : ℕ) (segs : List Seg)
      → pos ≤ seg_at s
      → Ordered pos size segs
      → free_at (last_end (spans segs) (seg_at s)) (seg_at s) ≡ true
      → starts_in (spans segs) (seg_at s) (seg_at s + seg_len s) ≡ false
      → Placed pos size s segs
  unfolding last_end starts_in place put
  place-Placed pos [] lo h f n = ((lo, fits), refl)
  place-Placed pos (x ∷ xs) lo (h, hs) f n = elim (Bool-cases (leb (seg_at x) (seg_at s))) [
    | inr p ↦ ahead pos x xs lo (h, hs) (not_leb→lt (seg_at x) (seg_at s) p) n
    | inl p ↦
        let end_ = seg_at x + seg_len x in
        let (le, f') = free_behind end_ size (seg_at s) xs hs (rw p at f) in
        let n' : starts_in (spans xs) (seg_at s) (seg_at s + seg_len s) ≡ false = ground arith in
        behind pos x xs (h, hs) (leb→le (seg_at x) (seg_at s) p) n
          (place-Placed end_ xs le hs f' n')
  ]

-- A segment that the intervals of ordered segments admit can be put among them.
pub admits-Placed :
    (size : ℕ) (s : Seg) (segs : List Seg)
    → seg_at s + seg_len s ≤ size
    → 0 < seg_len s
    → Ordered 0 size segs
    → admits (spans segs) (seg_at s) (seg_len s) ≡ true
    → Placed 0 size s segs
unfolding admits
admits-Placed size s segs fits some_len h a =
    place-Placed size s fits some_len 0 segs (omega arith) h (ground arith) (ground arith)
