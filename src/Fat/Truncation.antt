-- ===== src/Fat/Truncation.antt =====
-- src/fat.rs: `truncate_runs` keeps the first bytes of the runs.
use hashdex.Base.{
  ℕ, ◌+◌, ◌-◌, ◌≤◌, min, ◌≡◌, sym, ap, ap₂, ◌∙◌, inl, inr, List, [], ◌∷◌, ◌++◌, length, take, drop,
  All, ◌==◌, arith, Bool-cases, length-take, length-drop,
}
use hashdex.Base.Bytes.{Bytes}
use hashdex.Base.Slices.{take-append, take_at, take-take, take-all}
use hashdex.View.{Range}
use hashdex.View.Window.{WithinRange, range_bytes}
use hashdex.Fat.{truncate_runs}

-- The first bytes of one run and what follows it.
truncate_step :
    (c : Bytes) (at len left : ℕ) (rest : Bytes)
    → at + len ≤ length c
    → take left (take len (drop at c) ++ rest)
      ≡ take (min len left) (drop at c) ++ take (left - min len left) rest
truncate_step c at len left rest within =
    let piece = take len (drop at c) in
    let size : length piece ≡ len = omega (arith, length-take len (drop at c), length-drop at c) in
    take-append left piece rest
    ∙ ap₂ (λ u w. u ++ w)
        (take-take left len (drop at c)
          ∙ take_at (min left len) (min len left) (drop at c) (omega arith))
        (take_at (left - length piece) (left - min len left) rest (omega (arith, size)))

-- The runs of a file cut to its size hold the first bytes of the runs, that many of them.
pub range_bytes-truncate_runs :
    (c : Bytes) (runs : List Range) (size : ℕ)
    → All (WithinRange c) runs
    → range_bytes c (truncate_runs runs size) ≡ take size (range_bytes c runs)
unfolding truncate_runs
range_bytes-truncate_runs c [] left w = sym (take-all left [] (omega arith))
range_bytes-truncate_runs c ((at, len) ∷ runs) left (h, hs) = elim (Bool-cases (left == 0)) [
  | inl p ↦
      let none_left : left ≡ 0 = ground arith in
      rw p (sym (take_at left 0 (range_bytes c ((at, len) ∷ runs)) none_left))
  | inr p ↦ rw p (
      ap (λ u. take (min len left) (drop at c) ++ u)
        (range_bytes-truncate_runs c runs (left - min len left) hs)
      ∙ sym (truncate_step c at len left (range_bytes c runs) h))
]

-- A run that stays inside another one.
abbrev pub Between : ℕ → ℕ → Range → Type 0
Between low high (at, len) = (low ≤ at) × (at + len ≤ high)

pub truncate_runs-Between :
    (low high : ℕ) (runs : List Range) (size : ℕ)
    → All (Between low high) runs
    → All (Between low high) (truncate_runs runs size)
unfolding truncate_runs
truncate_runs-Between low high [] left w = tt
truncate_runs-Between low high ((at, len) ∷ runs) left ((a, b), hs) =
    elim (Bool-cases (left == 0)) [
      | inl p ↦ rw p tt
      | inr p ↦
          rw p ((a, omega arith), truncate_runs-Between low high runs (left - min len left) hs)
    ]
