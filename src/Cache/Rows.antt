-- ===== src/Cache/Rows.antt =====
-- src/cache.rs: the rows that the statements leave in the two tables.
use hashdex.Base.{
  ◌≡◌, refl, sym, ap, ap₂, ◌∙◌, inl, inr, Bool, true, false, ◌&&◌, ◌||◌, some, List, [], ◌∷◌,
  if◌then◌else◌, Bool-cases, &&_true,
}
use mathlib.Core.List.Memᴰ
use mathlib.Core.List.{Memᴰ}
use hashdex.Base.Text.{Text, text_eq, text_eq→eq, text_eq_refl}
use hashdex.Coord.{Coord}
use hashdex.Cache.{
  Observation, CoordRow, has_key, replace_row, row_at, same_row, ignore_row, coord_row, ignore_all,
}

-- A key other than that of a row.
abbrev pub OtherKey : Text → Text → Observation → Type 0
OtherKey b k o = (text_eq o.backend b && text_eq o.coordinate k) ≡ false

has_key_self : (b k : Text) → (text_eq b b && text_eq k k) ≡ true
has_key_self b k = rw (text_eq_refl b, text_eq_refl k) refl

pub row_at-replace_row_self :
    (r : Observation) (os : List Observation)
    → row_at r.backend r.coordinate (replace_row r os) ≡ some r
unfolding row_at replace_row
row_at-replace_row_self r [] = rw (has_key_self r.backend r.coordinate) refl
row_at-replace_row_self r (o ∷ os) = elim (Bool-cases (has_key r.backend r.coordinate o)) [
  | inl e ↦ rw (e, has_key_self r.backend r.coordinate) refl
  | inr e ↦ rw e (rw e (row_at-replace_row_self r os))
]

pub row_at-replace_row_ne :
    (b k : Text) (r : Observation) (os : List Observation)
    → OtherKey b k r
    → row_at b k (replace_row r os) ≡ row_at b k os
unfolding row_at replace_row
row_at-replace_row_ne b k r [] h = rw h refl
row_at-replace_row_ne b k r (o ∷ os) h = elim (Bool-cases (has_key r.backend r.coordinate o)) [
  | inl e ↦
      let (p, q) = &&_true (text_eq o.backend r.backend) (text_eq o.coordinate r.coordinate) e in
      let same_b = text_eq→eq o.backend r.backend p in
      let same_k = text_eq→eq o.coordinate r.coordinate q in
      let h' : has_key b k o ≡ false = ap₂ (λ x y. text_eq x b && text_eq y k) same_b same_k ∙ h in
      rw (e, h, h') refl
  | inr e ↦
      rw e (ap (λ rest. if has_key b k o then some o else rest) (row_at-replace_row_ne b k r os h))
]

-- Whether a row of `observation_coords` is there.
unfoldable pub has_row : CoordRow → List CoordRow → Bool
has_row r [] = false
has_row r (x ∷ xs) = same_row x r || has_row r xs

same_row_refl : (r : CoordRow) → same_row r r ≡ true
same_row_refl r =
    rw
      (
        text_eq_refl r.scheme,
        text_eq_refl r.digest,
        text_eq_refl r.backend,
        text_eq_refl r.coordinate,
      )
      refl

pub has_row-ignore_row_self :
    (r : CoordRow) (rows : List CoordRow) → has_row r (ignore_row r rows) ≡ true
unfolding has_row ignore_row
has_row-ignore_row_self r [] = rw (same_row_refl r) refl
has_row-ignore_row_self r (x ∷ xs) = elim (Bool-cases (same_row x r)) [
  | inl e ↦ rw e (rw e refl)
  | inr e ↦ rw e (rw e (has_row-ignore_row_self r xs))
]

pub has_row-ignore_row :
    (r new : CoordRow) (rows : List CoordRow)
    → has_row r rows ≡ true
    → has_row r (ignore_row new rows) ≡ true
unfolding has_row ignore_row
has_row-ignore_row r new [] h = cc
has_row-ignore_row r new (x ∷ xs) h = elim (Bool-cases (same_row x new)) [
  | inl e ↦ rw e h
  | inr e ↦ elim (Bool-cases (same_row x r)) [
    | inl p ↦ rw e (rw p refl)
    | inr p ↦
        let h' : has_row r xs ≡ true = ap (λ t. t || has_row r xs) (sym p) ∙ h in
        rw e (rw p (has_row-ignore_row r new xs h'))
  ]
]

pub has_row-ignore_all :
    (r : CoordRow) (b k : Text) (cs : List Coord) (rows : List CoordRow)
    → has_row r rows ≡ true
    → has_row r (ignore_all b k cs rows) ≡ true
unfolding ignore_all
has_row-ignore_all r b k [] rows h = h
has_row-ignore_all r b k (c ∷ cs) rows h =
    has_row-ignore_all r b k cs (ignore_row (coord_row b k c) rows)
      (has_row-ignore_row r (coord_row b k c) rows h)

pub has_row-ignored :
    (b k : Text) (c : Coord) (cs : List Coord) (rows : List CoordRow)
    → Memᴰ c cs
    → has_row (coord_row b k c) (ignore_all b k cs rows) ≡ true
unfolding ignore_all
has_row-ignored b k c [] rows m = absurd (Memᴰ.not-nil m)
has_row-ignored b k c (x ∷ cs) rows m = elim (Memᴰ.cases_cons m) [
  | inl e ↦ has_row-ignore_all (coord_row b k c) b k cs (ignore_row (coord_row b k x) rows) (
      ap (λ y. has_row (coord_row b k c) (ignore_row (coord_row b k y) rows)) (sym e)
      ∙ has_row-ignore_row_self (coord_row b k c) rows)
  | inr n ↦ has_row-ignored b k c cs (ignore_row (coord_row b k x) rows) n
]
