-- ===== src/Walk/Clusters/Coords.antt =====
-- src/walk.rs: which coordinates `coords_of` gives a finding.
use hashdex.Base.{
  ◌≡◌, refl, ◌⊎◌, ◌↔◌, inl, inr, Bool, true, false, List, [], ◌∷◌, ◌++◌, if◌then◌else◌,
}
use mathlib.Core.List.{Memᴰ}
use mathlib.Core.List.Memᴰ
use hashdex.Coord.{Coord, Decoders}
use hashdex.Walk.{Evidence, same_coord, parsed}
use hashdex.Walk.Same.{same_coord→eq}
use hashdex.Base.Sorting.{sort_by, dedup_by, Memᴰ-sort_by, Memᴰ-dedup_by}
use hashdex.Walk.Clusters.{coord_leb, contradicts, coords_of}
use hashdex.Walk.Clusters.Groups.{Memᴰ-append}

Memᴰ-sorted :
    (c : Coord) (xs : List Coord) → Memᴰ c (dedup_by same_coord (sort_by coord_leb xs)) ↔ Memᴰ c xs
Memᴰ-sorted c xs =
    let (there, back) = Memᴰ-dedup_by same_coord same_coord→eq c (sort_by coord_leb xs) in
    let (first, last) = Memᴰ-sort_by coord_leb c xs in (λ m. first (there m), λ m. back (last m))

Memᴰ-with_found :
    (b : Bool) (c f : Coord) (v : List Coord)
    → Memᴰ c (dedup_by same_coord (sort_by coord_leb (if b then v else v ++ (f ∷ []))))
      ↔ (Memᴰ c v ⊎ ((b ≡ false) × (c ≡ f)))
Memᴰ-with_found true c f v =
    let (there, back) = Memᴰ-sorted c v in
    (λ m. inl (there m), λ s. elim s [ inl m ↦ back m | inr (u, e) ↦ cc u ])
Memᴰ-with_found false c f v =
    let (there, back) = Memᴰ-sorted c (v ++ (f ∷ [])) in
    (
      λ m. elim (Memᴰ-append c v (f ∷ []) (there m)) [
        | inl p ↦ inl p
        | inr p ↦ elim (Memᴰ.cases_cons p) [
          | inl e ↦ inr (refl, e)
          | inr nothing ↦ absurd (Memᴰ.not-nil nothing)
        ]
      ],
      λ s. elim s [
        | inl m ↦ back (Memᴰ.append_left (f ∷ []) m)
        | inr (u, e) ↦ back (Memᴰ.append_right v (Memᴰ.head e))
      ],
    )

-- The coordinates of a finding are those that its texts spell and, where none of them has the scheme
-- of the coordinate that it was reached through with another digest, that coordinate.
coords_of-Memᴰ :
    (d : Decoders) (e : Evidence) (c : Coord)
    → Memᴰ c (coords_of d e) ↔ (
        Memᴰ c (parsed d e.finding.coords)
        ⊎ ((contradicts e.found_at (parsed d e.finding.coords) ≡ false) × (c ≡ e.found_at)))
unfolding coords_of
coords_of-Memᴰ d e c =
    Memᴰ-with_found (contradicts e.found_at (parsed d e.finding.coords)) c e.found_at
      (parsed d e.finding.coords)
