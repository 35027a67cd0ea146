-- ===== src/Base/Sorting.antt =====
-- Sorting and the removal of repeated neighbours, as Rust's slices and vectors have them.
use Prim.Native.Nat.{ℕ}
use mathlib.Core.Path.{◌≡◌, ◌∙◌}
use mathlib.Core.Logic.{◌↔◌, inl, inr}
use mathlib.Core.Bool.{Bool, true, false, ◌&&◌, ◌||◌}
use mathlib.Core.List.{List, [], ◌∷◌, Memᴰ}
use mathlib.Core.List.Memᴰ
use hashdex.Base.Tests.{if◌then◌else◌, Bool-cases, ltb, ◌==◌}

-- `slice::sort_by`, which is stable, for a comparison that says which of two may come first.
unfoldable pub insert_by {ℓ} : {A : Type ℓ} → (A → A → Bool) → A → List A → List A
insert_by le x [] = x ∷ []
insert_by le x (y ∷ ys) = let rest = insert_by le x ys in if le x y then x ∷ y ∷ ys else y ∷ rest

unfoldable pub sort_by {ℓ} : {A : Type ℓ} → (A → A → Bool) → List A → List A
unfolding insert_by
sort_by le [] = []
sort_by le (x ∷ xs) = insert_by le x (sort_by le xs)

-- `Vec::dedup`, for an equality test.
unfoldable pub dedup_by {ℓ} : {A : Type ℓ} → (A → A → Bool) → List A → List A
dedup_by eq [] = []
dedup_by eq (x ∷ []) = x ∷ []
dedup_by eq (x ∷ y ∷ r) = let rest = dedup_by eq (y ∷ r) in if eq x y then rest else x ∷ rest

-- The order of byte strings.
unfoldable pub lex_leb : List ℕ → List ℕ → Bool
lex_leb [] ys = true
lex_leb (x ∷ xs) [] = false
lex_leb (x ∷ xs) (y ∷ ys) = ltb x y || (x == y && lex_leb xs ys)

module _ {ℓ} {A : Type ℓ} (le : A → A → Bool) where
  Memᴰ-insert_by : (a x : A) (ys : List A) → Memᴰ a (insert_by le x ys) ↔ Memᴰ a (x ∷ ys)
  unfolding insert_by
  Memᴰ-insert_by a x [] = (λ m. m, λ m. m)
  Memᴰ-insert_by a x (y ∷ ys) = elim (Bool-cases (le x y)) [
    | inl t ↦ rw t (λ m. m, λ m. m)
    | inr t ↦
        let (there, back) = Memᴰ-insert_by a x ys in
        rw t (
          λ m. elim (Memᴰ.cases_cons m) [
            | inl e ↦ Memᴰ.tail (Memᴰ.head e)
            | inr p ↦ elim (Memᴰ.cases_cons (there p)) [
              | inl e ↦ Memᴰ.head e
              | inr q ↦ Memᴰ.tail (Memᴰ.tail q)
            ]
          ],
          λ m. elim (Memᴰ.cases_cons m) [
            | inl e ↦ Memᴰ.tail (back (Memᴰ.head e))
            | inr p ↦ elim (Memᴰ.cases_cons p) [
              | inl e ↦ Memᴰ.head e
              | inr q ↦ Memᴰ.tail (back (Memᴰ.tail q))
            ]
          ],
        )
  ]

  pub Memᴰ-sort_by : (a : A) (xs : List A) → Memᴰ a (sort_by le xs) ↔ Memᴰ a xs
  unfolding sort_by
  Memᴰ-sort_by a [] = (λ m. m, λ m. m)
  Memᴰ-sort_by a (x ∷ xs) =
      let (there, back) = Memᴰ-sort_by a xs in
      let (first, last) = Memᴰ-insert_by a x (sort_by le xs) in
      (
        λ m. elim (Memᴰ.cases_cons (first m)) [ inl e ↦ Memᴰ.head e | inr p ↦ Memᴰ.tail (there p) ],
        λ m. elim (Memᴰ.cases_cons m) [
          | inl e ↦ last (Memᴰ.head e)
          | inr p ↦ last (Memᴰ.tail (back p))
        ],
      )

module _ {ℓ} {A : Type ℓ} (eq : A → A → Bool) (sound : (a b : A) → eq a b ≡ true → a ≡ b) where
  pub Memᴰ-dedup_by : (c : A) (xs : List A) → Memᴰ c (dedup_by eq xs) ↔ Memᴰ c xs
  unfolding dedup_by
  Memᴰ-dedup_by c [] = (λ m. m, λ m. m)
  Memᴰ-dedup_by c (x ∷ []) = (λ m. m, λ m. m)
  Memᴰ-dedup_by c (x ∷ y ∷ r) =
      let (there, back) = Memᴰ-dedup_by c (y ∷ r) in
      elim (Bool-cases (eq x y)) [
        | inl t ↦ rw t (
          λ m. Memᴰ.tail (there m),
          λ m. elim (Memᴰ.cases_cons m) [
            | inl e ↦ back (Memᴰ.head (e ∙ sound x y t))
            | inr p ↦ back p
          ],
        )
        | inr t ↦ rw t (
          λ m. elim (Memᴰ.cases_cons m) [ inl e ↦ Memᴰ.head e | inr p ↦ Memᴰ.tail (there p) ],
          λ m. elim (Memᴰ.cases_cons m) [ inl e ↦ Memᴰ.head e | inr p ↦ Memᴰ.tail (back p) ],
        )
      ]
