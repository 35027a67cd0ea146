-- ===== src/Base/Order.antt =====
-- The order of byte strings is total, and a sort by it forgets in which order distinct keys came.
use Prim.Native.Nat.{ℕ}
use mathlib.Core.Path.{◌≡◌, refl, sym, ap, ap₂}
use mathlib.Core.Logic.{◌≢◌, inl, inr}
use mathlib.Core.Bool.{Bool, true, false}
use mathlib.Core.List.{List, [], ◌∷◌}
use native.Mathlib.Omega.{arith}
use hashdex.Base.Tests.{Bool-cases}
use hashdex.Base.Sorting.{insert_by, lex_leb}

pub lex_leb_total : (a b : List ℕ) → lex_leb a b ≡ false → lex_leb b a ≡ true
unfolding lex_leb
lex_leb_total [] b h = cc
lex_leb_total (x ∷ xs) [] h = refl
lex_leb_total (x ∷ xs) (y ∷ ys) h = ground (arith, lex_leb_total xs ys)

pub lex_leb_antisymm : (a b : List ℕ) → lex_leb a b ≡ true → lex_leb b a ≡ true → a ≡ b
unfolding lex_leb
lex_leb_antisymm [] [] h k = refl
lex_leb_antisymm [] (y ∷ ys) h k = cc
lex_leb_antisymm (x ∷ xs) [] h k = cc
lex_leb_antisymm (x ∷ xs) (y ∷ ys) h k =
    let e : x ≡ y = ground arith in
    let h' : lex_leb xs ys ≡ true = ground arith in
    let k' : lex_leb ys xs ≡ true = ground arith in
    ap₂ (λ z zs. z ∷ zs) e (lex_leb_antisymm xs ys h' k')

pub lex_leb_trans : (a b c : List ℕ) → lex_leb a b ≡ true → lex_leb b c ≡ true → lex_leb a c ≡ true
unfolding lex_leb
lex_leb_trans [] b c h k = refl
lex_leb_trans (x ∷ xs) [] c h k = cc
lex_leb_trans (x ∷ xs) (y ∷ ys) [] h k = cc
lex_leb_trans (x ∷ xs) (y ∷ ys) (z ∷ zs) h k = ground (arith, lex_leb_trans xs ys zs)

module _ {ℓ} {A : Type ℓ} (key : A → List ℕ) where
  abbrev pub by_key : A → A → Bool
  by_key a b = lex_leb (key a) (key b)

  insert_by-strict :
      (x y : A) (l : List A)
      → by_key x y ≡ true
      → by_key y x ≡ false
      → insert_by by_key x (insert_by by_key y l) ≡ insert_by by_key y (insert_by by_key x l)
  unfolding insert_by
  insert_by-strict x y [] h k = rw (h, k) refl
  insert_by-strict x y (z ∷ l) h k = elim (Bool-cases (by_key y z)) [
    | inl t ↦
        let u : by_key x z ≡ true = lex_leb_trans (key x) (key y) (key z) h t in
        rw (t, h, u, k, t) refl
    | inr t ↦ elim (Bool-cases (by_key x z)) [
      | inl u ↦ rw (t, u, k, t) refl
      | inr u ↦ rw (t, u, t) (ap (λ r. z ∷ r) (insert_by-strict x y l h k))
    ]
  ]

  -- Elements of distinct keys may be put into a sorted list in either order.
  pub insert_by_comm :
      (x y : A) (l : List A)
      → key x ≢ key y
      → insert_by by_key x (insert_by by_key y l) ≡ insert_by by_key y (insert_by by_key x l)
  insert_by_comm x y l ne = elim (Bool-cases (by_key x y)) [
    | inl h ↦ elim (Bool-cases (by_key y x)) [
      | inl k ↦ absurd (ne (lex_leb_antisymm (key x) (key y) h k))
      | inr k ↦ insert_by-strict x y l h k
    ]
    | inr h ↦ sym (insert_by-strict y x l (lex_leb_total (key x) (key y) h) h)
  ]
