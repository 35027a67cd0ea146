-- ===== src/Walk/Clusters/Groups.antt =====
-- src/walk.rs: the groups of `cluster` hold each index once, in the group of its root.
use hashdex.Base.{
  ℕ, zero, suc, ◌+◌, ◌<◌, ◌≡◌, ◌≢◌, refl, sym, ap, ◌∙◌, ◌⊎◌, inl, inr, true, false, Option, none,
  some, List, [], ◌∷◌, ◌++◌, ◌==◌, if◌then◌else◌, arith, Bool-cases,
}
use mathlib.Core.Path.{subst}
use mathlib.Core.List.{Memᴰ}
use mathlib.Core.List.Memᴰ
use native.Mathlib.Decide.{ℕ_discrete}
use hashdex.Base.Outcome.{ok}
use hashdex.Walk.Clusters.{indices, push_group, group_all}
use hashdex.Walk.Clusters.Forest.{Forest, find-root}

pub Memᴰ-append {ℓ} :
    {A : Type ℓ} (a : A) (xs ys : List A) → Memᴰ a (xs ++ ys) → Memᴰ a xs ⊎ Memᴰ a ys
Memᴰ-append a [] ys m = inr m
Memᴰ-append a (x ∷ xs) ys (Memᴰ.head e) = inl (Memᴰ.head e)
Memᴰ-append a (x ∷ xs) ys (Memᴰ.tail m) = elim (Memᴰ-append a xs ys m) [
  | inl p ↦ inl (Memᴰ.tail p)
  | inr p ↦ inr p
]

abbrev pub Groups : Type 0
Groups = List (ℕ × List ℕ)

abbrev pub group_at : Groups → ℕ → Option (List ℕ)
group_at [] r = none
group_at ((k, ms) ∷ gs) r = if k == r then some ms else group_at gs r

pub group_at-Memᴰ :
    (gs : Groups) (r : ℕ) (ms : List ℕ) → group_at gs r ≡ some ms → Memᴰ {A = ℕ × List ℕ} (r, ms) gs
group_at-Memᴰ [] r ms h = cc
group_at-Memᴰ ((k, xs) ∷ gs) r ms h = elim (Bool-cases (k == r)) [
  | inl t ↦
      let e : k ≡ r = ground arith in
      let f : xs ≡ ms = cc (rw t at h) in Memᴰ.head (λ i. (sym e i, sym f i))
  | inr t ↦ Memᴰ.tail (group_at-Memᴰ gs r ms (rw t at h))
]

-- A push keeps the members of the group and adds the new one.
group_at-push_group :
    (gs : Groups) (r i : ℕ)
    → (ms : List ℕ) × (group_at (push_group gs r i) r ≡ some ms)
      × Memᴰ i ms
      × ((old : List ℕ) (j : ℕ) → group_at gs r ≡ some old → Memᴰ j old → Memᴰ j ms)
group_at-push_group [] r i =
    let t : (r == r) ≡ true = ground arith in (i ∷ [], rw t refl, Memᴰ.head refl, λ old j e m. cc)
group_at-push_group ((k, xs) ∷ gs) r i = elim (Bool-cases (k == r)) [
  | inl t ↦ (
    xs ++ (i ∷ []),
    rw (t, t) refl,
    Memᴰ.append_right xs (Memᴰ.head refl),
    λ old j e m.
        let f : old ≡ xs = cc (rw t at e) in Memᴰ.append_left (i ∷ []) (subst (Memᴰ j) f m),
  )
  | inr t ↦
      let (ms, found, new, old) = group_at-push_group gs r i in
      (ms, rw (t, t) found, new, λ xs j e m. old xs j (rw t at e) m)
]

group_at-push_ne :
    (gs : Groups) (r i k : ℕ) → r ≢ k → group_at (push_group gs r i) k ≡ group_at gs k
group_at-push_ne [] r i k ne = let t : (r == k) ≡ false = ground arith in rw t refl
group_at-push_ne ((x, xs) ∷ gs) r i k ne = elim (Bool-cases (x == r)) [
  | inl t ↦
      let e : x ≡ r = ground arith in let u : (x == k) ≡ false = ground arith in rw (t, u) refl
  | inr t ↦ rw t (elim (Bool-cases (x == k)) [
    | inl u ↦ rw u refl
    | inr u ↦ rw u (group_at-push_ne gs r i k ne)
  ])
]

-- The members of a pushed group are those of an old one, and the new one.
push_group-Memᴰ :
    (gs : Groups) (r i k m : ℕ) (ms : List ℕ)
    → Memᴰ {A = ℕ × List ℕ} (k, ms) (push_group gs r i)
    → Memᴰ m ms
    → ((k ≡ r) × (m ≡ i)) ⊎ ((old : List ℕ) × Memᴰ {A = ℕ × List ℕ} (k, old) gs × Memᴰ m old)
push_group-Memᴰ [] r i k m ms (Memᴰ.tail p) q = absurd (Memᴰ.not-nil p)
push_group-Memᴰ [] r i k m ms (Memᴰ.head e) q = elim (subst (Memᴰ m) (λ t. (e t).1) q) [
  | Memᴰ.head f ↦ inl (λ t. (e t).0, f)
  | Memᴰ.tail p ↦ absurd (Memᴰ.not-nil p)
]
push_group-Memᴰ ((x, xs) ∷ gs) r i k m ms p q = elim (Bool-cases (x == r)) [
  | inl t ↦ elim (Memᴰ.cases_cons (rw t at p)) [
    | inr p' ↦ inr (ms, Memᴰ.tail p', q)
    | inl e ↦ elim (Memᴰ-append m xs (i ∷ []) (subst (Memᴰ m) (λ t. (e t).1) q)) [
      | inl q' ↦ inr (xs, Memᴰ.head (λ t. ((e t).0, xs)), q')
      | inr q' ↦ elim (Memᴰ.cases_cons q') [
        | inl f ↦ let g : x ≡ r = ground arith in inl ((λ t. (e t).0) ∙ g, f)
        | inr nothing ↦ absurd (Memᴰ.not-nil nothing)
      ]
    ]
  ]
  | inr t ↦ elim (Memᴰ.cases_cons (rw t at p)) [
    | inl e ↦ inr (ms, Memᴰ.head e, q)
    | inr p' ↦ elim (push_group-Memᴰ gs r i k m ms p' q) [
      | inl both ↦ inl both
      | inr (old, a, b) ↦ inr (old, Memᴰ.tail a, b)
    ]
  ]
]

-- The groups after the indices below `i`: the members of one have one root, its key, and each index
-- is in the group of its root.
pub record Grouping (gs : Groups) (n : ℕ) (root : ℕ → ℕ) (i : ℕ) : Type 0 where
  pub one_root :
      (r m : ℕ) (ms : List ℕ)
      → Memᴰ {A = ℕ × List ℕ} (r, ms) gs
      → Memᴰ m ms
      → (root m ≡ r) × (m < n)
  pub placed : (j : ℕ) → j < i → (ms : List ℕ) × (group_at gs (root j) ≡ some ms) × Memᴰ j ms

push_group-Grouping :
    (gs : Groups) (n : ℕ) (root : ℕ → ℕ) (i : ℕ)
    → Grouping gs n root i
    → i < n
    → Grouping (push_group gs (root i) i) n root (suc i)
push_group-Grouping gs n root i g h = record {
  one_root = λ r m ms p q. elim (push_group-Memᴰ gs (root i) i r m ms p q) [
    | inl (e, f) ↦ (ap root f ∙ sym e, subst (λ k. k < n) (sym f) h)
    | inr (old, a, b) ↦ g.one_root r m old a b
  ];
  placed = at;
}
  where
    at :
        (j : ℕ)
        → j < suc i
        → (ms : List ℕ) × (group_at (push_group gs (root i) i) (root j) ≡ some ms) × Memᴰ j ms
    at j l =
        let (ms, found, new, kept) = group_at-push_group gs (root i) i in
        elim (ℕ_discrete j i) [
          | yes e ↦ (
            ms,
            ap (λ k. group_at (push_group gs (root i) i) (root k)) e ∙ found,
            subst (λ k. Memᴰ k ms) (sym e) new,
          )
          | no ne ↦
              let (old, was, inside) = g.placed j (omega arith) in
              elim (ℕ_discrete (root i) (root j)) [
                | yes e ↦ (
                  ms,
                  ap (group_at (push_group gs (root i) i)) (sym e) ∙ found,
                  kept old j (ap (group_at gs) e ∙ was) inside,
                )
                | no apart ↦ (old, group_at-push_ne gs (root i) i (root j) apart ∙ was, inside)
              ]
        ]

pub group_all-Grouping :
    (fuel : ℕ) (parent : List ℕ) (n : ℕ) (root depth : ℕ → ℕ) (height i left : ℕ) (gs : Groups)
    → Forest parent n root depth height
    → height < fuel
    → i + left ≡ n
    → Grouping gs n root i
    → (out : Groups) × (group_all fuel parent (indices i left) gs ≡ ok out) × Grouping out n root n
unfolding group_all
group_all-Grouping fuel parent n root depth height i zero gs forest enough e g =
    let last : i ≡ n = omega arith in (gs, refl, subst (Grouping gs n root) last g)
group_all-Grouping fuel parent n root depth height i (suc left) gs forest enough e g =
    let h : i < n = omega arith in
    let (q, found, kept) =
      find-root n fuel parent root depth height i forest h (omega (arith, forest.low i h)) in
    let (out, run, done) =
      group_all-Grouping fuel q n root depth height (suc i) left (push_group gs (root i) i) kept
        enough (omega arith) (push_group-Grouping gs n root i g h) in
    (out, rw (found, run) refl, done)
