-- ===== src/Walk/Clusters/Join.antt =====
-- src/walk.rs: `union` joins the trees of two indices, and no others.
use hashdex.Base.{
  ℕ, suc, ◌+◌, ◌≤◌, ◌<◌, ◌≡◌, ◌≢◌, refl, sym, ap, ◌∙◌, ◌⊎◌, inl, inr, true, false, List, set,
  length-set, ◌==◌, if◌then◌else◌, arith,
}
use mathlib.Core.Path.{subst}
use native.Mathlib.Decide.{ℕ_discrete}
use hashdex.Base.Outcome.{ok}
use hashdex.Walk.Clusters.{parent_at, union}
use hashdex.Walk.Clusters.Forest.{Forest, set_cases, find-root}

-- What a join makes of a root.
abbrev pub merge : ℕ → ℕ → ℕ → ℕ
merge a b r = if r == a then b else r

pub merge_self : (a b : ℕ) → merge a b a ≡ b
merge_self a b = ground arith

pub merge_ne : (a b r : ℕ) → r ≢ a → merge a b r ≡ r
merge_ne a b r h = ground arith

pub merge_target : (a b : ℕ) → merge a b b ≡ b
merge_target a b = ground arith

pub merge_same : (a r : ℕ) → merge a a r ≡ r
merge_same a r = ground arith

-- Roots that a join makes one were one, or are the two that it joins.
pub merge_cases :
    (a b r s : ℕ) → merge a b r ≡ merge a b s → (r ≡ s) ⊎ ((r ≡ a) × (s ≡ b)) ⊎ ((r ≡ b) × (s ≡ a))
merge_cases a b r s h = elim (ℕ_discrete r a) [
  | yes e ↦ elim (ℕ_discrete s a) [ yes f ↦ inl (e ∙ sym f) | no f ↦ inr (inl (e, ground arith)) ]
  | no e ↦ elim (ℕ_discrete s a) [ yes f ↦ inr (inr (ground arith, f)) | no f ↦ inl (ground arith) ]
]

bonus : ℕ → ℕ → ℕ
bonus a r = if r == a then 1 else 0

bonus_self : (a : ℕ) → bonus a a ≡ 1
unfolding bonus
bonus_self a = ground arith

bonus_ne : (a r : ℕ) → r ≢ a → bonus a r ≡ 0
unfolding bonus
bonus_ne a r h = ground arith

bonus-le : (a r : ℕ) → bonus a r ≤ 1
unfolding bonus
bonus-le a r = ground arith

-- Writing the root `b` over the parent of the root `a` makes one tree of theirs.
linked :
    (parent : List ℕ) (n : ℕ) (root depth : ℕ → ℕ) (height a b : ℕ)
    → Forest parent n root depth height
    → a < n
    → b < n
    → parent_at parent a ≡ a
    → parent_at parent b ≡ b
    → a ≢ b
    → Forest
        (set parent a b)
        n
        (λ j. merge a b (root j))
        (λ j. depth j + bonus a (root j))
        (suc height)
linked parent n root depth height a b forest ha hb pa pb ne = record {
  size = length-set parent a b ∙ forest.size;
  closed = λ j l. cases (λ x. x < n) j (λ _. hb) (λ _. forest.closed j l);
  root_in = λ j l. elim (ℕ_discrete (root j) a) [
    | yes e ↦ subst (λ x. x < n) (sym (became j e)) hb
    | no f ↦ subst (λ x. x < n) (sym (merge_ne a b (root j) f)) (forest.root_in j l)
  ];
  root_own = λ j l. elim (ℕ_discrete (root j) a) [
    | yes e ↦ subst Own (sym (became j e)) (cases (λ x. x ≡ b) b (λ _. refl) (λ _. pb))
    | no f ↦
        subst Own (sym (merge_ne a b (root j) f))
          (cases (λ x. x ≡ root j) (root j) (λ e. absurd (f (sym e))) (λ _. forest.root_own j l))
  ];
  step = λ j l.
      cases (λ x. merge a b (root x) ≡ merge a b (root j)) j
        (λ e. ap (merge a b) root_b ∙ merge_ne a b b ne_b ∙ sym (became j (at_a j e)))
        (λ _. ap (merge a b) (forest.step j l));
  own = λ j l.
      cases (λ x. x ≡ j → merge a b (root j) ≡ j) j (λ e q. absurd (ne (e ∙ sym q)))
        (λ f q. ap (merge a b) (forest.own j l q) ∙ merge_ne a b j (λ e. f (sym e)));
  down = λ j l.
      cases (λ x. x ≢ j → depth x + bonus a (root x) < depth j + bonus a (root j)) j
        (λ e _. omega (
          arith,
          forest.flat b hb pb,
          ap (bonus a) root_b,
          bonus_ne a b ne_b,
          ap (bonus a) (at_a j e),
          bonus_self a,
        ))
        (λ _ q. omega (arith, forest.down j l q, ap (bonus a) (forest.step j l)));
  flat = λ j l.
      cases (λ x. x ≡ j → depth j + bonus a (root j) ≡ 0) j (λ e q. absurd (ne (e ∙ sym q)))
        (λ f q. omega (
          arith,
          forest.flat j l q,
          ap (bonus a) (forest.own j l q),
          bonus_ne a j (λ e. f (sym e)),
        ));
  low = λ j l. omega (arith, forest.low j l, bonus-le a (root j));
}
  where
    Own : ℕ → Type 0
    Own x = parent_at (set parent a b) x ≡ x

    cases :
        (P : ℕ → Type 0) (j : ℕ)
        → (a ≡ j → P b)
        → (a ≢ j → P (parent_at parent j))
        → P (parent_at (set parent a b) j)
    cases P j = set_cases P parent a b j (omega (arith, forest.size))

    ne_b : b ≢ a
    ne_b e = ne (sym e)

    root_b : root b ≡ b
    root_b = forest.own b hb pb

    at_a : (j : ℕ) → a ≡ j → root j ≡ a
    at_a j e = ap root (sym e) ∙ forest.own a ha pa

    became : (j : ℕ) → root j ≡ a → merge a b (root j) ≡ b
    became j e = ap (merge a b) e ∙ merge_self a b

same_trees :
    (parent : List ℕ) (n : ℕ) (root depth : ℕ → ℕ) (height a b : ℕ)
    → Forest parent n root depth height
    → a ≡ b
    → Forest parent n (λ j. merge a b (root j)) depth (suc height)
same_trees parent n root depth height a b forest e =
    subst (λ r. Forest parent n r depth (suc height))
      (λ i j. (sym (ap (λ x. merge a x (root j)) (sym e) ∙ merge_same a (root j))) i)
      (record {
        size = forest.size;
        closed = forest.closed;
        root_in = forest.root_in;
        root_own = forest.root_own;
        step = forest.step;
        own = forest.own;
        down = forest.down;
        flat = forest.flat;
        low = λ j l. omega (arith, forest.low j l);
      })

-- `union` has enough fuel for the height, and merges the roots of its two indices.
pub union-merge :
    (n fuel : ℕ) (parent : List ℕ) (root depth : ℕ → ℕ) (height a b : ℕ)
    → Forest parent n root depth height
    → a < n
    → b < n
    → height < fuel
    → (q : List ℕ) × (deeper : ℕ → ℕ) × (union fuel parent a b ≡ ok q)
      × Forest q n (λ j. merge (root a) (root b) (root j)) deeper (suc height)
unfolding union
union-merge n fuel parent root depth height a b forest ha hb enough =
    let (p, found_a, kept) =
      find-root n fuel parent root depth height a forest ha (omega (arith, forest.low a ha)) in
    let (q, found_b, kept') =
      find-root n fuel p root depth height b kept hb (omega (arith, forest.low b hb)) in
    elim (ℕ_discrete (root a) (root b)) [
      | yes e ↦
          let t : (root a == root b) ≡ true = ground arith in
          (
            q,
            depth,
            rw (found_a, found_b, t) refl,
            same_trees q n root depth height (root a) (root b) kept' e,
          )
      | no ne ↦
          let t : (root a == root b) ≡ false = ground arith in
          (
            set q (root a) (root b),
            λ j. depth j + bonus (root a) (root j),
            rw (found_a, found_b, t) refl,
            linked q n root depth height (root a) (root b) kept' (kept'.root_in a ha)
                (kept'.root_in b hb) (kept'.root_own a ha) (kept'.root_own b hb) ne,
          )
    ]
