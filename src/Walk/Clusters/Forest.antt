-- ===== src/Walk/Clusters/Forest.antt =====
-- src/walk.rs: the parent pointers of `cluster` as a forest. `find` returns the root of a tree and
-- `union` joins two trees.
use hashdex.Base.{
  ℕ, zero, suc, ◌≤◌, ◌<◌, ◌≡◌, ◌≢◌, refl, sym, ap, ◌∙◌, true, false, List, length, set,
  get_or-set_self, get_or-set_ne, length-set, ◌==◌, arith,
}
use mathlib.Core.Path.{subst}
use native.Mathlib.Decide.{ℕ_discrete}
use hashdex.Base.Outcome.{ok}
use hashdex.Walk.Clusters.{parent_at, compress, find}

-- The parents of the indices below `n`: `root` is the root of each tree, `depth` falls on the way to
-- it, and no depth is above `height`.
pub record Forest (parent : List ℕ) (n : ℕ) (root depth : ℕ → ℕ) (height : ℕ) : Type 0 where
  pub size : length parent ≡ n
  pub closed : (i : ℕ) → i < n → parent_at parent i < n
  pub root_in : (i : ℕ) → i < n → root i < n
  pub root_own : (i : ℕ) → i < n → parent_at parent (root i) ≡ root i
  pub step : (i : ℕ) → i < n → root (parent_at parent i) ≡ root i
  pub own : (i : ℕ) → i < n → parent_at parent i ≡ i → root i ≡ i
  pub down : (i : ℕ) → i < n → parent_at parent i ≢ i → depth (parent_at parent i) < depth i
  pub flat : (i : ℕ) → i < n → parent_at parent i ≡ i → depth i ≡ 0
  pub low : (i : ℕ) → i < n → depth i ≤ height

-- What is so of a parent after a write is so of the new parent or of the old one.
pub set_cases :
    (P : ℕ → Type 0) (parent : List ℕ) (i v j : ℕ)
    → i < length parent
    → (i ≡ j → P v)
    → (i ≢ j → P (parent_at parent j))
    → P (parent_at (set parent i v) j)
set_cases P parent i v j h new old = elim (ℕ_discrete i j) [
  | yes e ↦
      subst P
        (sym (ap (λ k. parent_at (set parent i v) k) (sym e) ∙ get_or-set_self parent i v i h))
        (new e)
  | no ne ↦ subst P (sym (get_or-set_ne parent i j v j ne)) (old ne)
]

module _ (parent : List ℕ) (n : ℕ) (root depth : ℕ → ℕ) (height : ℕ)
    (forest : Forest parent n root depth height) where
  pub root-root : (i : ℕ) → i < n → root (root i) ≡ root i
  root-root i h = forest.own (root i) (forest.root_in i h) (forest.root_own i h)

  pub depth-root : (i : ℕ) → i < n → depth (root i) ≡ 0
  depth-root i h = forest.flat (root i) (forest.root_in i h) (forest.root_own i h)

  -- Path compression keeps the forest.
  compressed :
      (i : ℕ) → i < n → parent_at parent i ≢ i → Forest (set parent i (root i)) n root depth height
  compressed i h ne = record {
    size = length-set parent i (root i) ∙ forest.size;
    closed = λ j l. cases (λ x. x < n) j (λ e. forest.root_in i h) (λ _. forest.closed j l);
    root_in = forest.root_in;
    root_own = λ j l.
        cases (λ x. x ≡ root j) (root j)
          (λ e. absurd (ne (ap (λ k. parent_at parent k) e ∙ forest.root_own j l ∙ sym e)))
          (λ _. forest.root_own j l);
    step = λ j l.
        cases (λ x. root x ≡ root j) j (λ e. root-root i h ∙ ap root e) (λ _. forest.step j l);
    own =
        λ j l. cases (λ x. x ≡ j → root j ≡ j) j (λ e q. ap root (sym e) ∙ q) (λ _. forest.own j l);
    down = λ j l.
        cases (λ x. x ≢ j → depth x < depth j) j
          (λ e _. omega (arith, depth-root i h, forest.down i h ne, ap depth e))
          (λ _. forest.down j l);
    flat = λ j l.
        cases (λ x. x ≡ j → depth j ≡ 0) j (λ e q. ap depth (sym q) ∙ depth-root i h)
          (λ _. forest.flat j l);
    low = forest.low;
  }
    where
      cases :
          (P : ℕ → Type 0) (j : ℕ)
          → (i ≡ j → P (root i))
          → (i ≢ j → P (parent_at parent j))
          → P (parent_at (set parent i (root i)) j)
      cases P j = set_cases P parent i (root i) j (omega (arith, forest.size))

-- Enough fuel for the depth, and `find` returns the root, in a forest with the same trees.
pub find-root :
    (n fuel : ℕ) (parent : List ℕ) (root depth : ℕ → ℕ) (height i : ℕ)
    → Forest parent n root depth height
    → i < n
    → depth i < fuel
    → (q : List ℕ) × (find fuel parent i ≡ ok (q, root i)) × Forest q n root depth height
unfolding find compress
find-root n zero parent root depth height i forest h l = absurd (omega arith)
find-root n (suc fuel) parent root depth height i forest h l =
    elim (ℕ_discrete (parent_at parent i) i) [
      | yes e ↦
          let t : (parent_at parent i == i) ≡ true = ground arith in
          (parent, rw (t, e) (ap (λ r. ok (parent, r)) (sym (forest.own i h e))), forest)
      | no ne ↦
          let t : (parent_at parent i == i) ≡ false = ground arith in
          let (q, found, rest) =
            find-root n fuel parent root depth height (parent_at parent i) forest
              (forest.closed i h) (omega (arith, forest.down i h ne)) in
          let inside : i < length q = omega (arith, rest.size) in
          let higher : parent_at q i ≢ i =
            λ e. omega (arith, rest.flat i h e, forest.down i h ne) in
          let r = root (parent_at parent i) in
          let last : parent_at (set q i r) i ≡ root i =
            get_or-set_self q i r i inside ∙ forest.step i h in
          (
            set q i r,
            rw (t, found, last) refl,
            subst (λ k. Forest (set q i k) n root depth height) (sym (forest.step i h))
                (compressed q n root depth height rest i h higher),
          )
    ]
