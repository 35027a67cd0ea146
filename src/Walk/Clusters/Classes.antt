-- ===== src/Walk/Clusters/Classes.antt =====
-- src/walk.rs: the groups of `cluster` are the classes of the connected findings.
use hashdex.Base.{
  ℕ, zero, suc, ◌+◌, ◌<◌, ◌≡◌, refl, sym, ap, ◌∙◌, ◌↔◌, inl, inr, List, [], ◌∷◌, map, length,
  get_or, arith,
}
use mathlib.Core.Path.{subst}
use mathlib.Core.List.{Memᴰ}
use mathlib.Core.List.Memᴰ
use hashdex.Base.Outcome.{ok}
use hashdex.Coord.{Coord, Decoders}
use hashdex.Walk.{Evidence}
use hashdex.Walk.Clusters.{parent_at, witnessed, coords_of, indices, groups_of}
use hashdex.Walk.Clusters.Weld.{Connected, Welding, Below, weld_all-Welding, Connected-root}
use hashdex.Walk.Clusters.Groups.{Groups, group_at, group_at-Memᴰ, Grouping, group_all-Grouping}
use hashdex.Walk.Clusters.Groups.{Memᴰ-append}

length-indices : (a n : ℕ) → length (indices a n) ≡ n
length-indices a zero = refl
length-indices a (suc n) = ap suc (length-indices (suc a) n)

parent_at-indices : (a n i : ℕ) → get_or (indices a n) i (a + i) ≡ a + i
parent_at-indices a zero i = refl
parent_at-indices a (suc n) zero = omega arith
parent_at-indices a (suc n) (suc i) =
    let e : a + suc i ≡ suc a + i = omega arith in
    ap (get_or (indices (suc a) n) i) e ∙ parent_at-indices (suc a) n i ∙ sym e

-- Before the loops each index is a tree of its own.
start_lem :
    (ws : List (ℕ × Coord)) (n : ℕ)
    → Welding ws n (record { parent = indices 0 n; anchor = [] }) (λ i. i) (λ i. 0) 0 ws
start_lem ws n = record {
  forest = record {
    size = length-indices 0 n;
    closed = λ i h. omega (arith, alone i);
    root_in = λ i h. h;
    root_own = λ i h. alone i;
    step = λ i h. alone i;
    own = λ i h e. refl;
    down = λ i h ne. absurd (ne (alone i));
    flat = λ i h e. refl;
    low = λ i h. omega arith;
  };
  sound = λ i j hi hj e. subst (Connected ws i) e (Connected.itself i);
  anchored = λ c j e. cc;
  met = λ i c m g. inl m;
}
  where
    alone : (i : ℕ) → parent_at (indices 0 n) i ≡ i
    alone i =
        let e : 0 + i ≡ i = omega arith in
        subst (λ k. get_or (indices 0 n) i k ≡ k) e (parent_at-indices 0 n i)

Memᴰ-map :
    (i k : ℕ) (c : Coord) (cs : List Coord)
    → Memᴰ {A = ℕ × Coord} (i, c) (map (λ x. (k, x)) cs)
    → i ≡ k
Memᴰ-map i k c [] m = absurd (Memᴰ.not-nil m)
Memᴰ-map i k c (x ∷ xs) (Memᴰ.head e) = λ t. (e t).0
Memᴰ-map i k c (x ∷ xs) (Memᴰ.tail m) = Memᴰ-map i k c xs m

witnessed-below :
    (d : Decoders) (k : ℕ) (es : List Evidence) (i : ℕ) (c : Coord)
    → Memᴰ (i, c) (witnessed d k es)
    → i < k + length es
unfolding witnessed
witnessed-below d k [] i c m = absurd (Memᴰ.not-nil m)
witnessed-below d k (e ∷ es) i c m =
    elim (Memᴰ-append (i, c) (map (λ x. (k, x)) (coords_of d e)) (witnessed d (suc k) es) m) [
      | inl p ↦ omega (arith, Memᴰ-map i k c (coords_of d e) p)
      | inr p ↦ omega (arith, witnessed-below d (suc k) es i c p)
    ]

-- Two indices are members of one group.
abbrev pub Together : Groups → ℕ → ℕ → Type 0
Together gs i j = (r : ℕ) × (ms : List ℕ) × Memᴰ {A = ℕ × List ℕ} (r, ms) gs × Memᴰ i ms × Memᴰ j ms

-- For two findings of the evidence, the loops of `cluster` return groups, without running out of
-- fuel, and the two are in one group if and only if identity-grade coordinates connect them.
pub groups_of-Connected :
    (d : Decoders) (es : List Evidence) (i j : ℕ)
    → i < length es
    → j < length es
    → (gs : Groups) × (groups_of d es ≡ ok gs)
      × (Together gs i j ↔ Connected (witnessed d 0 es) i j)
unfolding groups_of
groups_of-Connected d es i j hi hj =
    let ws = witnessed d 0 es in
    let n = length es in
    let below : Below n ws = λ k c m. omega (arith, witnessed-below d 0 es k c m) in
    let (s, root, depth, height, welded, w, low) =
      weld_all-Welding (suc (length ws)) ws n _ _ _ 0 ws (start_lem ws n) (omega arith) below
        (λ x m. m) in
    let empty : Grouping [] n root 0 = record {
      one_root = λ r m ms p q. absurd (Memᴰ.not-nil p);
      placed = λ k l. absurd (omega arith);
    } in
    let (gs, grouped, g) =
      group_all-Grouping (suc (length ws)) s.parent n root depth height 0 n [] w.forest low
        (omega arith) empty in
    (
      gs,
      rw (welded, grouped) refl,
      (
        λ (r, ms, p, a, b).
            let (e, h) = g.one_root r i ms p a in
            let (f, h') = g.one_root r j ms p b in w.sound i j h h' (e ∙ sym f),
        λ c.
            let e = Connected-root ws n s root depth height i j w c in
            let (ms, found, a) = g.placed i hi in
            let (ms', found', b) = g.placed j hj in
            let same : ms' ≡ ms = cc (found, found', ap (group_at gs) e) in
            (root i, ms, group_at-Memᴰ gs (root i) ms found, a, subst (Memᴰ j) same b),
      ),
    )
