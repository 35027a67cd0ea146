-- ===== src/Walk/Clusters/Weld.antt =====
-- src/walk.rs: the loops of `cluster` join two findings exactly where identity-grade coordinates
-- connect them.
use hashdex.Base.{
  ℕ, suc, ◌+◌, ◌≤◌, ◌<◌, ◌≡◌, refl, sym, ap, ◌∙◌, ◌⊎◌, inl, inr, true, none, some, List, [], ◌∷◌,
  length, arith, Bool-cases, Option-cases,
}
use mathlib.Core.Path.{subst}
use mathlib.Core.List.{Memᴰ}
use mathlib.Core.List.Memᴰ
use hashdex.Base.Outcome.{ok}
use hashdex.Coord.{Coord}
use hashdex.Walk.{is_identity_grade, same_coord}
use hashdex.Walk.Same.{same_coord→eq, same_coord_refl}
use hashdex.Walk.Clusters.{union, Welds, anchor_of, weld_one, weld_all}
use hashdex.Walk.Clusters.Forest.{Forest}
use hashdex.Walk.Clusters.Join.{merge, merge_cases, merge_self, merge_target, union-merge}

-- Indices that identity-grade coordinates connect, through others where needed. A weak digest
-- connects nothing.
pub data Connected (ws : List (ℕ × Coord)) : ℕ → ℕ → Type 0 where
  itself : (i : ℕ) → Connected ws i i
  shared :
      (i j : ℕ) (c : Coord)
      → is_identity_grade c.scheme ≡ true
      → Memᴰ (i, c) ws
      → Memᴰ (j, c) ws
      → Connected ws i j
  back : (i j : ℕ) → Connected ws i j → Connected ws j i
  through : (i j k : ℕ) → Connected ws i j → Connected ws j k → Connected ws i k

-- The state of the loops: the trees are connected, the anchors are of their coordinates, and each
-- coordinate is to come or in the tree of its anchor.
pub record Welding (ws : List (ℕ × Coord)) (n : ℕ) (s : Welds) (root depth : ℕ → ℕ) (height : ℕ)
    (todo : List (ℕ × Coord)) : Type 0 where
  pub forest : Forest s.parent n root depth height
  pub sound : (i j : ℕ) → i < n → j < n → root i ≡ root j → Connected ws i j
  pub anchored : (c : Coord) (j : ℕ) → anchor_of s.anchor c ≡ some j → (j < n) × Memᴰ (j, c) ws
  pub met :
      (i : ℕ) (c : Coord)
      → Memᴰ (i, c) ws
      → is_identity_grade c.scheme ≡ true
      → Memᴰ (i, c) todo ⊎ ((j : ℕ) × (anchor_of s.anchor c ≡ some j) × (root i ≡ root j))

abbrev pub Below : ℕ → List (ℕ × Coord) → Type 0
Below n ws = (i : ℕ) (c : Coord) → Memᴰ (i, c) ws → i < n

-- A finding of a coordinate that no other has had yet becomes its anchor.
anchor_first :
    (ws : List (ℕ × Coord)) (n : ℕ) (s : Welds) (root depth : ℕ → ℕ) (height i : ℕ) (c : Coord)
    (todo : List (ℕ × Coord))
    → Welding ws n s root depth height ((i, c) ∷ todo)
    → i < n
    → Memᴰ (i, c) ws
    → anchor_of s.anchor c ≡ none
    → Welding ws n (record { parent = s.parent; anchor = (c, i) ∷ s.anchor }) root depth height todo
anchor_first ws n s root depth height i c todo w h m fresh = record {
  forest = w.forest;
  sound = w.sound;
  anchored = λ d j q. elim (Bool-cases (same_coord c d)) [
    | inl t ↦
        let e : c ≡ d = same_coord→eq c d t in
        let f : i ≡ j = cc (rw t at q) in
        (subst (λ k. k < n) f h, subst (λ k. Memᴰ (k, d) ws) f (subst (λ k. Memᴰ (i, k) ws) e m))
    | inr t ↦ w.anchored d j (rw t at q)
  ];
  met = λ k d q g. elim (w.met k d q g) [
    | inr (j, q', e) ↦ inr (elim (Bool-cases (same_coord c d)) [
      | inl t ↦ cc (q', fresh, ap (anchor_of s.anchor) (same_coord→eq c d t))
      | inr t ↦ (j, rw t q', e)
    ])
    | inl (Memᴰ.head e) ↦
        let t : same_coord c d ≡ true =
          subst (λ x. same_coord c x ≡ true) (λ t. (sym e t).1) (same_coord_refl c) in
        inr (i, rw t refl, λ t. root ((e t).0))
    | inl (Memᴰ.tail q') ↦ inl q'
  ];
}

-- A finding of a coordinate that has an anchor is joined to it.
join_anchor :
    (fuel : ℕ) (ws : List (ℕ × Coord)) (n : ℕ) (s : Welds) (root depth : ℕ → ℕ) (height i j : ℕ)
    (c : Coord) (todo : List (ℕ × Coord))
    → Welding ws n s root depth height ((i, c) ∷ todo)
    → height < fuel
    → i < n
    → is_identity_grade c.scheme ≡ true
    → Memᴰ (i, c) ws
    → anchor_of s.anchor c ≡ some j
    → (q : List ℕ) × (deeper : ℕ → ℕ) × (union fuel s.parent i j ≡ ok q)
      × Welding ws n
          (record { parent = q; anchor = s.anchor })
          (λ k. merge (root i) (root j) (root k))
          deeper
          (suc height)
          todo
join_anchor fuel ws n s root depth height i j c todo w enough h g m found =
    let (hj, mj) = w.anchored c j found in
    let (q, deeper, run, forest) =
      union-merge n fuel s.parent root depth height i j w.forest h hj enough in
    let joined = shared i j c g m mj in
    (
      q,
      deeper,
      run,
      record {
        forest = forest;
        sound = λ k l hk hl e. elim (merge_cases (root i) (root j) (root k) (root l) e) [
          | inl same ↦ w.sound k l hk hl same
          | inr (inl (p, r)) ↦
              through k i l (w.sound k i hk h p) (through i j l joined (w.sound j l hj hl (sym r)))
          | inr (inr (p, r)) ↦
              through k j l (w.sound k j hk hj p)
                (through j i l (back i j joined) (w.sound i l h hl (sym r)))
        ];
        anchored = w.anchored;
        met = λ k d p t. elim (w.met k d p t) [
          | inr (l, p', e) ↦ inr (l, p', ap (merge (root i) (root j)) e)
          | inl (Memᴰ.tail p') ↦ inl p'
          | inl (Memᴰ.head e) ↦ inr (
            j,
            subst (λ x. anchor_of s.anchor x ≡ some j) (λ t. (sym e t).1) found,
            ap (merge (root i) (root j)) (λ t. root ((e t).0))
                ∙ merge_self (root i) (root j)
                ∙ sym (merge_target (root i) (root j)),
          )
        ];
      },
    )

weld_one-Welding :
    (fuel : ℕ) (ws : List (ℕ × Coord)) (n : ℕ) (s : Welds) (root depth : ℕ → ℕ) (height i : ℕ)
    (c : Coord) (todo : List (ℕ × Coord))
    → Welding ws n s root depth height ((i, c) ∷ todo)
    → height < fuel
    → i < n
    → Memᴰ (i, c) ws
    → (s' : Welds) × (root' depth' : ℕ → ℕ) × (height' : ℕ) × (weld_one fuel (i, c) s ≡ ok s')
      × Welding ws n s' root' depth' height' todo
      × (height' ≤ suc height)
unfolding weld_one
weld_one-Welding fuel ws n s root depth height i c todo w enough h m =
    elim (Bool-cases (is_identity_grade c.scheme)) [
      | inr weak ↦ (
        s,
        root,
        depth,
        height,
        rw weak refl,
        record {
          forest = w.forest;
          sound = w.sound;
          anchored = w.anchored;
          met = λ k d p strong. elim (w.met k d p strong) [
            | inr r ↦ inr r
            | inl (Memᴰ.tail p') ↦ inl p'
            | inl (Memᴰ.head e) ↦ cc (
              subst (λ (x : Coord). is_identity_grade x.scheme ≡ true) (λ t. (e t).1) strong,
              weak,
            )
          ];
        },
        omega arith,
      )
      | inl g ↦ elim (Option-cases (anchor_of s.anchor c)) [
        | inl fresh ↦ (
          _,
          root,
          depth,
          height,
          rw (g, fresh) refl,
          anchor_first ws n s root depth height i c todo w h m fresh,
          omega arith,
        )
        | inr (j, found) ↦
            let (q, deeper, run, after) =
              join_anchor fuel ws n s root depth height i j c todo w enough h g m found in
            (_, _, deeper, suc height, rw (g, found, run) refl, after, omega arith)
      ]
    ]

-- All the turns of the loops.
pub weld_all-Welding :
    (fuel : ℕ) (ws : List (ℕ × Coord)) (n : ℕ) (s : Welds) (root depth : ℕ → ℕ) (height : ℕ)
    (todo : List (ℕ × Coord))
    → Welding ws n s root depth height todo
    → height + length todo < fuel
    → Below n ws
    → ((w : ℕ × Coord) → Memᴰ w todo → Memᴰ w ws)
    → (s' : Welds) × (root' depth' : ℕ → ℕ) × (height' : ℕ) × (weld_all fuel todo s ≡ ok s')
      × Welding ws n s' root' depth' height' []
      × (height' < fuel)
unfolding weld_all
weld_all-Welding fuel ws n s root depth height [] w enough below sub =
    (s, root, depth, height, refl, w, omega (arith, enough))
weld_all-Welding fuel ws n s root depth height ((i, c) ∷ todo) w enough below sub =
    let m = sub (i, c) (Memᴰ.head refl) in
    let (s', root', depth', height', run, w', grown) =
      weld_one-Welding fuel ws n s root depth height i c todo w (omega (arith, enough))
        (below i c m) m in
    let (s'', root'', depth'', height'', runs, w'', low) =
      weld_all-Welding fuel ws n s' root' depth' height' todo w' (omega (arith, enough, grown))
        below (λ x t. sub x (Memᴰ.tail t)) in
    (s'', root'', depth'', height'', rw (run, runs) refl, w'', low)

pub Connected-root :
    (ws : List (ℕ × Coord)) (n : ℕ) (s : Welds) (root depth : ℕ → ℕ) (height i j : ℕ)
    → Welding ws n s root depth height []
    → Connected ws i j
    → root i ≡ root j
Connected-root ws n s root depth height i j w (itself i') = refl
Connected-root ws n s root depth height i j w (back k l c) =
    sym (Connected-root ws n s root depth height k l w c)
Connected-root ws n s root depth height i j w (through k l m c d) =
    Connected-root ws n s root depth height k l w c
    ∙ Connected-root ws n s root depth height l m w d
Connected-root ws n s root depth height i j w (shared k l c g p q) = elim (w.met k c p g) [
  | inl m ↦ absurd (Memᴰ.not-nil m)
  | inr (a, found, e) ↦ elim (w.met l c q g) [
    | inl m ↦ absurd (Memᴰ.not-nil m)
    | inr (b, found', e') ↦ let same : a ≡ b = cc (found, found') in e ∙ ap root same ∙ sym e'
  ]
]
