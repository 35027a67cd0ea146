-- ===== src/Walk/Complete.antt =====
-- src/walk.rs: a walk that stays below its cap misses nothing within its hops.
use hashdex.Base.{
  ℕ, zero, suc, ◌+◌, ◌<◌, ◌≡◌, ◌⊎◌, refl, sym, inl, inr, true, List, [], ◌∷◌, length, leb, arith,
  Bool-cases, leb→le,
}
use mathlib.Core.Path.{subst}
use mathlib.Core.List.{Memᴰ}
use mathlib.Core.List.Memᴰ
use native.Mathlib.Decide.{ℕ_discrete}
use hashdex.Coord.{Coord, Decoders}
use hashdex.Walk.{
  Finding, Evidence, Sources, Walking, witnessed_at, parsed, has_coord, visit_all, hop, hops, start,
  walk, max_hops, max_evidence,
}
use hashdex.Walk.Reach.{Reached, seed, linked}
use hashdex.Walk.Growth.{hops-Fewer}
use hashdex.Walk.Closure.{Known, Closed, visit_all-Closed}

module _ (d : Decoders) (src : Sources) (seeds : List Coord)
    (faithful : (f g : Finding) (c c' : Coord)
      → Memᴰ f (witnessed_at src c)
      → Memᴰ g (witnessed_at src c')
      → src.json f ≡ src.json g
      → f ≡ g) where
  found-Known :
      (s : Walking) (todo : List Coord) (c : Coord) (f : Finding) (c' : Coord)
      → Closed d src s todo []
      → has_coord s.visited c ≡ true
      → Memᴰ f (witnessed_at src c)
      → Memᴰ c' (parsed d f.coords)
      → Known d src s todo c'
  found-Known s todo c f c' h v m m' = elim (h.asked c f v m) [
    | inr nothing ↦ absurd (Memᴰ.not-nil nothing)
    | inl seen ↦
        let (e, _, said, same, known) = h.held (src.json f) seen in
        known c' (
          subst (λ (g : Finding). Memᴰ c' (parsed d g.coords))
            (sym (faithful e.finding f e.found_at c said m same)) m')
  ]

  -- What holds at the start of hop `k`: the coordinates fewer than `k` links away are visited, and
  -- those `k` links away are visited or in the frontier.
  record Ahead (k : ℕ) (frontier : List Coord) (s : Walking) : Type 0 where
    closed : Closed d src (hop s) frontier []
    earlier : (j : ℕ) (c : Coord) → j < k → Reached d src seeds j c → has_coord s.visited c ≡ true
    front : (c : Coord) → Reached d src seeds k c → (has_coord s.visited c ≡ true) ⊎ Memᴰ c frontier

  hop-Ahead :
      (k : ℕ) (frontier : List Coord) (s : Walking)
      → length ((visit_all d src frontier (hop s)).evidence) < max_evidence
      → Ahead k frontier s
      → Ahead (suc k) ((visit_all d src frontier (hop s)).next) (visit_all d src frontier (hop s))
  hop-Ahead k frontier s l h =
      let s' = visit_all d src frontier (hop s) in
      let (closed, all) = visit_all-Closed d src frontier (hop s) l h.closed in
      record {
        closed = record {
          asked = closed.asked;
          held = λ t v.
              let (e, m, said, same, known) = closed.held t v in
              (
                e,
                m,
                said,
                same,
                λ c p. elim (known c p) [
                  | inl w ↦ inl w
                  | inr (inl q) ↦ inr (inr q)
                  | inr (inr nothing) ↦ absurd (Memᴰ.not-nil nothing)
                ],
              );
        };
        earlier = λ j c l r. elim (ℕ_discrete j k) [
          | yes e ↦ all c (h.front c (subst (λ i. Reached d src seeds i c) e r))
          | no ne ↦ all c (inl (h.earlier j c (omega arith) r))
        ];
        front = λ c r. next_front s' all closed c r;
      }
    where
      next_front :
          (s' : Walking)
          → ((a : Coord)
              → (has_coord s.visited a ≡ true) ⊎ Memᴰ a frontier
              → has_coord s'.visited a ≡ true)
          → Closed d src s' [] []
          → (c : Coord) → Reached d src seeds (suc k) c
          → (has_coord s'.visited c ≡ true) ⊎ Memᴰ c s'.next
      next_front s' all closed c (linked j b f c' r m m') =
          elim (found-Known s' [] b f c closed (all b (h.front b r)) m m') [
            | inl w ↦ inl w
            | inr (inl q) ↦ inr q
            | inr (inr nothing) ↦ absurd (Memᴰ.not-nil nothing)
          ]

  near :
      (k : ℕ) (s : Walking) (c : Coord) → Ahead k [] s → Memᴰ c seeds → has_coord s.visited c ≡ true
  near zero s c h m = elim (h.front c (seed c m)) [
    | inl v ↦ v
    | inr nothing ↦ absurd (Memᴰ.not-nil nothing)
  ]
  near (suc k) s c h m = h.earlier 0 c (omega arith) (seed c m)

  -- With an empty frontier everything that can be reached is visited.
  all_visited :
      (k : ℕ) (s : Walking) (j : ℕ) (c : Coord)
      → Ahead k [] s
      → Reached d src seeds j c
      → has_coord s.visited c ≡ true
  all_visited k s j c h (seed c' m) = near k s c h m
  all_visited k s j c h (linked i b f c' r m m') =
      elim (found-Known (hop s) [] b f c h.closed (all_visited k s i b h r) m m') [
        | inl v ↦ v
        | inr (inl nothing) ↦ absurd (Memᴰ.not-nil nothing)
        | inr (inr nothing) ↦ absurd (Memᴰ.not-nil nothing)
      ]

  -- The evidence has every finding of the coordinates that fewer than `n` links lead to.
  abbrev Complete : ℕ → List Evidence → Type 0
  Complete n es =
      (j : ℕ) (c : Coord) (f : Finding)
      → j < n
      → Reached d src seeds j c
      → Memᴰ f (witnessed_at src c)
      → (e : Evidence) × Memᴰ e es × (e.finding ≡ f)

  visited-Complete :
      (n : ℕ) (s : Walking) (todo : List Coord)
      → Closed d src (hop s) todo []
      → ((j : ℕ) (c : Coord) → j < n → Reached d src seeds j c → has_coord s.visited c ≡ true)
      → Complete n s.evidence
  visited-Complete n s todo h v j c f l r m = elim (h.asked c f (v j c l r) m) [
    | inr nothing ↦ absurd (Memᴰ.not-nil nothing)
    | inl seen ↦
        let (e, p, said, same, known) = h.held (src.json f) seen in
        (e, p, faithful e.finding f e.found_at c said m same)
  ]

  hops-Complete :
      (n left k : ℕ) (frontier : List Coord) (s : Walking)
      → k + left ≡ n
      → length ((hops d src left frontier s).evidence) < max_evidence
      → Ahead k frontier s
      → Complete n ((hops d src left frontier s).evidence)
  unfolding hops
  hops-Complete n zero k frontier s e l h =
      visited-Complete n s frontier h.closed (λ j c l r. h.earlier j c (omega arith) r)
  hops-Complete n (suc left) k [] s e l h =
      visited-Complete n s [] h.closed (λ j c l r. all_visited k s j c h r)
  hops-Complete n (suc left) k (x ∷ xs) s e l h =
      let s' = visit_all d src (x ∷ xs) (hop s) in
      elim (Bool-cases (leb max_evidence (length s.evidence))) [
        | inl t ↦
            let l' : length s.evidence < max_evidence = rw t at l in
            absurd (omega (arith, leb→le max_evidence (length s.evidence) t, l'))
        | inr t ↦
            let l' : length ((hops d src left s'.next s').evidence) < max_evidence = rw t at l in
            let low : length s'.evidence < max_evidence =
              omega (arith, l', hops-Fewer d src left s'.next s') in
            rw t (
              hops-Complete n left (suc k) s'.next s' (omega arith) l'
                (hop-Ahead k (x ∷ xs) s low h))
      ]

  start-Ahead : Ahead 0 seeds start
  start-Ahead = record {
    closed = record { asked = λ c f v m. cc; held = λ t v. cc };
    earlier = λ j c l r. absurd (omega arith);
    front = λ c r. at_start c r;
  }
    where
      at_start : (c : Coord) → Reached d src seeds 0 c → (has_coord [] c ≡ true) ⊎ Memᴰ c seeds
      at_start c (seed c' m) = inr m

  -- Where the JSON text tells the findings of the sources apart, a walk whose evidence stays below
  -- the cap has every finding that the sources hold at a coordinate that fewer links than there are
  -- hops lead to from the seeds.
  pub walk-Reached :
      (j : ℕ) (c : Coord) (f : Finding)
      → length (walk d seeds src) < max_evidence
      → j < max_hops
      → Reached d src seeds j c
      → Memᴰ f (witnessed_at src c)
      → (e : Evidence) × Memᴰ e (walk d seeds src) × (e.finding ≡ f)
  unfolding walk
  walk-Reached j c f low = hops-Complete max_hops max_hops 0 seeds start refl low start-Ahead j c f
