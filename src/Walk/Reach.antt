-- ===== src/Walk/Reach.antt =====
-- src/walk.rs: what `walk` returns was said by a source, of a coordinate that the sources lead to.
use hashdex.Base.{
  ℕ, zero, suc, ◌+◌, ◌≤◌, ◌<◌, ◌≡◌, refl, All-imp, inl, inr, ◌||◌, List, [], ◌∷◌, length, leb, All,
  All-append, arith, Bool-cases,
}
use mathlib.Core.Path.{subst}
use mathlib.Core.List.{Memᴰ}
use mathlib.Core.List.Memᴰ
use hashdex.Coord.{Coord, Decoders}
use hashdex.Walk.{
  Finding, Evidence, Sources, Walking, witnessed_at, parsed, has_coord, has_text, unvisited,
  take_finding, take_all, visit, visit_all, is_empty, hop, hops, start, walk, max_hops,
  max_evidence,
}
use hashdex.Walk.Clusters.Groups.{Memᴰ-append}

-- The coordinates that so many links lead to from the seeds: each link_roots is a finding of a source at
-- one coordinate that mentions the next.
pub data Reached (d : Decoders) (src : Sources) (seeds : List Coord) : ℕ → Coord → Type 0 where
  seed : (c : Coord) → Memᴰ c seeds → Reached d src seeds 0 c
  linked :
      (k : ℕ) (c : Coord) (f : Finding) (c' : Coord)
      → Reached d src seeds k c
      → Memᴰ f (witnessed_at src c)
      → Memᴰ c' (parsed d f.coords)
      → Reached d src seeds (suc k) c'

unvisited-Memᴰ :
    (visited : List Coord) (c : Coord) (cs : List Coord) → Memᴰ c (unvisited visited cs) → Memᴰ c cs
unvisited-Memᴰ visited c [] m = m
unvisited-Memᴰ visited c (x ∷ xs) m = elim (Bool-cases (has_coord visited x)) [
  | inl t ↦ Memᴰ.tail (unvisited-Memᴰ visited c xs (rw t at m))
  | inr t ↦ elim (Memᴰ.cases_cons (rw t at m)) [
    | inl e ↦ Memᴰ.head e
    | inr p ↦ Memᴰ.tail (unvisited-Memᴰ visited c xs p)
  ]
]

module _ (d : Decoders) (src : Sources) (seeds : List Coord) where
  -- A source said it, of a coordinate that fewer links than `n` lead to.
  abbrev pub Witnessed : ℕ → Evidence → Type 0
  Witnessed n e =
      Memᴰ e.finding (witnessed_at src e.found_at)
      × (k : ℕ) × (k < n)
      × Reached d src seeds k e.found_at

  -- The state of hop `n`, counted from 1: its evidence, and the next frontier.
  record Sound (n : ℕ) (s : Walking) : Type 0 where
    said : All (Witnessed n) s.evidence
    led : (c : Coord) → Memᴰ c s.next → Reached d src seeds n c

  take_finding-Sound :
      (n k : ℕ) (at : Coord) (f : Finding) (s : Walking)
      → Reached d src seeds k at
      → suc k ≡ n
      → Memᴰ f (witnessed_at src at)
      → Sound n s
      → Sound n (take_finding d src at f s)
  unfolding take_finding
  take_finding-Sound n k at f s r e m h = record {
    said = All-append (Witnessed n) s.evidence _ h.said ((m, k, omega arith, r), tt);
    led = λ c p. elim (Memᴰ-append c s.next _ p) [
      | inl q ↦ h.led c q
      | inr q ↦
          subst (λ j. Reached d src seeds j c) e
            (linked k at f c r m (unvisited-Memᴰ s.visited c (parsed d f.coords) q))
    ];
  }

  take_all-Sound :
      (n k : ℕ) (at : Coord) (fs : List Finding) (s : Walking)
      → Reached d src seeds k at
      → suc k ≡ n
      → ((f : Finding) → Memᴰ f fs → Memᴰ f (witnessed_at src at))
      → Sound n s
      → Sound n (take_all d src at fs s)
  unfolding take_all
  take_all-Sound n k at [] s r e sub h = h
  take_all-Sound n k at (f ∷ fs) s r e sub h =
      let after : (s' : Walking) → Sound n s' → Sound n (take_all d src at fs s') =
        λ s'. take_all-Sound n k at fs s' r e (λ g m. sub g (Memᴰ.tail m)) in
      let s' = take_finding d src at f s in
      let h' = take_finding-Sound n k at f s r e (sub f (Memᴰ.head refl)) h in
      elim (Bool-cases (has_text s.seen_findings (src.json f))) [
        | inl t ↦ rw t (after s h)
        | inr t ↦ elim (Bool-cases (leb max_evidence (length s'.evidence))) [
          | inl u ↦ rw (t, u) h'
          | inr u ↦ rw (t, u) (after s' h')
        ]
      ]

  visit-Sound :
      (n k : ℕ) (c : Coord) (s : Walking)
      → Reached d src seeds k c
      → suc k ≡ n
      → Sound n s
      → Sound n (visit d src c s)
  unfolding visit
  visit-Sound n k c s r e h = elim (Bool-cases (has_coord s.visited c)) [
    | inl t ↦ rw t h
    | inr t ↦ rw t (
        take_all-Sound n k c (witnessed_at src c) _ r e (λ f m. m)
          (record { said = h.said; led = h.led }))
  ]

  visit_all-Sound :
      (n k : ℕ) (cs : List Coord) (s : Walking)
      → ((c : Coord) → Memᴰ c cs → Reached d src seeds k c)
      → suc k ≡ n
      → Sound n s
      → Sound n (visit_all d src cs s)
  unfolding visit_all
  visit_all-Sound n k [] s r e h = h
  visit_all-Sound n k (c ∷ cs) s r e h =
      visit_all-Sound n k cs (visit d src c s) (λ c' m. r c' (Memᴰ.tail m)) e
        (visit-Sound n k c s (r c (Memᴰ.head refl)) e h)

  weaken : (a b : ℕ) (es : List Evidence) → a ≤ b → All (Witnessed a) es → All (Witnessed b) es
  weaken a b es l = All-imp (Witnessed a) (Witnessed b) es λ e (m, k, h, r). (m, k, omega arith, r)

  hops-Witnessed :
      (n left k : ℕ) (frontier : List Coord) (s : Walking)
      → ((c : Coord) → Memᴰ c frontier → Reached d src seeds k c)
      → k + left ≡ n
      → All (Witnessed k) s.evidence
      → All (Witnessed n) ((hops d src left frontier s).evidence)
  unfolding hops
  hops-Witnessed n zero k frontier s r e h = weaken k n s.evidence (omega arith) h
  hops-Witnessed n (suc left) k frontier s r e h =
      let hopped : Sound (suc k) (hop s) = record {
        said = weaken k (suc k) s.evidence (omega arith) h;
        led = λ c m. absurd (Memᴰ.not-nil m);
      } in
      let after = visit_all-Sound (suc k) k frontier (hop s) r refl hopped in
      elim (Bool-cases (is_empty frontier || leb max_evidence (length s.evidence))) [
        | inl t ↦ rw t (weaken k n s.evidence (omega arith) h)
        | inr t ↦ rw t (hops-Witnessed n left (suc k) _ _ after.led (omega arith) after.said)
      ]

  -- Each piece of the evidence is a finding that a source has at the coordinate that it was found
  -- at, and fewer links than there are hops lead to that coordinate from the seeds.
  pub walk-Witnessed : All (Witnessed max_hops) (walk d seeds src)
  unfolding walk
  walk-Witnessed = hops-Witnessed max_hops max_hops 0 seeds start seed refl tt
