-- ===== src/Walk/Growth.antt =====
-- src/walk.rs: the evidence of `walk` only grows.
use hashdex.Base.{
  ℕ, zero, suc, ◌≤◌, inl, inr, ◌||◌, List, [], ◌∷◌, length, length-append, leb, arith, Bool-cases,
}
use hashdex.Coord.{Coord, Decoders}
use hashdex.Walk.{
  Finding, Sources, Walking, witnessed_at, has_coord, has_text, take_finding, take_all, visit,
  visit_all, is_empty, hop, hops, max_evidence,
}

module _ (d : Decoders) (src : Sources) where
  abbrev pub Fewer : Walking → Walking → Type 0
  Fewer s s' = length s.evidence ≤ length s'.evidence

  take_finding-Fewer :
      (at : Coord) (f : Finding) (s : Walking) → Fewer s (take_finding d src at f s)
  unfolding take_finding
  take_finding-Fewer at f s =
      omega (arith, length-append s.evidence (record { found_at = at; finding = f } ∷ []))

  take_all-Fewer : (at : Coord) (fs : List Finding) (s : Walking) → Fewer s (take_all d src at fs s)
  unfolding take_all
  take_all-Fewer at [] s = omega arith
  take_all-Fewer at (f ∷ fs) s =
      let s' = take_finding d src at f s in
      elim (Bool-cases (has_text s.seen_findings (src.json f))) [
        | inl t ↦ rw t (take_all-Fewer at fs s)
        | inr t ↦ elim (Bool-cases (leb max_evidence (length s'.evidence))) [
          | inl u ↦ rw (t, u) (take_finding-Fewer at f s)
          | inr u ↦ rw (t, u) (omega (arith, take_finding-Fewer at f s, take_all-Fewer at fs s'))
        ]
      ]

  visit-Fewer : (c : Coord) (s : Walking) → Fewer s (visit d src c s)
  unfolding visit
  visit-Fewer c s = elim (Bool-cases (has_coord s.visited c)) [
    | inl t ↦ rw t (omega arith)
    | inr t ↦ rw t (take_all-Fewer c (witnessed_at src c) _)
  ]

  pub visit_all-Fewer : (cs : List Coord) (s : Walking) → Fewer s (visit_all d src cs s)
  unfolding visit_all
  visit_all-Fewer [] s = omega arith
  visit_all-Fewer (c ∷ cs) s = omega (arith, visit-Fewer c s, visit_all-Fewer cs (visit d src c s))

  pub hops-Fewer : (n : ℕ) (cs : List Coord) (s : Walking) → Fewer s (hops d src n cs s)
  unfolding hops
  hops-Fewer zero cs s = omega arith
  hops-Fewer (suc n) cs s =
      let s' = visit_all d src cs (hop s) in
      elim (Bool-cases (is_empty cs || leb max_evidence (length s.evidence))) [
        | inl t ↦ rw t (omega arith)
        | inr t ↦ rw t (omega (arith, visit_all-Fewer cs (hop s), hops-Fewer n s'.next s'))
      ]
