-- ===== src/Walk/Closure.antt =====
-- src/walk.rs: one hop of a walk that stays below its cap visits the whole frontier and forgets
-- nothing that its findings mention.
use hashdex.Base.{
  ◌<◌, ◌≡◌, ◌⊎◌, refl, sym, ap, ◌∙◌, inl, inr, true, List, [], ◌∷◌, length, leb, arith, Bool-cases,
  leb→le,
}
use mathlib.Core.Path.{subst}
use mathlib.Core.List.{Memᴰ}
use mathlib.Core.List.Memᴰ
use hashdex.Base.Text.{Text, text_eq, text_eq→eq, text_eq_refl}
use hashdex.Coord.{Coord, Decoders}
use hashdex.Walk.{
  Finding, Evidence, Sources, Walking, witnessed_at, parsed, same_coord, has_coord, has_text,
  unvisited, take_finding, take_all, visit, visit_all, max_evidence,
}
use hashdex.Walk.Same.{same_coord→eq, same_coord_refl}
use hashdex.Walk.Growth.{visit_all-Fewer}

unvisited-cases :
    (visited : List Coord) (c : Coord) (cs : List Coord)
    → Memᴰ c cs
    → (has_coord visited c ≡ true) ⊎ Memᴰ c (unvisited visited cs)
unvisited-cases visited c [] m = inr m
unvisited-cases visited c (x ∷ xs) m = elim (Memᴰ.cases_cons m) [
  | inl e ↦ elim (Bool-cases (has_coord visited x)) [
    | inl t ↦ inl (ap (has_coord visited) e ∙ t)
    | inr t ↦ inr (rw t (Memᴰ.head e))
  ]
  | inr p ↦ elim (unvisited-cases visited c xs p) [
    | inl v ↦ inl v
    | inr q ↦
        inr
          (elim (Bool-cases (has_coord visited x)) [ inl t ↦ rw t q | inr t ↦ rw t (Memᴰ.tail q) ])
  ]
]

has_coord-cases :
    (x c : Coord) (xs : List Coord)
    → has_coord (x ∷ xs) c ≡ true
    → (x ≡ c) ⊎ (has_coord xs c ≡ true)
has_coord-cases x c xs h = elim (Bool-cases (same_coord x c)) [
  | inl t ↦ inl (same_coord→eq x c t)
  | inr t ↦ inr (rw t at h)
]

has_coord_self : (x c : Coord) (xs : List Coord) → x ≡ c → has_coord (x ∷ xs) c ≡ true
has_coord_self x c xs e =
    let t : same_coord x c ≡ true = subst (λ y. same_coord x y ≡ true) e (same_coord_refl x) in
    rw t refl

has_coord_more :
    (x c : Coord) (xs : List Coord) → has_coord xs c ≡ true → has_coord (x ∷ xs) c ≡ true
has_coord_more x c xs h = elim (Bool-cases (same_coord x c)) [
  | inl t ↦ rw t refl
  | inr t ↦ rw (t, h) refl
]

module _ (d : Decoders) (src : Sources) where
  -- Where the walk has or will have looked a coordinate up: `todo` is what is left of the frontier.
  abbrev pub Known : Walking → List Coord → Coord → Type 0
  Known s todo c = (has_coord s.visited c ≡ true) ⊎ Memᴰ c s.next ⊎ Memᴰ c todo

  abbrev pub Holds : Walking → List Coord → Text → Type 0
  Holds s todo t =
      (e : Evidence) × Memᴰ e s.evidence
      × Memᴰ e.finding (witnessed_at src e.found_at)
      × (src.json e.finding ≡ t)
      × ((c : Coord) → Memᴰ c (parsed d e.finding.coords) → Known s todo c)

  -- Every finding of a visited coordinate was seen or is among those to come, and every one that was
  -- seen is in the evidence, with its coordinates known.
  pub record Closed (s : Walking) (todo : List Coord) (coming : List Finding) : Type 0 where
    pub asked :
        (c : Coord) (f : Finding)
        → has_coord s.visited c ≡ true
        → Memᴰ f (witnessed_at src c)
        → (has_text s.seen_findings (src.json f) ≡ true) ⊎ Memᴰ f coming
    pub held : (t : Text) → has_text s.seen_findings t ≡ true → Holds s todo t

  take_finding-Closed :
      (at : Coord) (f : Finding) (s : Walking) (todo : List Coord) (fs : List Finding)
      → Memᴰ f (witnessed_at src at)
      → Closed s todo (f ∷ fs)
      → Closed (take_finding d src at f s) todo fs
  unfolding take_finding
  take_finding-Closed at f s todo fs here h = record {
    asked = λ c g v m. elim (Bool-cases (text_eq (src.json f) (src.json g))) [
      | inl t ↦ inl (rw t refl)
      | inr t ↦ elim (h.asked c g v m) [
        | inl u ↦ inl (rw (t, u) refl)
        | inr p ↦ elim (Memᴰ.cases_cons p) [
          | inl e ↦ cc (
            t,
            subst (λ x. text_eq (src.json f) (src.json x) ≡ true) (sym e)
                (text_eq_refl (src.json f)),
          )
          | inr q ↦ inr q
        ]
      ]
    ];
    held = λ t v. elim (Bool-cases (text_eq (src.json f) t)) [
      | inl u ↦ (
        record { found_at = at; finding = f },
        Memᴰ.append_right s.evidence (Memᴰ.head refl),
        here,
        text_eq→eq (src.json f) t u,
        λ c m. elim (unvisited-cases s.visited c (parsed d f.coords) m) [
          | inl w ↦ inl w
          | inr q ↦ inr (inl (Memᴰ.append_right s.next q))
        ],
      )
      | inr u ↦
          let (e, m, said, same, known) = h.held t (rw u at v) in
          (
            e,
            Memᴰ.append_left _ m,
            said,
            same,
            λ c p. elim (known c p) [
              | inl w ↦ inl w
              | inr (inl q) ↦ inr (inl (Memᴰ.append_left _ q))
              | inr (inr q) ↦ inr (inr q)
            ],
          )
    ];
  }

  skip-Closed :
      (f : Finding) (s : Walking) (todo : List Coord) (fs : List Finding)
      → has_text s.seen_findings (src.json f) ≡ true
      → Closed s todo (f ∷ fs)
      → Closed s todo fs
  skip-Closed f s todo fs t h = record {
    asked = λ c g v m. elim (h.asked c g v m) [
      | inl u ↦ inl u
      | inr p ↦ elim (Memᴰ.cases_cons p) [
        | inl e ↦ inl (subst (λ x. has_text s.seen_findings (src.json x) ≡ true) (sym e) t)
        | inr q ↦ inr q
      ]
    ];
    held = h.held;
  }

  -- Below the cap, the loops do not stop early.
  take_all-Closed :
      (at : Coord) (fs : List Finding) (s : Walking) (todo : List Coord)
      → length ((take_all d src at fs s).evidence) < max_evidence
      → ((f : Finding) → Memᴰ f fs → Memᴰ f (witnessed_at src at))
      → Closed s todo fs
      → Closed (take_all d src at fs s) todo []
  unfolding take_all
  take_all-Closed at [] s todo l sub h = h
  take_all-Closed at (f ∷ fs) s todo l sub h =
      let s' = take_finding d src at f s in
      let later : (g : Finding) → Memᴰ g fs → Memᴰ g (witnessed_at src at) =
        λ g m. sub g (Memᴰ.tail m) in
      elim (Bool-cases (has_text s.seen_findings (src.json f))) [
        | inl t ↦
            rw t (take_all-Closed at fs s todo (rw t at l) later (skip-Closed f s todo fs t h))
        | inr t ↦ elim (Bool-cases (leb max_evidence (length s'.evidence))) [
          | inl u ↦
              let l' : length s'.evidence < max_evidence = rw (t, u) at l in
              absurd (omega (arith, leb→le max_evidence (length s'.evidence) u, l'))
          | inr u ↦
              rw (t, u)
                (take_all-Closed at fs s' todo (rw (t, u) at l) later
                  (take_finding-Closed at f s todo fs (sub f (Memᴰ.head refl)) h))
        ]
      ]

  visit-Closed :
      (c : Coord) (s : Walking) (todo : List Coord)
      → length ((visit d src c s).evidence) < max_evidence
      → Closed s (c ∷ todo) []
      → Closed (visit d src c s) todo []
  unfolding visit
  visit-Closed c s todo l h = elim (Bool-cases (has_coord s.visited c)) [
    | inl t ↦ rw t (record {
      asked = h.asked;
      held = λ x v.
          let (e, m, said, same, known) = h.held x v in
          (
            e,
            m,
            said,
            same,
            λ a p. elim (known a p) [
              | inl w ↦ inl w
              | inr (inl q) ↦ inr (inl q)
              | inr (inr q) ↦ elim (Memᴰ.cases_cons q) [
                | inl f ↦ inl (ap (has_coord s.visited) f ∙ t)
                | inr r ↦ inr (inr r)
              ]
            ],
          );
    })
    | inr t ↦ rw t (
        take_all-Closed c (witnessed_at src c) _ todo (rw t at l) (λ f m. m)
          (record {
            asked = λ a g v m. elim (has_coord-cases c a s.visited v) [
              | inl e ↦ inr (subst (λ x. Memᴰ g (witnessed_at src x)) (sym e) m)
              | inr w ↦ elim (h.asked a g w m) [
                | inl u ↦ inl u
                | inr nothing ↦ absurd (Memᴰ.not-nil nothing)
              ]
            ];
            held = λ x v.
                let (e, m, said, same, known) = h.held x v in
                (
                  e,
                  m,
                  said,
                  same,
                  λ a p. elim (known a p) [
                    | inl w ↦ inl (has_coord_more c a s.visited w)
                    | inr (inl q) ↦ inr (inl q)
                    | inr (inr q) ↦ elim (Memᴰ.cases_cons q) [
                      | inl f ↦ inl (has_coord_self c a s.visited (sym f))
                      | inr r ↦ inr (inr r)
                    ]
                  ],
                );
          }))
  ]

  take_all-visited :
      (at : Coord) (fs : List Finding) (s : Walking) → (take_all d src at fs s).visited ≡ s.visited
  unfolding take_all take_finding
  take_all-visited at [] s = refl
  take_all-visited at (f ∷ fs) s =
      let s' = take_finding d src at f s in
      elim (Bool-cases (has_text s.seen_findings (src.json f))) [
        | inl t ↦ rw t (take_all-visited at fs s)
        | inr t ↦ elim (Bool-cases (leb max_evidence (length s'.evidence))) [
          | inl u ↦ rw (t, u) refl
          | inr u ↦ rw (t, u) (take_all-visited at fs s')
        ]
      ]

  visit-visited :
      (c : Coord) (s : Walking)
      → (has_coord (visit d src c s).visited c ≡ true)
        × ((a : Coord)
            → has_coord s.visited a ≡ true
            → has_coord (visit d src c s).visited a ≡ true)
  unfolding visit
  visit-visited c s = elim (Bool-cases (has_coord s.visited c)) [
    | inl t ↦ rw t (t, λ a h. h)
    | inr t ↦ rw t (
      ap (λ v. has_coord v c) (take_all-visited c (witnessed_at src c) _)
          ∙ has_coord_self c c s.visited refl,
      λ a h.
          ap (λ v. has_coord v a) (take_all-visited c (witnessed_at src c) _)
          ∙ has_coord_more c a s.visited h,
    )
  ]

  -- A whole frontier below the cap: all of it is visited, and nothing that was is lost.
  pub visit_all-Closed :
      (cs : List Coord) (s : Walking)
      → length ((visit_all d src cs s).evidence) < max_evidence
      → Closed s cs []
      → Closed (visit_all d src cs s) [] []
        × ((a : Coord)
            → (has_coord s.visited a ≡ true) ⊎ Memᴰ a cs
            → has_coord (visit_all d src cs s).visited a ≡ true)
  unfolding visit_all
  visit_all-Closed [] s l h =
      (h, λ a v. elim v [ inl w ↦ w | inr nothing ↦ absurd (Memᴰ.not-nil nothing) ])
  visit_all-Closed (c ∷ cs) s l h =
      let s' = visit d src c s in
      let (now, kept) = visit-visited c s in
      let low : length s'.evidence < max_evidence = omega (arith, visit_all-Fewer d src cs s', l) in
      let (closed, all) = visit_all-Closed cs s' l (visit-Closed c s cs low h) in
      (
        closed,
        λ a v. elim v [
          | inl w ↦ all a (inl (kept a w))
          | inr p ↦ elim (Memᴰ.cases_cons p) [
            | inl e ↦ all a (inl (ap (has_coord s'.visited) e ∙ now))
            | inr q ↦ all a (inr q)
          ]
        ],
      )
