-- ===== src/Recipe/Merging.antt =====
-- src/recipe_cmd.rs: the segments that `splice_in` accepts are in order and apart.
use native.Mathlib.Omega.{arith}
use mathlib.Core.Path.{subst}
use hashdex.Base.{
  ℕ, ◌+◌, ◌≤◌, ◌≡◌, refl, sym, ap, ◌∙◌, ◌-◌, inl, inr, false, ◌&&◌, Option, none, some, List, [],
  ◌∷◌, ◌++◌, All, All-append, leb, Bool-cases, Option-cases,
}
use mathlib.Core.List.{append_assoc}
use mathlib.Core.Option.{none-ne-some, some-injective}
use hashdex.Recipe.{
  Seg, child, tabled, pcluster, gap, seg_at, seg_len, is_gap, admits, insert, Runs, runs_size,
  run_of, relocated, Merge, accept, accept_all, place, sort_onto,
}
use hashdex.Recipe.Admission.{Ordered, spans, admits-Placed}
use hashdex.Recipe.Tiling.{IsLong}

-- Runs that follow each other from `b`.
abbrev pub RunsTiled : ℕ → Runs → Type 0
RunsTiled b [] = Unit
RunsTiled b ((log, off, len) ∷ runs) = (log ≡ b) × RunsTiled (b + len) runs

-- A segment of a member, inside the build.
abbrev pub Fits : ℕ → Seg → Type 0
Fits size s = (seg_at s + seg_len s ≤ size) × (is_gap s ≡ false) × IsLong s

run_of-fits :
    (b : ℕ) (runs : Runs) (at len : ℕ) (r : ℕ × ℕ)
    → RunsTiled b runs
    → run_of runs at len ≡ some r
    → at + len ≤ b + runs_size runs
unfolding run_of runs_size
run_of-fits b [] at len r t e = absurd (none-ne-some r e)
run_of-fits b ((log, off, l) ∷ runs) at len r (start, t) e =
    elim (Bool-cases (leb log at && leb (at + len) (log + l))) [
      | inl p ↦ ground arith
      | inr p ↦ omega (arith, run_of-fits (b + l) runs at len r t (rw p at e))
    ]

relocated-Fits :
    (runs : Runs) (x s : Seg)
    → RunsTiled 0 runs
    → IsLong x
    → relocated runs x ≡ some s
    → Fits (runs_size runs) s
unfolding relocated
relocated-Fits runs (child idx from len at root_off) s t h e = absurd (none-ne-some s e)
relocated-Fits runs (gap at len residue_off inline) s t h e = absurd (none-ne-some s e)
relocated-Fits runs (tabled idx from len at root_off) s t h e =
    elim (Option-cases (run_of runs root_off len)) [
      | inl q ↦ absurd (none-ne-some s (rw q at e))
      | inr (r, q) ↦
          subst (Fits (runs_size runs))
            (some-injective (tabled idx from len root_off (r.1 + (root_off - r.0))) s (rw q at e))
            (omega (arith, run_of-fits 0 runs root_off len r t q), refl, h)
    ]
relocated-Fits runs (pcluster pc at len root_off) s t h e =
    elim (Option-cases (run_of runs root_off len)) [
      | inl q ↦ absurd (none-ne-some s (rw q at e))
      | inr (r, q) ↦
          subst (Fits (runs_size runs))
            (some-injective (pcluster pc root_off len (r.1 + (root_off - r.0))) s (rw q at e))
            (omega (arith, run_of-fits 0 runs root_off len r t q), refl, h)
    ]

sort_onto-append :
    (sorted xs ys : List Seg) → sort_onto sorted (xs ++ ys) ≡ sort_onto (sort_onto sorted xs) ys
unfolding sort_onto
sort_onto-append sorted [] ys = refl
sort_onto-append sorted (x ∷ xs) ys = sort_onto-append (place x sorted) xs ys

place-All : (P : Seg → Type 0) (s : Seg) (xs : List Seg) → P s → All P xs → All P (place s xs)
unfolding place
place-All P s [] p h = (p, tt)
place-All P s (x ∷ xs) p (h, hs) = elim (Bool-cases (leb (seg_at x) (seg_at s))) [
  | inl q ↦ rw q (h, place-All P s xs p hs)
  | inr q ↦ rw q (p, (h, hs))
]

pub sort_onto-All :
    (P : Seg → Type 0) (sorted xs : List Seg)
    → All P sorted
    → All P xs
    → All P (sort_onto sorted xs)
unfolding sort_onto
sort_onto-All P sorted [] h k = h
sort_onto-All P sorted (x ∷ xs) h (k, ks) =
    sort_onto-All P (place x sorted) xs (place-All P x sorted k h) ks

-- A segment of a member that is not empty.
abbrev pub IsKept : Seg → Type 0
IsKept s = (is_gap s ≡ false) × IsLong s

-- The segments of a merge, once sorted, are in order and apart, and what is taken is their spans.
abbrev pub IsMerge : ℕ → Merge → Type 0
IsMerge size (segs, taken) =
    Ordered 0 size (sort_onto [] segs) × (taken ≡ spans (sort_onto [] segs)) × All IsKept segs

accept-IsMerge :
    (size : ℕ) (m : Merge) (s : Seg)
    → IsMerge size m
    → Fits size s
    → IsMerge size (accept m (some s))
unfolding accept sort_onto
accept-IsMerge size (segs, taken) s (h, e, n) (fits, no_gap, long) =
    elim (Bool-cases (admits taken (seg_at s) (seg_len s))) [
      | inr p ↦ rw p (h, e, n)
      | inl p ↦
          let (ordered, same) = admits-Placed size s (sort_onto [] segs) fits long h (rw e at p) in
          let sorted : sort_onto [] (segs ++ s ∷ []) ≡ place s (sort_onto [] segs) =
            sort_onto-append [] segs (s ∷ []) in
          rw p (
            rw sorted ordered,
            ap (λ t. insert t (seg_at s) (seg_len s)) e ∙ sym same ∙ ap (λ t. spans t) (sym sorted),
            All-append IsKept segs (s ∷ []) n ((no_gap, long), tt),
          )
    ]

-- A merge, with what it added to the segments that were there.
abbrev pub Merged : ℕ → List Seg → Merge → Type 0
Merged size kept m = IsMerge size m × (added : List Seg) × (m.0 ≡ kept ++ added)

accept-added :
    (kept : List Seg) (m : Merge) (o : Option Seg) (added : List Seg)
    → m.0 ≡ kept ++ added
    → (more : List Seg) × ((accept m o).0 ≡ kept ++ more)
unfolding accept
accept-added kept (segs, taken) none added e = (added, e)
accept-added kept (segs, taken) (some s) added e =
    elim (Bool-cases (admits taken (seg_at s) (seg_len s))) [
      | inr p ↦ (added, rw p e)
      | inl p ↦ (added ++ s ∷ [], rw p (ap (λ t. t ++ s ∷ []) e ∙ append_assoc kept added (s ∷ [])))
    ]

accept-none : (size : ℕ) (m : Merge) → IsMerge size m → IsMerge size (accept m none)
unfolding accept
accept-none size (segs, taken) h = h

pub accept_all-Merged :
    (runs : Runs) (kept : List Seg) (m : Merge) (extra : List Seg)
    → RunsTiled 0 runs
    → All IsLong extra
    → Merged (runs_size runs) kept m
    → Merged (runs_size runs) kept (accept_all runs m extra)
unfolding accept_all
accept_all-Merged runs kept m [] t l h = h
accept_all-Merged runs kept m (x ∷ extra) t (l, ls) (h, added, e) =
    let o = relocated runs x in
    let (more, e') = accept-added kept m o added e in
    accept_all-Merged runs kept (accept m o) extra t ls (
      elim (Option-cases o) [
        | inl q ↦ rw q (accept-none (runs_size runs) m h)
        | inr (s, q) ↦ rw q (accept-IsMerge (runs_size runs) m s h (relocated-Fits runs x s t l q))
      ],
      more,
      e',
    )
