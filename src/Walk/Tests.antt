-- ===== src/Walk/Tests.antt =====
-- Runs of `walk` of src/walk.rs, and the theorems at concrete inputs.
use hashdex.Base.{
  ◌≡◌, ◌<◌, refl, sym, ap, ◌∙◌, inl, inr, none, some, [], ◌∷◌, length, arith, replicate, All,
  if◌then◌else◌, Bool-cases,
}
use mathlib.Core.List.{Memᴰ}
use mathlib.Core.List.Memᴰ
use hashdex.Base.Text.{Text, codes}
use hashdex.Coord.{Coord, Decoders, sha1, sha256}
use hashdex.Walk.{Finding, Evidence, Sources, witnessed_at, walk, max_hops, same_coord}
use hashdex.Walk.Reach.{seed, Witnessed, walk-Witnessed}
use hashdex.Walk.Complete.{walk-Reached}

abbrev decoders : Decoders
decoders = record { base64 = λ t. none; base32 = λ t. none }

abbrev first : Coord
first = record { scheme = sha1; digest = replicate 20 1 }

abbrev second : Coord
second = record { scheme = sha256; digest = replicate 32 2 }

abbrev row : Text → Finding
row backend = record { backend = backend; claims = []; coords = []; archive = none }

-- A dataset with one row under `first`, and a store with another under every coordinate.
abbrev sources : Sources
sources = record {
  local = λ c. if same_coord c first then row (codes "swh") ∷ [] else [];
  cache = some λ c. row (codes "circl") ∷ [];
  json = λ f. f.backend;
}

walk_runs :
    walk decoders (first ∷ first ∷ second ∷ []) sources
    ≡ record { found_at = first; finding = row (codes "swh") }
      ∷ record { found_at = first; finding = row (codes "circl") }
      ∷ []
unfolding walk
walk_runs = refl

walk-Witnessed_example :
    All (Witnessed decoders sources (first ∷ []) max_hops) (walk decoders (first ∷ []) sources)
walk-Witnessed_example = walk-Witnessed decoders sources (first ∷ [])

row_of : (f : Finding) (b : Text) → f ≡ row b → row f.backend ≡ f
row_of f b e = ap (λ (g : Finding). row g.backend) e ∙ sym e

rows : (f : Finding) (c : Coord) → Memᴰ f (witnessed_at sources c) → row f.backend ≡ f
rows f c m = elim (Bool-cases (same_coord c first)) [
  | inl t ↦ elim (Memᴰ.cases_cons (rw t at m)) [
    | inl e ↦ row_of f (codes "swh") e
    | inr p ↦ elim (Memᴰ.cases_cons p) [
      | inl e ↦ row_of f (codes "circl") e
      | inr nothing ↦ absurd (Memᴰ.not-nil nothing)
    ]
  ]
  | inr t ↦ elim (Memᴰ.cases_cons (rw t at m)) [
    | inl e ↦ row_of f (codes "circl") e
    | inr nothing ↦ absurd (Memᴰ.not-nil nothing)
  ]
]

walk_low : length (walk decoders (first ∷ []) sources) < 1000
unfolding walk
walk_low = omega arith

walk-Reached_example :
    (e : Evidence) × Memᴰ e (walk decoders (first ∷ []) sources) × (e.finding ≡ row (codes "circl"))
walk-Reached_example =
    walk-Reached decoders sources (first ∷ [])
      (λ f g c c' m m' e. sym (rows f c m) ∙ ap row e ∙ rows g c' m') 0 first (row (codes "circl"))
      walk_low (omega arith) (seed first (Memᴰ.head refl)) (Memᴰ.tail (Memᴰ.head refl))
