-- ===== src/Walk.antt =====
-- src/finding.rs and src/walk.rs: what the sources say about a coordinate, and the walk over the
-- coordinates that they mention together.
--
-- The sources are parameters: the pulled datasets (`local`), the observation store
-- (`Cache::findings_for`) and the JSON text of a finding (`serde_json::to_string`).
pub mod Same
pub mod Clusters
pub mod Reach
pub mod Growth
pub mod Closure
pub mod Complete
mod Tests
use hashdex.Base.{
  ℕ, zero, suc, ◌+◌, ◌≤◌, Bool, true, false, not, ◌&&◌, ◌||◌, Option, none, some, List, [], ◌∷◌,
  ◌++◌, length, leb, ◌==◌, if◌then◌else◌,
}
use hashdex.Base.Outcome.{Result, ok, err}
use hashdex.Base.Text.{Text, text_eq}
use hashdex.Coord.{
  Scheme, md5, sha1, sha256, sha512, sha1_git, blake2s256, Coord, Error, Decoders, parse,
}

pub record Claim : Type 0 where
  pub statement : Text
  pub url : Option Text

pub record Archive : Type 0 where
  pub scheme : Text
  pub digest : Text
  pub path : Text
  pub name : Text
  pub url : Option Text

pub record Finding : Type 0 where
  pub backend : Text
  pub claims : List Claim
  pub coords : List Text
  pub archive : Option Archive

pub record Evidence : Type 0 where
  pub found_at : Coord
  pub finding : Finding

abbrev pub max_hops : ℕ
max_hops = 5

abbrev pub max_evidence : ℕ
max_evidence = 1000

abbrev pub is_identity_grade : Scheme → Bool
is_identity_grade sha256 = true
is_identity_grade sha512 = true
is_identity_grade blake2s256 = true
is_identity_grade md5 = false
is_identity_grade sha1 = false
is_identity_grade sha1_git = false

-- The derived equality of schemes and of coordinates.
abbrev pub tag : Scheme → ℕ
tag md5 = 0
tag sha1 = 1
tag sha256 = 2
tag sha512 = 3
tag sha1_git = 4
tag blake2s256 = 5

abbrev pub same_scheme : Scheme → Scheme → Bool
same_scheme a b = tag a == tag b

abbrev pub same_coord : Coord → Coord → Bool
same_coord a b = same_scheme a.scheme b.scheme && text_eq a.digest b.digest

abbrev pub has_coord : List Coord → Coord → Bool
has_coord [] c = false
has_coord (x ∷ xs) c = same_coord x c || has_coord xs c

abbrev pub has_text : List Text → Text → Bool
has_text [] t = false
has_text (x ∷ xs) t = text_eq x t || has_text xs t

-- The texts that are coordinates.
abbrev keep_ok : Result Error Coord → List Coord → List Coord
keep_ok (ok c) cs = c ∷ cs
keep_ok (err e) cs = cs

abbrev pub parsed : Decoders → List Text → List Coord
parsed d [] = []
parsed d (t ∷ ts) = keep_ok (parse d t) (parsed d ts)

-- What the walk asks: `local`, the findings of the store where there is one, and the JSON text of a
-- finding.
pub record Sources : Type 0 where
  pub local : Coord → List Finding
  pub cache : Option (Coord → List Finding)
  pub json : Finding → Text

abbrev findings_for : Option (Coord → List Finding) → Coord → List Finding
findings_for none c = []
findings_for (some f) c = f c

abbrev pub witnessed_at : Sources → Coord → List Finding
witnessed_at src c = src.local c ++ findings_for src.cache c

pub record Walking : Type 0 where
  pub evidence : List Evidence
  pub seen_findings : List Text
  pub visited : List Coord
  pub next : List Coord

-- The coordinates of a finding that were not visited.
abbrev pub unvisited : List Coord → List Coord → List Coord
unvisited visited [] = []
unvisited visited (c ∷ cs) =
    let rest = unvisited visited cs in if not (has_coord visited c) then c ∷ rest else rest

unfoldable pub take_finding : Decoders → Sources → Coord → Finding → Walking → Walking
take_finding d src at f s = record {
  evidence = s.evidence ++ ((record { found_at = at; finding = f }) ∷ []);
  seen_findings = src.json f ∷ s.seen_findings;
  visited = s.visited;
  next = s.next ++ unvisited s.visited (parsed d f.coords);
}

-- The findings of one coordinate, until the evidence is at its cap.
unfoldable pub take_all : Decoders → Sources → Coord → List Finding → Walking → Walking
unfolding take_finding
take_all d src at [] s = s
take_all d src at (f ∷ fs) s =
    let seen = has_text s.seen_findings (src.json f) in
    let s' = if seen then s else take_finding d src at f s in
    let rest = take_all d src at fs s' in
    if not seen && leb max_evidence (length s'.evidence) then s' else rest

unfoldable pub visit : Decoders → Sources → Coord → Walking → Walking
unfolding take_all
visit d src c s =
    if has_coord s.visited c
    then s
    else take_all d src c (witnessed_at src c) (record {
      evidence = s.evidence;
      seen_findings = s.seen_findings;
      visited = c ∷ s.visited;
      next = s.next;
    })

unfoldable pub visit_all : Decoders → Sources → List Coord → Walking → Walking
unfolding visit
visit_all d src [] s = s
visit_all d src (c ∷ cs) s = visit_all d src cs (visit d src c s)

abbrev pub is_empty : List Coord → Bool
is_empty [] = true
is_empty (c ∷ cs) = false

-- The state at the start of a hop.
abbrev pub hop : Walking → Walking
hop s = record {
  evidence = s.evidence;
  seen_findings = s.seen_findings;
  visited = s.visited;
  next = [];
}

unfoldable pub hops : Decoders → Sources → ℕ → List Coord → Walking → Walking
unfolding visit_all
hops d src zero frontier s = s
hops d src (suc n) frontier s =
    let s' = visit_all d src frontier (hop s) in
    let rest = hops d src n s'.next s' in
    if is_empty frontier || leb max_evidence (length s.evidence) then s else rest

abbrev pub start : Walking
start = record { evidence = []; seen_findings = []; visited = []; next = [] }

unfoldable pub walk : Decoders → List Coord → Sources → List Evidence
unfolding hops
walk d seeds src = (hops d src max_hops seeds start).evidence
