-- ===== src/Walk/Clusters.antt =====
-- src/walk.rs: `cluster` welds the findings that share an identity-grade coordinate, by union-find
-- over their indices.
--
-- `find` recurses on fuel; one more than the number of coordinates met is enough, since a tree grows
-- by one level at most with each of them. The order in which the map of groups is traversed is a
-- parameter.
pub mod Forest
pub mod Join
pub mod Weld
pub mod Groups
pub mod Classes
pub mod Coords
mod Tests
use hashdex.Base.{
  ℕ, zero, suc, ◌+◌, Bool, true, false, not, ◌&&◌, ◌||◌, Option, none, some, List, [], ◌∷◌, ◌++◌,
  map, length, get_or, get_elem?, set, ltb, leb, ◌==◌, if◌then◌else◌,
}
use hashdex.Base.Sorting.{insert_by, sort_by, dedup_by, lex_leb}
use hashdex.Base.Outcome.{Result, ok, err, ◌>>=◌}
use hashdex.Base.Text.{Text, text_eq}
use hashdex.Coord.{Coord, Decoders, as_str, display}
use hashdex.Walk.{
  Finding, Evidence, max_evidence, is_identity_grade, same_scheme, same_coord, has_coord, parsed,
}

pub data OutOfFuel : Type 0 where
  out_of_fuel : OutOfFuel

abbrev pub Fueled : Type 0 → Type 0
Fueled A = Result OutOfFuel A

-- By the name of the scheme and then by the digest.
coord_leb : Coord → Coord → Bool
unfolding lex_leb
coord_leb a b =
    if text_eq (as_str a.scheme) (as_str b.scheme)
    then lex_leb a.digest b.digest
    else lex_leb (as_str a.scheme) (as_str b.scheme)

abbrev contradicts : Coord → List Coord → Bool
contradicts at [] = false
contradicts at (c ∷ cs) =
    (same_scheme c.scheme at.scheme && not (same_coord c at)) || contradicts at cs

-- The coordinates of a finding, and the one that it was reached through where none of the same
-- scheme contradicts it.
unfoldable pub coords_of : Decoders → Evidence → List Coord
unfolding sort_by insert_by coord_leb lex_leb dedup_by
coords_of d e =
    let v = parsed d e.finding.coords in
    dedup_by same_coord
      (sort_by coord_leb (if contradicts e.found_at v then v else v ++ (e.found_at ∷ [])))

-- `parent[i]`
abbrev pub parent_at : List ℕ → ℕ → ℕ
parent_at parent i = get_or parent i i

unfoldable pub compress : ℕ → List ℕ × ℕ → Fueled (List ℕ × ℕ)
compress i (parent, root) = let q = set parent i root in ok (q, parent_at q i)

unfoldable pub find : ℕ → List ℕ → ℕ → Fueled (List ℕ × ℕ)
unfolding compress
find zero parent i = err out_of_fuel
find (suc n) parent i =
    let above = find n parent (parent_at parent i) in
    if not (parent_at parent i == i) then above >>= compress i else ok (parent, parent_at parent i)

abbrev pub link_roots : ℕ → List ℕ × ℕ → List ℕ
link_roots ra (parent, rb) = if not (ra == rb) then set parent ra rb else parent

unfoldable pub union : ℕ → List ℕ → ℕ → ℕ → Fueled (List ℕ)
unfolding find
union n parent a b = find n parent a >>= λ p. find n p.0 b >>= λ q. ok (link_roots p.1 q)

pub record Welds : Type 0 where
  pub parent : List ℕ
  pub anchor : List (Coord × ℕ)

abbrev pub anchor_of : List (Coord × ℕ) → Coord → Option ℕ
anchor_of [] c = none
anchor_of ((k, i) ∷ rest) c = if same_coord k c then some i else anchor_of rest c

abbrev pub weld_to : ℕ → ℕ → Coord → Welds → Option ℕ → Fueled Welds
weld_to n i c s (some j) =
    union n s.parent i j >>= λ p. ok (record { parent = p; anchor = s.anchor })
weld_to n i c s none = ok (record { parent = s.parent; anchor = (c, i) ∷ s.anchor })

-- One turn of the loops over the evidence and over the coordinates of each.
unfoldable pub weld_one : ℕ → ℕ × Coord → Welds → Fueled Welds
weld_one n (i, c) s =
    if is_identity_grade c.scheme then weld_to n i c s (anchor_of s.anchor c) else ok s

unfoldable pub weld_all : ℕ → List (ℕ × Coord) → Welds → Fueled Welds
unfolding weld_one
weld_all n [] s = ok s
weld_all n (w ∷ ws) s = weld_one n w s >>= weld_all n ws

-- The coordinates that the loops meet, each with the index of its evidence.
unfoldable pub witnessed : Decoders → ℕ → List Evidence → List (ℕ × Coord)
witnessed d i [] = []
witnessed d i (e ∷ es) = map (λ c. (i, c)) (coords_of d e) ++ witnessed d (suc i) es

abbrev pub indices : ℕ → ℕ → List ℕ
indices i zero = []
indices i (suc n) = i ∷ indices (suc i) n

-- `groups.entry(root).or_default().push(i)`
abbrev pub push_group : List (ℕ × List ℕ) → ℕ → ℕ → List (ℕ × List ℕ)
push_group [] root i = (root, i ∷ []) ∷ []
push_group ((r, ms) ∷ gs) root i =
    if r == root then (r, ms ++ (i ∷ [])) ∷ gs else (r, ms) ∷ push_group gs root i

unfoldable pub group_all : ℕ → List ℕ → List ℕ → List (ℕ × List ℕ) → Fueled (List (ℕ × List ℕ))
group_all n parent [] gs = ok gs
group_all n parent (i ∷ is) gs = find n parent i >>= λ p. group_all n p.0 is (push_group gs p.1 i)

unfoldable pub groups_of : Decoders → List Evidence → Fueled (List (ℕ × List ℕ))
unfolding weld_all group_all
groups_of d es =
    let ws = witnessed d 0 es in
    let n = suc (length ws) in
    let start : Welds = record { parent = indices 0 (length es); anchor = [] } in
    weld_all n ws start >>= λ s. group_all n s.parent (indices 0 (length es)) []

pub record Cluster : Type 0 where
  pub findings : List Finding
  pub coords : List Coord
  pub anchored : Bool
  pub primary : Bool

pub record WalkResult : Type 0 where
  pub clusters : List Cluster
  pub truncated : Bool
  pub collision : Bool

abbrev any_anchored : List Coord → Bool
any_anchored [] = false
any_anchored (c ∷ cs) = is_identity_grade c.scheme || any_anchored cs

-- Something of each of the members; every index is one of an evidence.
abbrev of_members {ℓ} : {A : Type ℓ} → (Evidence → List A) → List Evidence → List ℕ → List A
of_members f es [] = []
of_members f es (i ∷ is) = elim (get_elem? es i) [
  | some e ↦ f e ++ of_members f es is
  | none ↦ of_members f es is
]

cluster_of : Decoders → List Evidence → Coord → ℕ × List ℕ → Cluster
unfolding sort_by insert_by coord_leb lex_leb dedup_by
cluster_of d es queried (root, members) =
    let coords = dedup_by same_coord (sort_by coord_leb (of_members (coords_of d) es members)) in
    record {
      findings = of_members (λ e. e.finding ∷ []) es (sort_by leb members);
      coords = coords;
      anchored = any_anchored coords;
      primary = has_coord coords queried;
    }

abbrev first_leb : List Coord → List Coord → Bool
first_leb [] ds = true
first_leb (c ∷ cs) [] = false
first_leb (c ∷ cs) (e ∷ es) = lex_leb (display c) (display e)

abbrev differ : Bool → Bool → Bool
differ a b = if a then not b else b

-- Primary before related, anchored before floating, then the largest, then by the first coordinate.
cluster_leb : Cluster → Cluster → Bool
unfolding lex_leb
cluster_leb a b =
    if differ a.primary b.primary
    then a.primary
    else if differ a.anchored b.anchored
    then a.anchored
    else if not (length a.findings == length b.findings)
    then ltb (length b.findings) (length a.findings)
    else first_leb a.coords b.coords

abbrev claiming : List Cluster → ℕ
claiming [] = 0
claiming (c ∷ cs) = if c.anchored && c.primary then suc (claiming cs) else claiming cs

pub cluster :
    Decoders → (List (ℕ × List ℕ) → List (ℕ × List ℕ)) → List Evidence → Coord → Fueled WalkResult
unfolding groups_of cluster_of cluster_leb sort_by
cluster d order es queried = groups_of d es >>= λ gs.
    let clusters = sort_by cluster_leb (map (cluster_of d es queried) (order gs)) in
    ok (record {
      clusters = clusters;
      truncated = leb max_evidence (length es);
      collision = not (is_identity_grade queried.scheme) && leb 2 (claiming clusters);
    })
