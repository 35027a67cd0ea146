-- ===== src/Recipe.antt =====
-- src/recipe_cmd.rs: the segments of a build, the intervals that they take, and how freshly planned
-- segments are merged into a build and its gaps tiled again.
--
-- A `BTreeMap<u64, u64>` is the list of its entries in the order of the keys; `sort_by_key` is a
-- stable insertion sort. A panic is `none`.
pub mod Admission
pub mod Tiling
pub mod Merging
pub mod Splicing
pub mod Covers
pub mod Ranges
pub mod Rotated
mod Tests
use hashdex.Base.{
  ℕ, zero, suc, ◌+◌, ◌-◌, min, max, Bool, true, false, not, ◌&&◌, Option, none, some, List, [], ◌∷◌,
  ◌++◌, map, leb, ltb, ◌==◌, if◌then◌else◌,
}
use hashdex.Base.Bytes.{Bytes}
use mathlib.Core.Option

pub data Seg : Type 0 where
  -- member, offset in it, length, place in the build, offset in the root file
  child tabled : (idx from len at root_off : ℕ) → Seg
  pcluster : (pc at len root_off : ℕ) → Seg
  gap : (at len : ℕ) → (residue_off : Option ℕ) → (inline : Option Bytes) → Seg

abbrev pub seg_at : Seg → ℕ
seg_at (child idx from len at root_off) = at
seg_at (tabled idx from len at root_off) = at
seg_at (pcluster pc at len root_off) = at
seg_at (gap at len residue_off inline) = at

abbrev pub seg_len : Seg → ℕ
seg_len (child idx from len at root_off) = len
seg_len (tabled idx from len at root_off) = len
seg_len (pcluster pc at len root_off) = len
seg_len (gap at len residue_off inline) = len

abbrev pub is_gap : Seg → Bool
is_gap (gap at len residue_off inline) = true
is_gap s = false

-- (start, end), the starts ascending
abbrev pub Intervals : Type 0
Intervals = List (ℕ × ℕ)

-- The end of the last interval that starts at or before `at`: `range(..=at).next_back()`.
abbrev pub some_or : Option ℕ → ℕ → Option ℕ
some_or (some x) d = some x
some_or none d = some d

unfoldable pub last_end : Intervals → ℕ → Option ℕ
last_end [] at = none
last_end ((s, e) ∷ rest) at = if leb s at then some_or (last_end rest at) e else none

-- Whether an interval starts in `[at, end)`.
unfoldable pub starts_in : Intervals → ℕ → ℕ → Bool
starts_in [] at end_ = false
starts_in ((s, e) ∷ rest) at end_ = if leb at s && ltb s end_ then true else starts_in rest at end_

unfoldable pub free_at : Option ℕ → ℕ → Bool
free_at none at = true
free_at (some pe) at = not (ltb at pe)

unfoldable pub admits : Intervals → ℕ → ℕ → Bool
admits i at len = free_at (last_end i at) at && not (starts_in i at (at + len))

-- `BTreeMap::insert`: an entry of the same key is replaced.
unfoldable pub put : Intervals → ℕ → ℕ → Intervals
put [] at end_ = (at, end_) ∷ []
put ((s, e) ∷ rest) at end_ =
    if ltb at s
    then (at, end_) ∷ (s, e) ∷ rest
    else if s == at
    then (at, end_) ∷ rest
    else (s, e) ∷ put rest at end_

abbrev pub insert : Intervals → ℕ → ℕ → Intervals
insert i at len = put i at (at + len)

-- The gap in front of a segment.
unfoldable pub gap_to : ℕ → ℕ → List Seg
gap_to pos at = if ltb pos at then gap pos (at - pos) none none ∷ [] else []

-- The loop of `tile_gaps`; `none` is the assertion that fails.
unfoldable pub tile_from : ℕ → List Seg → ℕ → Option (List Seg)
tile_from pos [] size = some (gap_to pos size)
tile_from pos (s ∷ segs) size =
    let rest = tile_from (seg_at s + seg_len s) segs size in
    if leb pos (seg_at s)
    then Option.map (λ tiled. gap_to pos (seg_at s) ++ s ∷ tiled) rest
    else none

unfoldable pub tile_gaps : List Seg → ℕ → Option (List Seg)
tile_gaps segs size = tile_from 0 segs size

-- The runs of a build: logical start, offset in the root file, length.
abbrev pub Runs : Type 0
Runs = List (ℕ × ℕ × ℕ)

unfoldable pub runs_size : Runs → ℕ
runs_size [] = 0
runs_size ((log, off, len) ∷ runs) = len + runs_size runs

-- The fields of `Build` that a merge reads and writes.
pub record Build : Type 0 where
  pub segs : List Seg
  pub runs : Runs

-- The run that holds the range whole: its logical start and its offset.
unfoldable pub run_of : Runs → ℕ → ℕ → Option (ℕ × ℕ)
run_of [] at len = none
run_of ((log, off, l) ∷ runs) at len =
    if leb log at && leb (at + len) (log + l) then some (log, off) else run_of runs at len

-- A segment that arrives at an offset of the image, with its place in the build and in the root.
unfoldable pub relocated : Runs → Seg → Option Seg
relocated runs (tabled idx from len at root_off) =
    Option.map (λ r. tabled idx from len root_off (r.1 + (root_off - r.0)))
      (run_of runs root_off len)
relocated runs (pcluster pc at len root_off) =
    Option.map (λ r. pcluster pc root_off len (r.1 + (root_off - r.0))) (run_of runs root_off len)
relocated runs (child idx from len at root_off) = none
relocated runs (gap at len residue_off inline) = none

-- The state of the merge: the segments accepted, and what they take.
abbrev pub Merge : Type 0
Merge = List Seg × Intervals

unfoldable pub accept : Merge → Option Seg → Merge
accept (segs, taken) none = (segs, taken)
accept (segs, taken) (some s) =
    if admits taken (seg_at s) (seg_len s)
    then (segs ++ s ∷ [], insert taken (seg_at s) (seg_len s))
    else (segs, taken)

unfoldable pub accept_all : Runs → Merge → List Seg → Merge
accept_all runs m [] = m
accept_all runs m (s ∷ extra) = accept_all runs (accept m (relocated runs s)) extra

unfoldable pub without_gaps : List Seg → List Seg
without_gaps [] = []
without_gaps (s ∷ segs) = if is_gap s then without_gaps segs else s ∷ without_gaps segs

-- The intervals of segments, inserted in their order.
unfoldable pub taken_by : Intervals → List Seg → Intervals
taken_by i [] = i
taken_by i (s ∷ segs) = taken_by (insert i (seg_at s) (seg_len s)) segs

-- A stable sort by `at`.
unfoldable pub place : Seg → List Seg → List Seg
place s [] = s ∷ []
place s (x ∷ xs) = if leb (seg_at x) (seg_at s) then x ∷ place s xs else s ∷ x ∷ xs

unfoldable pub sort_onto : List Seg → List Seg → List Seg
sort_onto sorted [] = sorted
sort_onto sorted (s ∷ segs) = sort_onto (place s sorted) segs

unfoldable pub splice_build : Build → List Seg → Option Build
splice_build b extra =
    let kept = without_gaps b.segs in
    let merged = accept_all b.runs (kept, taken_by [] kept) extra in
    Option.map (λ tiled. record { segs = tiled; runs = b.runs })
      (tile_gaps (sort_onto [] merged.0) (runs_size b.runs))
