-- ===== src/Cache.antt =====
-- src/cache.rs: the local store of what the sources said about a coordinate.
--
-- The two tables are lists of rows. A statement of the source is what it says of them: `INSERT OR
-- REPLACE` and `INSERT OR IGNORE` under the primary keys, the row of a key, and the join. None is
-- refused. `serde_json` is the parameter `Json`, and the time of a call an argument.

pub mod Rows
pub mod Verdicts
pub mod Reaching
mod Tests
use hashdex.Base.{
  ℕ, zero, suc, ◌+◌, ◌-◌, ◌*◌, Bool, true, false, not, ◌&&◌, ◌||◌, Option, none, some, List, [],
  ◌∷◌, ◌++◌, ltb, ◌==◌, if◌then◌else◌,
}
use hashdex.Base.Bytes.{Bytes}
use hashdex.Base.Text.{Text, text_eq}
use hashdex.Coord.{Coord, Decoders, as_str, display}
use hashdex.Walk.{Finding, parsed, has_text}

-- `serde_json::to_string` of the findings, and `from_str` for a list of them and for one.
pub record Json : Type 0 where
  pub to_string : List Finding → Option Text
  pub many : Text → Option (List Finding)
  pub one : Text → Option Finding

-- A row of `observations`, and one of `observation_coords`.
pub record Observation : Type 0 where
  pub backend : Text
  pub coordinate : Text
  pub hit : ℕ
  pub finding : Option Text
  pub fetched_at : ℕ

pub record CoordRow : Type 0 where
  pub scheme : Text
  pub digest : Bytes
  pub backend : Text
  pub coordinate : Text

pub record Store : Type 0 where
  pub observations : List Observation
  pub coords : List CoordRow

pub data Cached : Type 0 where
  hit miss absent : Cached

abbrev pub miss_ttl_secs : ℕ
miss_ttl_secs = 3 * 24 * 3600

abbrev pub has_key : Text → Text → Observation → Bool
has_key b k o = text_eq o.backend b && text_eq o.coordinate k

-- `INSERT OR REPLACE`
unfoldable pub replace_row : Observation → List Observation → List Observation
replace_row r [] = r ∷ []
replace_row r (o ∷ os) =
    let rest = replace_row r os in if has_key r.backend r.coordinate o then r ∷ os else o ∷ rest

-- The row of a primary key.
unfoldable pub row_at : Text → Text → List Observation → Option Observation
row_at b k [] = none
row_at b k (o ∷ os) = let rest = row_at b k os in if has_key b k o then some o else rest

abbrev pub same_row : CoordRow → CoordRow → Bool
same_row x y =
    text_eq x.scheme y.scheme
    && text_eq x.digest y.digest
    && text_eq x.backend y.backend
    && text_eq x.coordinate y.coordinate

-- `INSERT OR IGNORE`
unfoldable pub ignore_row : CoordRow → List CoordRow → List CoordRow
ignore_row r [] = r ∷ []
ignore_row r (x ∷ xs) = let rest = ignore_row r xs in if same_row x r then x ∷ xs else x ∷ rest

abbrev pub coord_row : Text → Text → Coord → CoordRow
coord_row b k c = record {
  scheme = as_str c.scheme;
  digest = c.digest;
  backend = b;
  coordinate = k;
}

unfoldable pub ignore_all : Text → Text → List Coord → List CoordRow → List CoordRow
unfolding ignore_row
ignore_all b k [] rows = rows
ignore_all b k (c ∷ cs) rows = ignore_all b k cs (ignore_row (coord_row b k c) rows)

-- The coordinates of a finding, with the queried one at the end.
abbrev pub index_coords : Decoders → Text → Text → Finding → List CoordRow → List CoordRow
index_coords d b k f rows = ignore_all b k (parsed d (f.coords ++ k ∷ [])) rows

unfoldable pub index_all : Decoders → Text → Text → List Finding → List CoordRow → List CoordRow
unfolding ignore_all
index_all d b k [] rows = rows
index_all d b k (f ∷ fs) rows = index_all d b k fs (index_coords d b k f rows)

abbrev pub stored_json : Json → List Finding → Option Text
stored_json j [] = none
stored_json j (f ∷ fs) = j.to_string (f ∷ fs)

abbrev pub is_hit : List Finding → ℕ
is_hit [] = 0
is_hit (f ∷ fs) = 1

abbrev pub observed : Json → Text → Coord → List Finding → ℕ → Observation
observed j b c fs now = record {
  backend = b;
  coordinate = display c;
  hit = is_hit fs;
  finding = stored_json j fs;
  fetched_at = now;
}

-- The rows that the migration of `backfill_coords` reads, and whether it runs: where there are no
-- coordinates yet, and a hit.
abbrev pub is_stored_hit : Observation → Bool
is_stored_hit o = o.hit == 1

unfoldable pub any_hit : List Observation → Bool
any_hit [] = false
any_hit (o ∷ os) = is_stored_hit o || any_hit os

abbrev pub no_rows : List CoordRow → Bool
no_rows [] = true
no_rows (x ∷ xs) = false

unfoldable pub put : Decoders → Json → ℕ → Text → Coord → List Finding → Store → Store
unfolding replace_row index_all
put d j now b c fs s = record {
  observations = replace_row (observed j b c fs now) s.observations;
  coords = index_all d b (display c) fs s.coords;
}

abbrev pub hit_verdict : Option Text → Cached
hit_verdict none = absent
hit_verdict (some t) = hit

-- `saturating_sub` is the subtraction of ℕ.
abbrev pub verdict : ℕ → Option Observation → Cached
verdict now none = absent
verdict now (some o) =
    if not (o.hit == 0)
    then hit_verdict o.finding
    else if ltb miss_ttl_secs (now - o.fetched_at)
    then absent
    else miss

unfoldable pub get : ℕ → Text → Coord → Store → Cached
unfolding row_at
get now b c s = verdict now (row_at b (display c) s.observations)

-- The join, for one row of `observation_coords`, and for those of a coordinate.
abbrev pub with_text : Option Text → List Text → List Text
with_text none ts = ts
with_text (some t) ts = t ∷ ts

unfoldable pub texts_at : Text → Text → List Observation → List Text
texts_at b k [] = []
texts_at b k (o ∷ os) =
    let rest = texts_at b k os in
    if has_key b k o && o.hit == 1 then with_text o.finding rest else rest

abbrev pub of_coord : Coord → CoordRow → Bool
of_coord c x = text_eq x.scheme (as_str c.scheme) && text_eq x.digest c.digest

unfoldable pub texts_for : Coord → List CoordRow → List Observation → List Text
unfolding texts_at
texts_for c [] os = []
texts_for c (x ∷ xs) os =
    let rest = texts_for c xs os in
    if of_coord c x then texts_at x.backend x.coordinate os ++ rest else rest

-- `SELECT DISTINCT`
unfoldable pub distinct : List Text → List Text
distinct [] = []
distinct (t ∷ ts) = let rest = distinct ts in if has_text rest t then rest else t ∷ rest

abbrev pub or_one : Option (List Finding) → Option Finding → List Finding
or_one (some fs) o = fs
or_one none (some f) = f ∷ []
or_one none none = []

abbrev pub parse_findings : Json → Text → List Finding
parse_findings j t = or_one (j.many t) (j.one t)

unfoldable pub parse_all : Json → List Text → List Finding
parse_all j [] = []
parse_all j (t ∷ ts) = parse_findings j t ++ parse_all j ts

unfoldable pub findings_for : Json → Coord → Store → List Finding
unfolding texts_for distinct parse_all
findings_for j c s = parse_all j (distinct (texts_for c s.coords s.observations))

abbrev backfill_row : Decoders → Json → Observation → List CoordRow → List CoordRow
backfill_row d j o rows = elim o.finding [
  | none ↦ rows
  | some t ↦ index_all d o.backend o.coordinate (parse_findings j t) rows
]

unfoldable pub backfill_all : Decoders → Json → List Observation → List CoordRow → List CoordRow
unfolding index_all
backfill_all d j [] rows = rows
backfill_all d j (o ∷ os) rows =
    backfill_all d j os (if is_stored_hit o then backfill_row d j o rows else rows)

unfoldable pub backfill_coords : Decoders → Json → Store → Store
unfolding any_hit backfill_all
backfill_coords d j s =
    if no_rows s.coords && any_hit s.observations
    then record { observations = s.observations; coords = backfill_all d j s.observations s.coords }
    else s
