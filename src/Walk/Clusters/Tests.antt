-- ===== src/Walk/Clusters/Tests.antt =====
-- Runs of `cluster` of src/walk.rs, like those of the tests of that file, and the theorems at
-- concrete inputs.
use hashdex.Base.{ℕ, ◌≡◌, refl, none, List, [], ◌∷◌, arith, replicate, ◌↔◌}
use hashdex.Base.Outcome.{ok}
use hashdex.Base.Text.{Text, codes}
use hashdex.Coord.{Coord, Decoders, md5, sha256, display, digest_len}
use hashdex.Coord.Display.{parse-display}
use hashdex.Walk.{Evidence}
use hashdex.Walk.Clusters.{union, find, coords_of, witnessed, groups_of}
use hashdex.Walk.Clusters.Weld.{Connected}
use hashdex.Walk.Clusters.Groups.{Groups}
use hashdex.Walk.Clusters.Classes.{Together, groups_of-Connected}

abbrev decoders : Decoders
decoders = record { base64 = λ t. none; base32 = λ t. none }

abbrev strong : ℕ → Coord
strong b = record { scheme = sha256; digest = replicate 32 b }

abbrev weak : ℕ → Coord
weak b = record { scheme = md5; digest = replicate 16 b }

-- A finding that mentions no other coordinate than the one it was reached through.
abbrev reached : Coord → List Text → Evidence
reached c ts = record {
  found_at = c;
  finding = record { backend = codes "swh"; claims = []; coords = ts; archive = none };
}

-- Two findings under one strong digest, and one under a weak digest.
abbrev three : List Evidence
three = reached (strong 1) [] ∷ reached (weak 2) [] ∷ reached (strong 1) [] ∷ []

three_groups : groups_of decoders three ≡ ok ((0, 0 ∷ 2 ∷ []) ∷ (1, 1 ∷ []) ∷ [])
unfolding groups_of witnessed coords_of union find
three_groups = refl

-- A row that answers one strong digest with another does not carry the first.
abbrev lying : Evidence
lying = reached (strong 13) (display (strong 2) ∷ [])

contradicted_response : coords_of decoders lying ≡ strong 2 ∷ []
unfolding coords_of digest_len
contradicted_response =
    rw (parse-display decoders (strong 2) (record { bytes = omega arith; right_length = refl }))
      refl

groups_of-Connected_example :
    (gs : Groups) × (groups_of decoders three ≡ ok gs)
    × (Together gs 0 2 ↔ Connected (witnessed decoders 0 three) 0 2)
groups_of-Connected_example = groups_of-Connected decoders three 0 2 (omega arith) (omega arith)
