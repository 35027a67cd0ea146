-- ===== src/Cache/Tests.antt =====
-- A store of two answers, and the theorems at it.
use hashdex.Base.{◌≡◌, refl, none, some, [], ◌∷◌, replicate, if◌then◌else◌, arith}
use mathlib.Core.List.{Memᴰ}
use hashdex.Base.Text.{codes, text_eq}
use hashdex.Coord.{Coord, Decoders, sha1, sha256, digest_len, display}
use hashdex.Coord.Display.{IsCoord, parse-display}
use hashdex.Walk.{Finding, parsed}
use hashdex.Cache.{Json, Store, miss, absent, get, put, findings_for}
use hashdex.Cache.Verdicts.{Answer, put_all, remembered, get-put_all}
use hashdex.Cache.Reaching.{findings_for-put_all}

abbrev decoders : Decoders
decoders = record { base64 = λ t. none; base32 = λ t. none }

abbrev asked : Coord
asked = record { scheme = sha1; digest = replicate 20 1 }

abbrev co_named : Coord
co_named = record { scheme = sha256; digest = replicate 32 2 }

abbrev a_finding : Finding
a_finding = record {
  backend = codes "circl";
  claims = [];
  coords = display co_named ∷ [];
  archive = none;
}

abbrev json : Json
json = record {
  to_string = λ fs. some (codes "[1]");
  many = λ t. if text_eq t (codes "[1]") then some (a_finding ∷ []) else none;
  one = λ t. none;
}

abbrev nothing_stored : Store
nothing_stored = record { observations = []; coords = [] }

abbrev of_swh : Answer
of_swh = record { source = codes "swh"; asked = asked; findings = []; when = 50 }

fresh_miss : remembered [] none 259200 ≡ miss
unfolding remembered
fresh_miss = refl

stale_miss : remembered [] none 259201 ≡ absent
unfolding remembered
stale_miss = refl

co_named-IsCoord : IsCoord co_named
unfolding digest_len
co_named-IsCoord = record { bytes = omega arith; right_length = refl }

get-put_all_example :
    get 1000000 (codes "circl") asked (
      put_all decoders json
        (of_swh ∷ [])
        (put decoders json 40 (codes "circl") asked (a_finding ∷ []) nothing_stored))
    ≡ remembered (a_finding ∷ []) (some (codes "[1]")) 999960
get-put_all_example =
    get-put_all decoders json 40 1000000 (codes "circl") asked (a_finding ∷ []) (of_swh ∷ [])
      nothing_stored (refl, tt)

co_named-parsed : Memᴰ co_named (parsed decoders (display co_named ∷ display asked ∷ []))
co_named-parsed = rw (parse-display decoders co_named co_named-IsCoord) (Memᴰ.head refl)

findings_for-put_all_example : Memᴰ a_finding (
    findings_for json co_named (
      put_all decoders json
        (of_swh ∷ [])
        (put decoders json 40 (codes "circl") asked (a_finding ∷ []) nothing_stored)))
findings_for-put_all_example =
    findings_for-put_all decoders json 40 (codes "circl") asked co_named a_finding (a_finding ∷ [])
      (codes "[1]") (of_swh ∷ []) nothing_stored (Memᴰ.head refl) co_named-parsed refl refl
      (refl, tt)
