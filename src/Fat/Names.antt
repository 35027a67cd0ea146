-- ===== src/Fat/Names.antt =====
-- src/fat.rs: the long and the short names of directory entries.
--
-- Decoding of UTF-8 with replacement characters and lower-casing, which stand on Unicode's tables,
-- are parameters.
use hashdex.Base.{
  ℕ, zero, suc, ◌+◌, ◌-◌, ◌*◌, ◌/◌, ◌%◌, Bool, ◌||◌, Option, none, some, List, [], ◌∷◌, ◌++◌, take,
  drop, get_or, leb, ◌==◌, if◌then◌else◌,
}
use mathlib.Core.List.{reverse}
use hashdex.Base.Bytes.{Bytes}
use hashdex.Base.Text.{Text, trim_start, within}
use hashdex.Fat.{le16}

pub record Strings : Type 0 where
  pub from_utf8_lossy : Bytes → Text
  pub to_lowercase : Text → Text

-- The 13 code units of a long-name entry.
units_at : ℕ → ℕ → Bytes → List ℕ
units_at zero at e = []
units_at (suc n) at e = le16 e at ∷ units_at n (at + 2) e

unfoldable pub name_units : Bytes → List ℕ
unfolding units_at
name_units e = units_at 5 1 e ++ units_at 6 14 e ++ units_at 2 28 e

-- A fragment of a long name: its order, and its units.
abbrev pub Fragment : Type 0
Fragment = ℕ × List ℕ

-- A stable sort by the order.
place : Fragment → List Fragment → List Fragment
place f [] = f ∷ []
place f (g ∷ gs) = if leb g.0 f.0 then g ∷ place f gs else f ∷ g ∷ gs

sort_onto : List Fragment → List Fragment → List Fragment
sort_onto sorted [] = sorted
sort_onto sorted (f ∷ fs) = sort_onto (place f sorted) fs

-- The units of a fragment before its end.
before_end : List ℕ → List ℕ
before_end [] = []
before_end (u ∷ us) = if u == 0 || u == 0xFFFF then [] else u ∷ before_end us

all_units : List Fragment → List ℕ
all_units [] = []
all_units (f ∷ fs) = before_end f.1 ++ all_units fs

-- `String::from_utf16_lossy`: a surrogate without its other half becomes U+FFFD.
paired : ℕ → ℕ → ℕ
paired high low = 0x10000 + (high - 0xD800) * 0x400 + (low - 0xDC00)

-- With the high surrogate that is pending.
from_utf16 : Option ℕ → List ℕ → Text
from_utf16 none [] = []
from_utf16 (some high) [] = 0xFFFD ∷ []
from_utf16 none (u ∷ us) =
    let pending = from_utf16 (some u) us in
    let rest = from_utf16 none us in
    if within 0xD800 0xDBFF u
    then pending
    else if within 0xDC00 0xDFFF u
    then 0xFFFD ∷ rest
    else u ∷ rest
from_utf16 (some high) (u ∷ us) =
    let pending = from_utf16 (some u) us in
    let rest = from_utf16 none us in
    if within 0xDC00 0xDFFF u
    then paired high u ∷ rest
    else if within 0xD800 0xDBFF u
    then 0xFFFD ∷ pending
    else 0xFFFD ∷ u ∷ rest

unfoldable pub from_utf16_lossy : List ℕ → Text
unfolding from_utf16 paired
from_utf16_lossy us = from_utf16 none us

nonempty : Text → Option Text
nonempty [] = none
nonempty (c ∷ cs) = some (c ∷ cs)

unfoldable pub long_name : List Fragment → Option Text
unfolding place sort_onto before_end all_units nonempty
long_name [] = none
long_name (f ∷ fs) = nonempty (from_utf16_lossy (all_units (sort_onto [] (f ∷ fs))))

trim_end : Text → Text
trim_end s = reverse (trim_start (reverse s))

-- 0x05 escapes a leading 0xE5; the base starts with that character then.
escaped : ℕ → Text → Text
escaped first [] = []
escaped first (c ∷ cs) = if first == 0x05 then 0xE5 ∷ cs else c ∷ cs

-- Bit `k` of a byte, for the case flags and the attributes.
abbrev pub flag : ℕ → ℕ → Bool
flag mask b = b / mask % 2 == 1

dotted : Text → Text → Text
dotted base [] = base
dotted base (c ∷ cs) = base ++ b'.' ∷ c ∷ cs

unfoldable pub short_name : Strings → Bytes → Text
unfolding trim_end escaped dotted
short_name s e =
    let raw = escaped (get_or e 0 0) (trim_end (s.from_utf8_lossy (take 8 e))) in
    let raw_ext = trim_end (s.from_utf8_lossy (take 3 (drop 8 e))) in
    let base = if flag 0x08 (get_or e 12 0) then s.to_lowercase raw else raw in
    let ext = if flag 0x10 (get_or e 12 0) then s.to_lowercase raw_ext else raw_ext in
    dotted base ext
