-- ===== src/Microcode/Tests.antt =====
-- Runs of src/microcode.rs on a small blob, and its theorems there.
use hashdex.Base.{◌≡◌, refl, ◌↔◌, some, List, [], ◌∷◌, ◌++◌}
use hashdex.Base.Bytes.{Bytes}
use hashdex.Microcode.{
  amd, Entry, split, split_as, split_loop, found, entry, amd_container, amd_loop, section_end,
}
use hashdex.Microcode.Tiling.{Splits, split_as_iff}

-- A container of one section of four bytes, twice.
abbrev container : Bytes
container = 68 ∷ 77 ∷ 65 ∷ 0 ∷ 0 ∷ 0 ∷ 0 ∷ 0 ∷ 4 ∷ 0 ∷ 0 ∷ 0 ∷ 9 ∷ 8 ∷ 7 ∷ 6 ∷ []

abbrev blob : Bytes
blob = container ++ container

abbrev halves : List Entry
halves = (0, 16) ∷ (16, 16) ∷ []

two_containers : split blob ≡ some (amd, halves)
unfolding split split_as split_loop found entry amd_container amd_loop section_end
two_containers = refl

split_as_iff_example : (split_as amd blob ≡ some (amd, halves)) ↔ Splits amd blob halves
split_as_iff_example = split_as_iff amd blob halves
