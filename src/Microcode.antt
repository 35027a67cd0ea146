-- ===== src/Microcode.antt =====
-- src/microcode.rs: the entries of a CPU microcode archive.
--
-- A blob is shorter than 2^63 bytes, so that no addition of an offset overflows a `usize`. Both
-- loops run on fuel, the length of the blob: each round moves on by one byte at least.
pub mod Tiling
pub mod Fuel
mod Tests
use hashdex.Base.{
  ℕ, zero, suc, ◌+◌, ◌-◌, ◌*◌, ◌/◌, ◌%◌, ◌^◌, Bool, true, false, not, ◌&&◌, ◌||◌, Option, none,
  some, List, [], ◌∷◌, length, take, drop, leb, ltb, ◌==◌, if◌then◌else◌,
}
use hashdex.Base.Bytes.{Bytes, from_le, slice}
use hashdex.Base.Text.{text_eq}

pub data Vendor : Type 0 where
  intel amd : Vendor

abbrev pub max_entries : ℕ
max_entries = 8192

abbrev max_intel_entry : ℕ
max_intel_entry = 32 * 2 ^ 20

-- "DMA\0"
abbrev pub amd_magic : Bytes
amd_magic = 68 ∷ 77 ∷ 65 ∷ 0 ∷ []

abbrev starts_with : Bytes → Bytes → Bool
starts_with b magic = text_eq (take (length magic) b) magic

abbrev u32_at : Bytes → ℕ → ℕ
u32_at b at = from_le (take 4 (drop at b))

infixl 10 ◌>>◌
abbrev pub ◌>>◌ {ℓ} : {A B : Type ℓ} → Option A → (A → Option B) → Option B
some a >> f = f a
none >> f = none

abbrev pub then_some {ℓ} : {A : Type ℓ} → Bool → A → Option A
then_some true a = some a
then_some false a = none

-- The eight digits of a number in BCD.
all_digits : ℕ → ℕ → Bool
all_digits zero v = true
all_digits (suc n) v = leb (v % 16) 9 && all_digits n (v / 16)

unfoldable bcd_date : ℕ → Bool
unfolding all_digits
bcd_date d =
    let month = d / 2 ^ 24 in
    let day = d / 2 ^ 16 % 256 in
    let year = d % 65536 in
    all_digits 8 d
    && leb 1 month
    && leb month 18
    && leb 1 day
    && leb day 49
    && leb 6544 year
    && leb year 8345

-- A field that is 0 stands for the original fixed size.
stated : ℕ → ℕ → ℕ
stated zero fixed = fixed
stated (suc n) fixed = suc n

-- The total size that the 48 bytes of a header state.
unfoldable header_total : Bytes → Option ℕ
unfolding stated
header_total h =
    let data_len = stated (u32_at h 28) 2000 in
    let total = stated (u32_at h 32) 2048 in
    if not (u32_at h 0 == 1)
      || not (u32_at h 20 == 1)
      || ltb 255 (u32_at h 24)
      || not (bcd_date (u32_at h 8))
    then none
    else then_some (total % 1024 == 0 && leb total max_intel_entry && leb (data_len + 48) total)
        total

unfoldable intel_header : Bytes → ℕ → Option ℕ
intel_header b at = slice b at 48 >> header_total

fits_at : Bytes → ℕ → ℕ → Option ℕ
fits_at b at total = then_some (leb (at + total) (length b)) total

unfoldable intel_entry : Bytes → ℕ → Option ℕ
unfolding fits_at
intel_entry b at = intel_header b at >> λ total. fits_at b at total

-- The end of the section at `pos`.
unfoldable section_end : Bytes → ℕ → Bytes → Option ℕ
section_end b pos h =
    let next = pos + 8 + u32_at h 4 in
    if ltb 1 (u32_at h 0) then none else then_some (leb next (length b)) next

-- The loop of `amd_container`, from `pos` to the end of the container.
pub amd_loop : ℕ → Bytes → ℕ → Option ℕ
unfolding section_end
amd_loop zero b pos = none
amd_loop (suc fuel) b pos =
    if ltb pos (length b) && not (starts_with (drop pos b) amd_magic)
    then (slice b pos 8 >> section_end b pos) >> amd_loop fuel b
    else some pos

unfoldable amd_container : Bytes → ℕ → Option ℕ
amd_container b at =
    if not (starts_with (drop at b) amd_magic)
    then none
    else amd_loop (suc (length b)) b (at + 4) >> λ pos. some (pos - at)

pub entry : Vendor → Bytes → ℕ → Option ℕ
unfolding intel_entry amd_container
entry intel b pos = intel_entry b pos
entry amd b pos = amd_container b pos

-- An entry: its offset and its length.
abbrev pub Entry : Type 0
Entry = ℕ × ℕ

-- The loop of `split`, with `n` entries found so far.
unfoldable split_loop : Vendor → Bytes → ℕ → ℕ → ℕ → Option (List Entry)
split_loop v b zero pos n = none
split_loop v b (suc fuel) pos n =
    if leb (length b) pos
    then then_some (pos == length b) []
    else if leb max_entries n
    then none
    else (entry v b pos >> λ len.
        (split_loop v b fuel (pos + len) (suc n) >> λ rest. some ((pos, len) ∷ rest)))

-- Not empty, with the vendor.
unfoldable found : Vendor → List Entry → Option (Vendor × List Entry)
found v [] = none
found v (e ∷ es) = some (v, e ∷ es)

pub split_as : Vendor → Bytes → Option (Vendor × List Entry)
unfolding split_loop found
split_as v b = split_loop v b (suc (length b)) 0 0 >> found v

abbrev is_some : Option ℕ → Bool
is_some none = false
is_some (some n) = true

pub split : Bytes → Option (Vendor × List Entry)
unfolding split_as intel_header
split b =
    if starts_with b amd_magic
    then split_as amd b
    else if is_some (intel_header b 0)
    then split_as intel b
    else none

pub looks_like : Bytes → Bool
unfolding intel_header
looks_like head = starts_with head amd_magic || is_some (intel_header head 0)
