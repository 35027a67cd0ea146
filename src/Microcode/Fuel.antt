-- ===== src/Microcode/Fuel.antt =====
-- src/microcode.rs: an entry moves the splitting on, and the fuel of a container's loop is enough.
use hashdex.Base.{
  ℕ, zero, suc, ◌+◌, ◌-◌, ◌%◌, ◌≤◌, ◌<◌, ◌≡◌, refl, inl, inr, Bool, true, false, not, ◌&&◌, ◌||◌,
  Option, none, some, length, drop, leb, ltb, ◌==◌, arith, Bool-cases, Option-cases, leb→le,
}
use mathlib.Core.Option.{none-ne-some, some-injective}
use hashdex.Base.Bytes.{Bytes, slice}
use hashdex.Microcode.{
  Vendor, intel, amd, amd_magic, starts_with, u32_at, ◌>>◌, then_some, stated, max_intel_entry,
  bcd_date, header_total, intel_header, fits_at, intel_entry, section_end, amd_loop, amd_container,
  entry,
}

module _ {ℓ} {A B : Type ℓ} where
  -- A chain that returns has a first step that does.
  pub bind_some :
      (o : Option A) (f : A → Option B) (b : B)
      → (o >> f) ≡ some b
      → (a : A) × (o ≡ some a) × (f a ≡ some b)
  bind_some none f b h = absurd (none-ne-some b h)
  bind_some (some a) f b h = (a, refl, h)

module _ {ℓ} {A : Type ℓ} where
  pub then_some-true : (c : Bool) (a b : A) → then_some c a ≡ some b → (c ≡ true) × (a ≡ b)
  then_some-true true a b h = (refl, some-injective a b h)
  then_some-true false a b h = absurd (none-ne-some b h)

header_total-positive : (h : Bytes) (n : ℕ) → header_total h ≡ some n → 0 < n
unfolding header_total
header_total-positive h n e =
    let data_len = stated (u32_at h 28) 2000 in
    let total = stated (u32_at h 32) 2048 in
    elim (Bool-cases (
      not (u32_at h 0 == 1)
      || not (u32_at h 20 == 1)
      || ltb 255 (u32_at h 24)
      || not (bcd_date (u32_at h 8)))) [
        | inl p ↦ absurd (none-ne-some n (rw p at e))
        | inr p ↦
            let (c, same) =
              then_some-true
                (total % 1024 == 0 && leb total max_intel_entry && leb (data_len + 48) total) total
                n (rw p at e) in
            ground arith
      ]

intel_entry-positive : (b : Bytes) (at n : ℕ) → intel_entry b at ≡ some n → 0 < n
unfolding intel_entry intel_header fits_at
intel_entry-positive b at n e =
    let (total, header, fits) = bind_some (intel_header b at) (λ t. fits_at b at t) n e in
    let (h, cut, stated_total) = bind_some (slice b at 48) header_total total header in
    let (c, same) = then_some-true (leb (at + total) (length b)) total n fits in
    omega (arith, header_total-positive h total stated_total)

-- A section ends after its header, inside the blob.
section_end-after :
    (b : Bytes) (pos : ℕ) (h : Bytes) (next : ℕ)
    → section_end b pos h ≡ some next
    → (pos + 8 ≤ next) × (next ≤ length b)
unfolding section_end
section_end-after b pos h next e = elim (Bool-cases (ltb 1 (u32_at h 0))) [
  | inl p ↦ absurd (none-ne-some next (rw p at e))
  | inr p ↦
      let (c, same) =
        then_some-true (leb (pos + 8 + u32_at h 4) (length b)) (pos + 8 + u32_at h 4) next
          (rw p at e) in
      let inside : pos + 8 + u32_at h 4 ≤ length b = leb→le (pos + 8 + u32_at h 4) (length b) c in
      (omega arith, omega arith)
]

abbrev section : Bytes → ℕ → Option ℕ
section b pos = slice b pos 8 >> section_end b pos

section-after :
    (b : Bytes) (pos next : ℕ) → section b pos ≡ some next → (pos + 8 ≤ next) × (next ≤ length b)
section-after b pos next e =
    let (h, cut, end_) = bind_some (slice b pos 8) (section_end b pos) next e in
    section_end-after b pos h next end_

amd_loop-ge : (fuel : ℕ) (b : Bytes) (pos last : ℕ) → amd_loop fuel b pos ≡ some last → pos ≤ last
unfolding amd_loop
amd_loop-ge zero b pos last e = absurd (none-ne-some last e)
amd_loop-ge (suc fuel) b pos last e =
    elim (Bool-cases (ltb pos (length b) && not (starts_with (drop pos b) amd_magic))) [
      | inl p ↦
          let (next, found, rest) = bind_some (section b pos) (amd_loop fuel b) last (rw p at e) in
          let (after, within) = section-after b pos next found in
          omega (arith, amd_loop-ge fuel b next last rest)
      | inr p ↦ let same : pos ≡ last = some-injective pos last (rw p at e) in omega arith
    ]

amd_container-positive : (b : Bytes) (at n : ℕ) → amd_container b at ≡ some n → 0 < n
unfolding amd_container
amd_container-positive b at n e = elim (Bool-cases (starts_with (drop at b) amd_magic)) [
  | inr p ↦ absurd (none-ne-some n (rw p at e))
  | inl p ↦
      let (last, run, len) =
        bind_some (amd_loop (suc (length b)) b (at + 4)) (λ pos. some (pos - at)) n (rw p at e) in
      let same : last - at ≡ n = some-injective (last - at) n len in
      omega (arith, amd_loop-ge (suc (length b)) b (at + 4) last run)
]

pub entry-positive : (v : Vendor) (b : Bytes) (at n : ℕ) → entry v b at ≡ some n → 0 < n
unfolding entry
entry-positive intel b at n e = intel_entry-positive b at n e
entry-positive amd b at n e = amd_container-positive b at n e

-- Fuel beyond what is left of the blob changes nothing: the loop of a container has enough.
amd_loop-fuel :
    (f g : ℕ) (b : Bytes) (pos : ℕ)
    → pos ≤ length b
    → length b < f + pos
    → length b < g + pos
    → amd_loop f b pos ≡ amd_loop g b pos
unfolding amd_loop
amd_loop-fuel zero g b pos le h k = absurd (omega arith)
amd_loop-fuel (suc f) zero b pos le h k = absurd (omega arith)
amd_loop-fuel (suc f) (suc g) b pos le h k =
    elim (Bool-cases (ltb pos (length b) && not (starts_with (drop pos b) amd_magic))) [
      | inr p ↦ rw p
      | inl p ↦ elim (Option-cases (section b pos)) [
        | inl q ↦ rw (p, q)
        | inr (next, q) ↦
            let (after, within) = section-after b pos next q in
            rw (p, q) (amd_loop-fuel f g b next within (omega arith) (omega arith))
      ]
    ]
