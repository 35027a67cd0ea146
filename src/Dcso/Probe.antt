-- ===== src/Dcso/Probe.antt =====
-- What `check_with` of src/dcso.rs answers, in terms of the digits of the words that it probes.
use Prim.Native.Nat.{bit_and, ◌∣◌}
use mathlib.Core.Path.{ap₂}
use native.Mathlib.Decide.{dec_lt}
use native.Mathlib.Nat.{mod-lt, mod-mod_of_dvd, dvd-mul_right}
use hashdex.Base.{
  ℕ, zero, suc, ◌+◌, ◌*◌, ◌/◌, ◌%◌, ◌^◌, ◌≤◌, ◌<◌, ◌≡◌, refl, sym, ap, ◌∙◌, ◌⊎◌, Option-cases, Bool,
  true, false, Option, none, some, List, [], ◌∷◌, map, All, arith, ◌==◌, if◌then◌else◌, Bool-cases,
  inl, inr, ==_iff,
}
use hashdex.Base.Bits.{
  bit, bit-le-one, bit-zero, bit-bit_and, eq_of_bits, bit-mod, bit-ge, bit_and-pow,
  bit-eq-zero_of_and,
}
use hashdex.Base.Bytes.{Bytes}
use hashdex.Dcso.{header_len, modulus, fnv1_64, positions, bit_positions, check_bits, check_with}

bit-63 : (i : ℕ) → (i < 6 → bit i 63 ≡ 1) × (6 ≤ i → bit i 63 ≡ 0)
bit-63 zero = (λ h. refl, λ h. absurd (omega arith))
bit-63 (suc zero) = (λ h. refl, λ h. absurd (omega arith))
bit-63 (suc (suc zero)) = (λ h. refl, λ h. absurd (omega arith))
bit-63 (suc (suc (suc zero))) = (λ h. refl, λ h. absurd (omega arith))
bit-63 (suc (suc (suc (suc zero)))) = (λ h. refl, λ h. absurd (omega arith))
bit-63 (suc (suc (suc (suc (suc zero))))) = (λ h. refl, λ h. absurd (omega arith))
bit-63 (suc (suc (suc (suc (suc (suc i)))))) = (λ h. absurd (omega arith), λ h. bit-zero i)

-- `bit & 63`
pub bit_and_63 : (b : ℕ) → bit_and b 63 ≡ b % 64
bit_and_63 b = eq_of_bits _ _ each
  where
    each : (i : ℕ) → bit i (bit_and b 63) ≡ bit i (b % 64)
    each i = elim (dec_lt i 6) [
      | yes h ↦ omega (arith, bit-bit_and i b 63, (bit-63 i).0 h, bit-mod 6 i b h, bit-le-one i b)
      | no h ↦ omega (
        arith,
        bit-bit_and i b 63,
        (bit-63 i).1 (omega arith),
        bit-ge 6 i (b % 64) (omega arith) (omega arith),
      )
    ]

-- The test `word & mask == 0` reads one digit.
probe_zero : (w b : ℕ) → bit (b % 64) w ≡ 0 → (bit_and w (2 ^ bit_and b 63) == 0) ≡ true
probe_zero w b h = rw bit_and_63 (rw (bit_and-pow w (b % 64) h))

probe_one : (w b : ℕ) → bit (b % 64) w ≡ 1 → (bit_and w (2 ^ bit_and b 63) == 0) ≡ false
probe_one w b h = elim (Bool-cases (bit_and w (2 ^ bit_and b 63) == 0)) [
  | inl e ↦ absurd (
      omega (
        arith,
        h,
        bit-eq-zero_of_and w (b % 64)
            (ap (λ n. bit_and w (2 ^ n)) (sym (bit_and_63 b)) ∙ (==_iff _ 0).0 e),
      ))
  | inr e ↦ e
]

bit-cases : (i x : ℕ) → (bit i x ≡ 0) ⊎ (bit i x ≡ 1)
bit-cases i x = omega (arith, bit-le-one i x)

-- The word of `b` is readable, and the digit of `b` in it is `d`.
pub record Holds (word_at : ℕ → Option ℕ) (d b : ℕ) : Type 0 where
  pub word : ℕ
  pub readable : word_at (header_len + b / 2 ^ 6 * 8) ≡ some word
  pub digit : bit (b % 64) word ≡ d

abbrev pub Readable : (ℕ → Option ℕ) → ℕ → Type 0
Readable word_at b = (w : ℕ) × (word_at (header_len + b / 2 ^ 6 * 8) ≡ some w)

pub positions-lt : (k h m : ℕ) → 0 < m → All (λ b. b < m) (positions k h m)
unfolding positions
positions-lt zero h m p = tt
positions-lt (suc k) h m p = (mod-lt _ p, positions-lt k _ m p)

-- The probes of a filter of half the size are those of the whole, folded.
pub positions_half :
    (k h m n : ℕ) → m ≡ n * 2 → positions k h n ≡ map (λ b. b % n) (positions k h m)
unfolding positions
positions_half zero h m n e = refl
positions_half (suc k) h m n e =
    ap₂ (λ a (l : List ℕ). a ∷ l) (sym (mod-mod_of_dvd n _ divides)) (positions_half k _ m n e)
  where
    divides : n ∣ m
    divides = rw e (dvd-mul_right n 2)

module _ (b : ℕ) (bs : List ℕ) (word_at : ℕ → Option ℕ) where
  check_bits_step :
      (w : ℕ)
      → word_at (header_len + b / 2 ^ 6 * 8) ≡ some w
      → check_bits (b ∷ bs) word_at
        ≡ (if bit_and w (2 ^ bit_and b 63) == 0 then some false else check_bits bs word_at)
  unfolding check_bits
  check_bits_step w e = rw (e, check_bits)

  check_bits_fault :
      word_at (header_len + b / 2 ^ 6 * 8) ≡ none → check_bits (b ∷ bs) word_at ≡ none
  unfolding check_bits
  check_bits_fault e = rw (e, check_bits)

pub check_bits-Holds :
    (bits : List ℕ) (word_at : ℕ → Option ℕ)
    → All (Holds word_at 1) bits
    → check_bits bits word_at ≡ some true
check_bits-Holds [] word_at h = unfold check_bits in refl
check_bits-Holds (b ∷ bs) word_at (h, hs) =
    rw (check_bits_step b bs word_at h.word h.readable)
      (rw (probe_one h.word b h.digit) (check_bits-Holds bs word_at hs))

pub Holds-check_bits :
    (bits : List ℕ) (word_at : ℕ → Option ℕ)
    → check_bits bits word_at ≡ some true
    → All (Holds word_at 1) bits
Holds-check_bits [] word_at h = tt
Holds-check_bits (b ∷ bs) word_at h = elim (Option-cases (word_at (header_len + b / 2 ^ 6 * 8))) [
  | inl e ↦ cc (check_bits_fault b bs word_at e)
  | inr (w, e) ↦ elim (bit-cases (b % 64) w) [
    | inl z ↦ cc (rw (probe_zero w b z) at (check_bits_step b bs word_at w e))
    | inr o ↦ (
      record { word = w; readable = e; digit = o },
      Holds-check_bits bs word_at
          (sym (rw (probe_one w b o) at (check_bits_step b bs word_at w e)) ∙ h),
    )
  ]
]

pub check_bits_total :
    (bits : List ℕ) (word_at : ℕ → Option ℕ)
    → All (Readable word_at) bits
    → (r : Bool) × (check_bits bits word_at ≡ some r)
check_bits_total [] word_at h = (true, unfold check_bits in refl)
check_bits_total (b ∷ bs) word_at ((w, e), hs) =
    let step = check_bits_step b bs word_at w e in
    let rest = check_bits_total bs word_at hs in
    elim (Bool-cases (bit_and w (2 ^ bit_and b 63) == 0)) [
      | inl z ↦ (false, rw z at step)
      | inr o ↦ (rest.0, (rw o at step) ∙ rest.1)
    ]

module _ (value : Bytes) (k m : ℕ) (h : 0 < m) where
  pub bit_positions_pos : bit_positions value k m ≡ some (positions k (fnv1_64 value % modulus) m)
  unfolding bit_positions
  bit_positions_pos = ground arith

  pub check_with_pos :
      (word_at : ℕ → Option ℕ)
      → check_with value k m word_at ≡ check_bits (positions k (fnv1_64 value % modulus) m) word_at
  unfolding check_with
  check_with_pos word_at = rw (bit_positions_pos, check_with)
