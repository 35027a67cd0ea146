-- ===== src/Base/Bits.antt =====
-- The binary digits of a number, and what the bit operations and shifts do to them.
use Prim.Native.Nat.{
  ℕ, zero, suc, ◌+◌, ◌-◌, ◌*◌, ◌/◌, ◌%◌, ◌^◌, ◌≤◌, ◌<◌, min, max, digits, bit_and, bit_or,
  bit_and-bitwise, bit_or-bitwise,
}
use mathlib.Core.Path.{◌≡◌, refl, ap, sym, ◌∙◌}
use mathlib.Core.Logic.{◌≢◌}
use native.Mathlib.Omega.{arith}
use native.Mathlib.Nat.{
  pow-suc, div-div-eq-div-mul, mul_comm, one-le-pow, div-add-mod, mod-lt, mod-eq_of_lt,
  add-mul-mod_self_left,
}
use native.Mathlib.Decide.{ℕ_discrete}

-- Digit `i` of `x`, 0 or 1.
abbrev pub bit : ℕ → ℕ → ℕ
bit zero x = x % 2
bit (suc i) x = bit i (x / 2)

pub bit-le-one : (i x : ℕ) → bit i x ≤ 1
bit-le-one zero x = omega arith
bit-le-one (suc i) x = bit-le-one i (x / 2)

pub bit-zero : (i : ℕ) → bit i 0 ≡ 0
bit-zero zero = refl
bit-zero (suc i) = bit-zero i

-- The digit recursion that the native operations stand for acts on each digit by itself.
module _ (f : ℕ → ℕ) (g : ℕ → ℕ → ℕ) (small : (x y : ℕ) → x ≤ 1 → y ≤ 1 → g x y ≤ 1)
    (base : (i b : ℕ) → bit i (f b) ≡ g (bit i 0) (bit i b)) where
  bit-digits : (n i a b : ℕ) → a ≤ n → bit i (digits f g n a b) ≡ g (bit i a) (bit i b)
  bit-digits zero i zero b h = base i b
  bit-digits zero i (suc a) b h = absurd (omega arith)
  bit-digits (suc n) i zero b h = base i b
  bit-digits (suc n) zero (suc a) b h =
      omega (arith, small (suc a % 2) (b % 2) (omega arith) (omega arith))
  bit-digits (suc n) (suc i) (suc a) b h =
      let rest = digits f g n (suc a / 2) (b / 2) in
      let low = small (suc a % 2) (b % 2) (omega arith) (omega arith) in
      let half : (rest * 2 + g (suc a % 2) (b % 2)) / 2 ≡ rest = omega (arith, low) in
      ap (bit i) half ∙ bit-digits n i (suc a / 2) (b / 2) (omega arith)

pub bit-bit_or : (i a b : ℕ) → bit i (bit_or a b) ≡ max (bit i a) (bit i b)
bit-bit_or i a b =
    ap (bit i) (bit_or-bitwise a b)
    ∙ bit-digits (λ y. y) max (λ x y p q. omega arith) (λ j y. omega (arith, bit-zero j)) a i a b
        (omega arith)

pub bit-bit_and : (i a b : ℕ) → bit i (bit_and a b) ≡ min (bit i a) (bit i b)
bit-bit_and i a b =
    ap (bit i) (bit_and-bitwise a b)
    ∙ bit-digits (λ y. 0) min (λ x y p q. omega arith) (λ j y. omega (arith, bit-zero j)) a i a b
        (omega arith)

-- Numbers with the same digits are equal.
bits_below : (n a b : ℕ) → a ≤ n → b ≤ n → ((i : ℕ) → bit i a ≡ bit i b) → a ≡ b
bits_below zero a b p q h = omega arith
bits_below (suc n) a b p q h =
    omega (arith, h 0, bits_below n (a / 2) (b / 2) (omega arith) (omega arith) (λ i. h (suc i)))

pub eq_of_bits : (a b : ℕ) → ((i : ℕ) → bit i a ≡ bit i b) → a ≡ b
eq_of_bits a b h = bits_below (a + b) a b (omega arith) (omega arith) h

pub bit-pow_self : (i : ℕ) → bit i (2 ^ i) ≡ 1
bit-pow_self zero = refl
bit-pow_self (suc i) =
    let e : 2 ^ suc i / 2 ≡ 2 ^ i = omega (arith, pow-suc 2 i) in ap (bit i) e ∙ bit-pow_self i

pub bit-pow_ne : (i j : ℕ) → i ≢ j → bit i (2 ^ j) ≡ 0
bit-pow_ne zero zero h = absurd (h refl)
bit-pow_ne zero (suc j) h = omega (arith, pow-suc 2 j)
bit-pow_ne (suc i) zero h = bit-zero i
bit-pow_ne (suc i) (suc j) h =
    let e : 2 ^ suc j / 2 ≡ 2 ^ j = omega (arith, pow-suc 2 j) in
    ap (bit i) e ∙ bit-pow_ne i j (λ q. h (ap suc q))

-- `x >> k`
pub bit-shr : (k i j x : ℕ) → j ≡ k + i → bit i (x / 2 ^ k) ≡ bit j x
bit-shr zero i j x h =
    let e : x / 2 ^ 0 ≡ x = omega arith in
    let e' : i ≡ j = omega arith in ap (bit i) e ∙ ap (λ n. bit n x) e'
bit-shr (suc k) i zero x h = absurd (omega arith)
bit-shr (suc k) i (suc j) x h =
    let e : x / 2 ^ suc k ≡ x / 2 / 2 ^ k =
      ap (λ n. x / n) (pow-suc 2 k ∙ mul_comm (2 ^ k) 2) ∙ sym (div-div-eq-div-mul x 2 (2 ^ k)) in
    ap (bit i) e ∙ bit-shr k i j (x / 2) (omega arith)

pub bit-ge : (w i x : ℕ) → x < 2 ^ w → w ≤ i → bit i x ≡ 0
bit-ge zero i x h p = let e : x ≡ 0 = omega arith in ap (bit i) e ∙ bit-zero i
bit-ge (suc w) zero x h p = absurd (omega arith)
bit-ge (suc w) (suc i) x h p = bit-ge w i (x / 2) (omega (arith, pow-suc 2 w)) (omega arith)

half-mod : (w x : ℕ) → (x % 2 ^ suc w) / 2 ≡ (x / 2) % 2 ^ w
half-mod w x =
    let p = 2 ^ w in
    let q = x / 2 ^ suc w in
    let r = x % 2 ^ suc w in
    let split = div-add-mod x (2 ^ suc w) in
    let grow = ap (λ t. t * q) (pow-suc 2 w) in
    let small : r < 2 ^ suc w = mod-lt x (one-le-pow (suc w) 2 (omega arith)) in
    let halved : x / 2 ≡ r / 2 + p * q = omega (arith, split, grow) in
    let fits : r / 2 < p = omega (arith, small, pow-suc 2 w) in
    sym (ap (λ t. t % p) halved ∙ add-mul-mod_self_left (r / 2) p q ∙ mod-eq_of_lt fits)

pub bit-mod : (w i x : ℕ) → i < w → bit i (x % 2 ^ w) ≡ bit i x
bit-mod zero i x h = absurd (omega arith)
bit-mod (suc w) zero x h =
    omega (arith, div-add-mod x (2 ^ suc w), ap (λ t. t * (x / 2 ^ suc w)) (pow-suc 2 w))
bit-mod (suc w) (suc i) x h = ap (bit i) (half-mod w x) ∙ bit-mod w i (x / 2) (omega arith)

-- `x << s`, before the word is cut
pub bit-shl_lt : (s i x : ℕ) → i < s → bit i (x * 2 ^ s) ≡ 0
bit-shl_lt zero i x h = absurd (omega arith)
bit-shl_lt (suc s) zero x h = omega (arith, ap (λ t. x * t) (pow-suc 2 s))
bit-shl_lt (suc s) (suc i) x h =
    let e : x * 2 ^ suc s / 2 ≡ x * 2 ^ s = omega (arith, ap (λ t. x * t) (pow-suc 2 s)) in
    ap (bit i) e ∙ bit-shl_lt s i x (omega arith)

pub bit-shl_ge : (s i j x : ℕ) → i ≡ s + j → bit i (x * 2 ^ s) ≡ bit j x
bit-shl_ge zero i j x h =
    let e : x * 2 ^ 0 ≡ x = omega arith in
    let e' : i ≡ j = omega arith in ap (bit i) e ∙ ap (λ n. bit n x) e'
bit-shl_ge (suc s) zero j x h = absurd (omega arith)
bit-shl_ge (suc s) (suc i) j x h =
    let e : x * 2 ^ suc s / 2 ≡ x * 2 ^ s = omega (arith, ap (λ t. x * t) (pow-suc 2 s)) in
    ap (bit i) e ∙ bit-shl_ge s i j x (omega arith)

-- `word & mask == 0` for a mask of one bit
pub bit_and-pow : (a j : ℕ) → bit j a ≡ 0 → bit_and a (2 ^ j) ≡ 0
bit_and-pow a j h = eq_of_bits _ 0 each
  where
    each : (i : ℕ) → bit i (bit_and a (2 ^ j)) ≡ bit i 0
    each i = elim (ℕ_discrete i j) [
      | yes e ↦ omega (arith, bit-bit_and i a (2 ^ j), bit-zero i, ap (λ n. bit n a) e, h)
      | no ne ↦ omega (arith, bit-bit_and i a (2 ^ j), bit-zero i, bit-pow_ne i j ne)
    ]

pub bit-eq-zero_of_and : (a j : ℕ) → bit_and a (2 ^ j) ≡ 0 → bit j a ≡ 0
bit-eq-zero_of_and a j h =
    omega (arith, bit-bit_and j a (2 ^ j), bit-pow_self j, bit-le-one j a, ap (bit j) h, bit-zero j)

pub lt_of_bits : (w x : ℕ) → ((i : ℕ) → w ≤ i → bit i x ≡ 0) → x < 2 ^ w
lt_of_bits zero x h = omega (arith, eq_of_bits x 0 (λ i. h i (omega arith) ∙ sym (bit-zero i)))
lt_of_bits (suc w) x h =
    omega (arith, pow-suc 2 w, lt_of_bits w (x / 2) (λ i p. h (suc i) (omega arith)))

pub bit_or-lt : (w a b : ℕ) → a < 2 ^ w → b < 2 ^ w → bit_or a b < 2 ^ w
bit_or-lt w a b p q =
    lt_of_bits w (bit_or a b)
      λ i h. omega (arith, bit-bit_or i a b, bit-ge w i a p h, bit-ge w i b q h)

pub bit_and-le : (w a b : ℕ) → a < 2 ^ w → bit_and a b < 2 ^ w
bit_and-le w a b p =
    lt_of_bits w (bit_and a b) λ i h. omega (arith, bit-bit_and i a b, bit-ge w i a p h)

-- `x & ((1 << k) - 1)` keeps the digits below `k`.
pub bit-mask_lt : (k i : ℕ) → i < k → bit i (2 ^ k - 1) ≡ 1
bit-mask_lt zero i h = absurd (omega arith)
bit-mask_lt (suc k) zero h = omega (arith, pow-suc 2 k, one-le-pow k 2 (omega arith))
bit-mask_lt (suc k) (suc i) h =
    let e : (2 ^ suc k - 1) / 2 ≡ 2 ^ k - 1 =
      omega (arith, pow-suc 2 k, one-le-pow k 2 (omega arith)) in
    ap (bit i) e ∙ bit-mask_lt k i (omega arith)

-- The number of ones among the low `w` digits (`count_ones`).
abbrev pub ones : ℕ → ℕ → ℕ
ones zero x = 0
ones (suc w) x = x % 2 + ones w (x / 2)
