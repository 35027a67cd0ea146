-- ===== src/Base/Bytes.antt =====
-- Little-endian integers and slices of byte strings, as Rust's standard library has them. A byte
-- string is a list of numbers below 256.
use Prim.Native.Nat.{ℕ, zero, suc, ◌+◌, ◌-◌, ◌*◌, ◌/◌, ◌%◌, ◌^◌, ◌≤◌, ◌<◌}
use mathlib.Core.Path.{◌≡◌, refl, ap, ◌∙◌}
use mathlib.Core.List.{List, [], ◌∷◌, ◌++◌}
use mathlib.Core.List.{append_assoc}
use mathlib.Core.Option.{Option, none, some}
use native.Mathlib.Omega.{arith}
use native.Mathlib.Nat.{pow-suc}
use hashdex.Base.Tests.{leb, if◌then◌else◌, le→leb}
use hashdex.Base.Lists.{length, take, drop, get_or, All, length-append}

abbrev pub Bytes : Type 0
Bytes = List ℕ

abbrev pub IsByte : ℕ → Type 0
IsByte b = b < 256

-- The low `n` bytes of `x`, lowest first (`to_le_bytes`).
abbrev pub le_bytes : ℕ → ℕ → Bytes
le_bytes zero x = []
le_bytes (suc n) x = (x % 256) ∷ le_bytes n (x / 256)

abbrev pub from_le : Bytes → ℕ
from_le [] = 0
from_le (b ∷ bs) = b + 256 * from_le bs

pub length-le_bytes : (n x : ℕ) → length (le_bytes n x) ≡ n
length-le_bytes zero x = refl
length-le_bytes (suc n) x = ap suc (length-le_bytes n (x / 256))

pub le_bytes-IsByte : (n x : ℕ) → All IsByte (le_bytes n x)
le_bytes-IsByte zero x = tt
le_bytes-IsByte (suc n) x = (omega arith, le_bytes-IsByte n (x / 256))

pub from_le-le_bytes : (n x : ℕ) → x < 256 ^ n → from_le (le_bytes n x) ≡ x
from_le-le_bytes zero x h = omega arith
from_le-le_bytes (suc n) x h =
    omega (arith, from_le-le_bytes n (x / 256) (omega (arith, pow-suc 256 n)))

pub from_le-lt : (bs : Bytes) → All IsByte bs → from_le bs < 256 ^ length bs
from_le-lt [] h = omega arith
from_le-lt (b ∷ bs) (p, ps) = omega (arith, from_le-lt bs ps, pow-suc 256 (length bs))

-- `&bytes[off..off + n]`; `none` is the panic of a range past the end.
abbrev pub slice : Bytes → ℕ → ℕ → Option Bytes
slice bs off n = if leb (off + n) (length bs) then some (take n (drop off bs)) else none

module _ {ℓ} {A : Type ℓ} where
  pub take-append_length : (n : ℕ) (xs ys : List A) → length xs ≡ n → take n (xs ++ ys) ≡ xs
  take-append_length zero [] ys h = refl
  take-append_length zero (x ∷ xs) ys h = absurd (omega arith)
  take-append_length (suc n) [] ys h = absurd (omega arith)
  take-append_length (suc n) (x ∷ xs) ys h =
      ap (λ t. x ∷ t) (take-append_length n xs ys (omega arith))

  pub drop-append_length :
      (n m k : ℕ) (xs ys : List A) → length xs ≡ n → k ≡ n + m → drop k (xs ++ ys) ≡ drop m ys
  drop-append_length zero m k [] ys h e = let e' : k ≡ m = omega arith in ap (λ j. drop j ys) e'
  drop-append_length zero m k (x ∷ xs) ys h e = absurd (omega arith)
  drop-append_length (suc n) m k [] ys h e = absurd (omega arith)
  drop-append_length (suc n) m zero (x ∷ xs) ys h e = absurd (omega arith)
  drop-append_length (suc n) m (suc k) (x ∷ xs) ys h e =
      drop-append_length n m k xs ys (omega arith) (omega arith)

pub slice-eq_some :
    (bs : Bytes) (off n : ℕ) → off + n ≤ length bs → slice bs off n ≡ some (take n (drop off bs))
slice-eq_some bs off n h = rw (le→leb _ _ h)

-- Words of 64 bits, one after the other.
abbrev pub words_bytes : List ℕ → Bytes
words_bytes [] = []
words_bytes (w ∷ ws) = le_bytes 8 w ++ words_bytes ws

pub length-words_bytes : (ws : List ℕ) → length (words_bytes ws) ≡ length ws * 8
length-words_bytes [] = refl
length-words_bytes (w ∷ ws) =
    omega (arith, length-append (le_bytes 8 w) (words_bytes ws), length-words_bytes ws)

pub take-words_bytes :
    (ws : List ℕ) (i k : ℕ) (rest : Bytes)
    → i < length ws
    → k ≡ i * 8
    → take 8 (drop k (words_bytes ws ++ rest)) ≡ le_bytes 8 (get_or ws i 0)
take-words_bytes [] i k rest h e = absurd (omega arith)
take-words_bytes (w ∷ ws) zero k rest h e = let e' : k ≡ 0 = omega arith in rw e' refl
take-words_bytes (w ∷ ws) (suc i) k rest h e =
    let e' : k ≡ 8 + i * 8 = omega arith in
    ap (take 8) (
      ap (drop k) (append_assoc (le_bytes 8 w) (words_bytes ws) rest)
      ∙ drop-append_length 8 (i * 8) k (le_bytes 8 w) (words_bytes ws ++ rest) refl e')
    ∙ take-words_bytes ws i (i * 8) rest (omega arith) refl

-- `u64::div_ceil`
abbrev pub div_ceil : ℕ → ℕ → ℕ
div_ceil a b = (a + (b - 1)) / b
