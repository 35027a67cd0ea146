-- ===== src/Base/Text.antt =====
-- Text as the list of its Unicode code points, with the `str` methods that the program calls.
use Prim.Native.Char.{code}
use Prim.Native.String.{String}
use Prim.Native.Nat.{ℕ, ◌+◌, ◌≤◌}
use mathlib.Core.Path.{◌≡◌, refl, ap, ap₂}
use mathlib.Core.Bool.{Bool, true, false, not, ◌&&◌, ◌||◌}
use mathlib.Core.List.{List, [], ◌∷◌, ◌++◌, reverse, reverse-append, reverse-reverse}
use mathlib.Core.Logic.{inl, inr}
use mathlib.Core.Option.{Option, none, some}
use native.Mathlib.Omega.{arith}
use hashdex.Base.Tests.{Bool-cases, ltb, leb, ◌==◌, if◌then◌else◌, ==_iff}
use hashdex.Base.Lists.{length}

abbrev pub Text : Type 0
Text = List ℕ

abbrev pub codes : String → Text
codes String.[] = []
codes (String.◌∷◌ c s) = code c ∷ codes s

abbrev pub within : ℕ → ℕ → ℕ → Bool
within lo hi c = leb lo c && leb c hi

-- `char::is_whitespace`, the Unicode property White_Space.
abbrev pub is_whitespace : ℕ → Bool
is_whitespace c =
    within 9 13 c
    || c == 0x20
    || c == 0x85
    || c == 0xa0
    || c == 0x1680
    || within 0x2000 0x200a c
    || c == 0x2028
    || c == 0x2029
    || c == 0x202f
    || c == 0x205f
    || c == 0x3000

unfoldable pub trim_start : Text → Text
trim_start [] = []
trim_start (c ∷ cs) = let rest = trim_start cs in if is_whitespace c then rest else c ∷ cs

unfoldable pub trim : Text → Text
unfolding trim_start
trim s = reverse (trim_start (reverse (trim_start s)))

abbrev pub ascii_lowercase : ℕ → ℕ
ascii_lowercase c = if within b'A' b'Z' c then c + 32 else c

abbrev pub text_eq : Text → Text → Bool
text_eq [] [] = true
text_eq [] (d ∷ ds) = false
text_eq (c ∷ cs) [] = false
text_eq (c ∷ cs) (d ∷ ds) = c == d && text_eq cs ds

-- `strip_prefix`
abbrev pub strip_prefix : Text → Text → Option Text
strip_prefix [] s = some s
strip_prefix (p ∷ ps) [] = none
strip_prefix (p ∷ ps) (c ∷ cs) = let rest = strip_prefix ps cs in if p == c then rest else none

-- `split_once` at a character: what stands before its first occurrence and behind it.
abbrev pub split_once : ℕ → Text → Option (Text × Text)
split_once d [] = none
split_once d (c ∷ cs) =
    let rest = split_once d cs in
    if c == d then some ([], cs) else elim rest [ none ↦ none | some (a, b) ↦ some (c ∷ a, b) ]

abbrev pub contains : ℕ → Text → Bool
contains d [] = false
contains d (c ∷ cs) = c == d || contains d cs

abbrev pub all_of : (ℕ → Bool) → Text → Bool
all_of p [] = true
all_of p (c ∷ cs) = p c && all_of p cs

abbrev pub is_ascii_hexdigit : ℕ → Bool
is_ascii_hexdigit c = within b'0' b'9' c || within b'a' b'f' c || within b'A' b'F' c

-- `str::len`: the bytes of the UTF-8 form.
abbrev pub len_utf8 : ℕ → ℕ
len_utf8 c = if ltb c 0x80 then 1 else if ltb c 0x800 then 2 else if ltb c 0x10000 then 3 else 4

abbrev pub byte_len : Text → ℕ
byte_len [] = 0
byte_len (c ∷ cs) = len_utf8 c + byte_len cs

pub text_eq_refl : (s : Text) → text_eq s s ≡ true
text_eq_refl [] = refl
text_eq_refl (c ∷ cs) = ground (arith, text_eq_refl cs)

pub all_of-append :
    (p : ℕ → Bool) (s t : Text) → all_of p s ≡ true → all_of p t ≡ true → all_of p (s ++ t) ≡ true
all_of-append p [] t h k = k
all_of-append p (c ∷ cs) t h k = ground (arith, all_of-append p cs t)

pub all_of_imp :
    (p q : ℕ → Bool) (s : Text)
    → ((c : ℕ) → p c ≡ true → q c ≡ true)
    → all_of p s ≡ true
    → all_of q s ≡ true
all_of_imp p q [] f h = refl
all_of_imp p q (c ∷ cs) f h = ground (arith, f c, all_of_imp p q cs f)

abbrev pub is_visible : ℕ → Bool
is_visible c = not (is_whitespace c)

trim_start_id : (s : Text) → all_of is_visible s ≡ true → trim_start s ≡ s
unfolding trim_start
trim_start_id [] h = refl
trim_start_id (c ∷ cs) h = elim (Bool-cases (is_whitespace c)) [
  | inl w ↦ cc (rw w at h)
  | inr n ↦ rw n
]

all_of-reverse : (p : ℕ → Bool) (s : Text) → all_of p s ≡ true → all_of p (reverse s) ≡ true
all_of-reverse p [] h = refl
all_of-reverse p (c ∷ cs) h =
    rw (reverse-append (c ∷ []) cs)
      (all_of-append p (reverse cs) (c ∷ []) (all_of-reverse p cs (ground arith)) (ground arith))

-- Nothing is trimmed from a text with no white space.
pub trim_id : (s : Text) → all_of is_visible s ≡ true → trim s ≡ s
unfolding trim
trim_id s h =
    rw (trim_start_id s h)
      (rw (trim_start_id (reverse s) (all_of-reverse is_visible s h)) (reverse-reverse s))

pub split_once-none : (d : ℕ) (s : Text) → contains d s ≡ false → split_once d s ≡ none
split_once-none d [] h = refl
split_once-none d (c ∷ cs) h = ground (arith, split_once-none d cs)

pub split_once-append :
    (d : ℕ) (a b : Text) → contains d a ≡ false → split_once d (a ++ d ∷ b) ≡ some (a, b)
split_once-append d [] b h = ground arith
split_once-append d (c ∷ cs) b h = ground (arith, split_once-append d cs b)

pub contains-append :
    (d : ℕ) (a b : Text) → contains d a ≡ false → contains d b ≡ false → contains d (a ++ b) ≡ false
contains-append d [] b h k = k
contains-append d (c ∷ cs) b h k = ground (arith, contains-append d cs b)

-- A character outside a class is not in a text of that class.
pub contains-all_of :
    (p : ℕ → Bool) (d : ℕ) (s : Text) → p d ≡ false → all_of p s ≡ true → contains d s ≡ false
contains-all_of p d [] h k = refl
contains-all_of p d (c ∷ cs) h k = elim (Bool-cases (c == d)) [
  | inl e ↦ cc (ap p ((==_iff c d).0 e), h, k')
  | inr n ↦ rw n (contains-all_of p d cs h (ground arith))
]
  where
    k' : p c ≡ true
    k' = ground arith

hexdigit_range : (c : ℕ) → is_ascii_hexdigit c ≡ true → (48 ≤ c) × (c ≤ 102)
hexdigit_range c h = ground arith

visible_range : (c : ℕ) → 48 ≤ c → c ≤ 102 → is_visible c ≡ true
visible_range c lo hi = ground arith

pub hexdigit-visible : (c : ℕ) → is_ascii_hexdigit c ≡ true → is_visible c ≡ true
hexdigit-visible c h = let (lo, hi) = hexdigit_range c h in visible_range c lo hi

pub hexdigit_one_byte : (c : ℕ) → is_ascii_hexdigit c ≡ true → len_utf8 c ≡ 1
hexdigit_one_byte c h = ground arith

pub byte_len-hexdigits : (s : Text) → all_of is_ascii_hexdigit s ≡ true → byte_len s ≡ length s
byte_len-hexdigits [] h = refl
byte_len-hexdigits (c ∷ cs) h = ground (arith, hexdigit_one_byte c, byte_len-hexdigits cs)

pub text_eq→eq : (s t : Text) → text_eq s t ≡ true → s ≡ t
text_eq→eq [] [] h = refl
text_eq→eq [] (d ∷ ds) h = cc
text_eq→eq (c ∷ cs) [] h = cc
text_eq→eq (c ∷ cs) (d ∷ ds) h =
    let head : c ≡ d = ground arith in
    let rest : text_eq cs ds ≡ true = ground arith in
    ap₂ (λ x xs. x ∷ xs) head (text_eq→eq cs ds rest)
