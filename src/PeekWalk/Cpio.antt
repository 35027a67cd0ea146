-- ===== src/PeekWalk/Cpio.antt =====
-- src/peek_walk.rs: cpio archives, their headers (`cpio_header`) and the walk over one that can be
-- read at offsets (`cpio_ranged`).
--
-- `String::from_utf8_lossy` is the parameter `lossy`. What `process_ranged` makes of a child is the
-- parameter `process`: an error or none, from the children before it and the child.
pub mod Fields
pub mod Archive
pub mod Children
pub mod Fuel
use hashdex.Base.{
  ℕ, zero, suc, ◌+◌, ◌-◌, ◌*◌, ◌/◌, ◌%◌, ◌^◌, Bool, true, false, not, ◌&&◌, ◌||◌, Option, none,
  some, List, [], ◌∷◌, ◌++◌, length, take, drop, ltb, leb, ◌==◌, if◌then◌else◌,
}
use hashdex.Base.Bytes.{Bytes, div_ceil}
use hashdex.Base.Outcome.{Result, ok, err, ◌>>=◌}
use hashdex.Base.Text.{Text, codes, text_eq, is_ascii_hexdigit}
use hashdex.Coord.{hex_value}
use hashdex.View.{View, IoError, read_full_at, slice}
use hashdex.PeekWalk.{has_prefix}
use hashdex.PeekWalk.Padding.{first_nonzero}

pub data WalkError : Type 0 where
  io : IoError → WalkError
  bad_field name_truncated retry : WalkError

-- `u64::from_str_radix(.., 16)`, on fields too short to overflow.
unfoldable pub radix_digits : ℕ → Bytes → Option ℕ
radix_digits acc [] = some acc
radix_digits acc (c ∷ cs) =
    let rest = radix_digits (acc * 16 + hex_value c) cs in
    if is_ascii_hexdigit c then rest else none

abbrev signed_digits : Bytes → Option ℕ
signed_digits [] = none
signed_digits (c ∷ cs) = radix_digits 0 (c ∷ cs)

unfoldable pub from_str_radix : Bytes → Option ℕ
unfolding radix_digits
from_str_radix [] = none
from_str_radix (c ∷ cs) = if c == b'+' then signed_digits cs else radix_digits 0 (c ∷ cs)

abbrev field_or : Option ℕ → Result WalkError ℕ
field_or none = err bad_field
field_or (some n) = ok n

unfoldable pub hexfield : Bytes → ℕ → Result WalkError ℕ
unfolding from_str_radix
hexfield h i = field_or (from_str_radix (take 8 (drop (6 + i * 8) h)))

-- `trim_start_matches("./")`
unfoldable pub trim_dot_slash : Text → Text
trim_dot_slash [] = []
trim_dot_slash (c ∷ []) = c ∷ []
trim_dot_slash (c ∷ d ∷ cs) =
    let rest = trim_dot_slash cs in if c == b'.' && d == b'/' then rest else c ∷ d ∷ cs

abbrev pub name_padded : ℕ → ℕ
name_padded namesize = div_ceil (110 + namesize) 4 * 4 - 110

-- The fields that a caller uses, with what `read_name` leaves: it is given how many bytes to read.
pub record CpioHeader : Type 0 where
  pub mode : ℕ
  pub filesize : ℕ
  pub name : Text
  pub after : ℕ

unfoldable pub cpio_header :
    (Bytes → Text)
    → Bytes
    → (ℕ → Result WalkError (Bytes × ℕ))
    → Result WalkError (Option CpioHeader)
unfolding hexfield trim_dot_slash has_prefix
cpio_header lossy hdr read_name =
    if not (has_prefix (codes "070701") hdr) && not (has_prefix (codes "070702") hdr)
    then ok none
    else (hexfield hdr 1 >>= λ mode. hexfield hdr 6 >>= λ filesize. hexfield hdr 11 >>= λ namesize.
        read_name (name_padded namesize) >>= λ (raw, after). ok (
          some (record {
            mode = mode;
            filesize = filesize;
            name = trim_dot_slash (lossy (take (namesize - 1) raw));
            after = after;
          })))

-- A child of the archive: its name, the last part of it, and the view of its bytes.
pub record Child : Type 0 where
  pub name : Text
  pub leaf : Text
  pub view : View

pub data WalkNote : Type 0 where
  no_trailer bad_magic : WalkNote

-- `rsplit('/').next()`
unfoldable pub leaf_from : Text → Text → Text
leaf_from part [] = part
leaf_from part (c ∷ cs) = if c == b'/' then leaf_from [] cs else leaf_from (part ++ c ∷ []) cs

abbrev pub leaf_of : Text → Text
leaf_of name = leaf_from [] name

abbrev at_io : {A : Type 0} → Result IoError A → Result WalkError A
at_io (ok a) = ok a
at_io (err e) = err (io e)

-- The name behind a header, and the offset behind the name.
unfoldable pub read_name_at : View → ℕ → ℕ → Result WalkError (Bytes × ℕ)
unfolding read_full_at
read_name_at v off n = at_io (read_full_at v n off) >>= λ raw.
    if ltb (length raw) n then err name_truncated else ok (raw, off + length raw)

abbrev pub Walked : Type 0
Walked = List Child × Result WalkError (Option WalkNote)

abbrev pub Process : Type 0
Process = List Child → Child → Option WalkError

-- A child is counted, processed, and the walk goes on unless that fails.
abbrev attend : Process → List Child → Child → Walked → Walked
attend process before child rest = elim (process before child) [
  | none ↦ rest
  | some e ↦ (before ++ child ∷ [], err e)
]

abbrev pub round4 : ℕ → ℕ
round4 n = div_ceil n 4 * 4

-- `mode & 0o170000 == 0o100000`
abbrev pub is_regular : ℕ → Bool
is_regular mode = mode / 4096 % 16 == 8

abbrev pub cpio_tail : Text
cpio_tail = codes "segment-2"

abbrev pub rest_child : View → ℕ → Child
rest_child v next = record {
  name = cpio_tail;
  leaf = cpio_tail;
  view = slice v ((next, v.len - next) ∷ []);
}

-- What follows the trailer.
abbrev tail_child : Process → View → List Child → Result WalkError (Option ℕ) → Walked
tail_child process v before (err e) = (before, err e)
tail_child process v before (ok none) = (before, ok none)
tail_child process v before (ok (some next)) =
    attend process before (rest_child v next) (before ++ rest_child v next ∷ [], ok none)

abbrev pub data_child : View → CpioHeader → Child
data_child v h = record {
  name = h.name;
  leaf = leaf_of h.name;
  view = slice v ((h.after, h.filesize) ∷ []);
}

unfoldable pub member_step :
    Process → View → List Child → CpioHeader → (List Child → ℕ → Walked) → Walked
unfolding leaf_from slice first_nonzero
member_step process v before h next =
    if text_eq h.name (codes "TRAILER!!!")
    then tail_child process v before (at_io (first_nonzero v (h.after + round4 h.filesize)))
    else (let pos = h.after + h.filesize + (round4 h.filesize - h.filesize) in
        let child = data_child v h in
        if is_regular h.mode
        then attend process before child (next (before ++ child ∷ []) pos)
        else next before pos)

abbrev header_step :
    Process
    → View
    → List Child
    → Result WalkError (Option CpioHeader)
    → (List Child → ℕ → Walked)
    → Walked
header_step process v before (err e) next = (before, err e)
header_step process v before (ok none) next = (before, ok (some bad_magic))
header_step process v before (ok (some h)) next = member_step process v before h next

abbrev with_header :
    (Bytes → Text)
    → Process
    → View
    → List Child
    → ℕ
    → Result WalkError Bytes
    → (List Child → ℕ → Walked)
    → Walked
with_header lossy process v before pos (err e) next = (before, err e)
with_header lossy process v before pos (ok hdr) next =
    if ltb (length hdr) 110
    then (before, ok (some no_trailer))
    else header_step process v before (cpio_header lossy hdr (read_name_at v (pos + 110))) next

-- The loop, on fuel: a turn that goes on has read a header of 110 bytes.
unfoldable pub cpio_loop : ℕ → (Bytes → Text) → Process → View → List Child → ℕ → Walked
unfolding read_full_at cpio_header read_name_at member_step
cpio_loop zero lossy process v before pos = (before, ok (some no_trailer))
cpio_loop (suc fuel) lossy process v before pos =
    with_header lossy process v before pos (at_io (read_full_at v 110 pos))
      (λ before' pos'. cpio_loop fuel lossy process v before' pos')

unfoldable pub cpio_ranged : (Bytes → Text) → Process → View → Walked
unfolding cpio_loop
cpio_ranged lossy process v = cpio_loop (v.len + 1) lossy process v [] 0
