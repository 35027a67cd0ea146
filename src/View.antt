-- ===== src/View.antt =====
-- src/peek_source.rs: byte sources read at offsets, and the windows (`View`) over them.
--
-- A buffer is the number of bytes it has room for, and a read returns the bytes that it puts
-- there. The read of an open file (`pread`, which the operating system answers) is a parameter
-- held by the source.
pub mod Window
pub mod Locate
pub mod Reads
pub mod Cursor
pub mod Slicing
pub mod Spool
mod Tests
use hashdex.Base.{
  ℕ, zero, suc, ◌+◌, ◌-◌, ◌*◌, ◌^◌, min, max, Bool, true, false, ◌||◌, Option, none, some, List, [],
  ◌∷◌, ◌++◌, length, take, drop, get_elem?, leb, ltb, ◌==◌, if◌then◌else◌,
}
use hashdex.Base.Bytes.{Bytes}
use hashdex.Base.Outcome.{Result, ok, err, ◌>>=◌}

-- `fault`: an index out of bounds, where the source panics.
pub data IoError : Type 0 where
  os : ℕ → IoError
  invalid_input fault : IoError

-- The reads of an open file: at an offset, with the room in the buffer.
abbrev pub Pread : Type 0
Pread = ℕ → ℕ → Result IoError Bytes

pub data PSource : Type 0 where
  file : Pread → PSource
  mem : Bytes → PSource

unfoldable pub read_at : PSource → ℕ → ℕ → Result IoError Bytes
read_at (file f) n off = f n off
read_at (mem m) n off =
    let start = min off (length m) in ok (take (min n (length m - start)) (drop start m))

-- (logical start, source offset, len)
pub record Extent : Type 0 where
  pub elog : ℕ
  pub eoff : ℕ
  pub elen : ℕ

-- A range of the source, or of a view: an offset and a length.
abbrev pub Range : Type 0
Range = ℕ × ℕ

pub record View : Type 0 where
  pub src : PSource
  pub extents : List Extent
  pub len : ℕ
  pub cursor : ℕ

-- The loop of `View::new`: the ranges that are not empty, with their logical starts.
unfoldable pub mapped : ℕ → List Range → List Extent
mapped logical [] = []
mapped logical ((off, zero) ∷ ranges) = mapped logical ranges
mapped logical ((off, suc k) ∷ ranges) =
    record { elog = logical; eoff = off; elen = suc k } ∷ mapped (logical + suc k) ranges

-- The sum that the same loop keeps.
unfoldable pub logical_len : List Range → ℕ
logical_len [] = 0
logical_len ((off, len) ∷ ranges) = len + logical_len ranges

unfoldable pub new : PSource → List Range → View
new src ranges = record {
  src = src;
  extents = mapped 0 ranges;
  len = logical_len ranges;
  cursor = 0;
}

unfoldable pub rewound : View → View
rewound v = record { src = v.src; extents = v.extents; len = v.len; cursor = 0 }

-- The inner loop of `slice`.
unfoldable pub slice_range : ℕ → ℕ → List Extent → List Range
slice_range want_start want_end [] = []
slice_range want_start want_end (e ∷ es) =
    if leb want_end want_start
    then []
    else if leb (e.elog + e.elen) want_start || leb want_end e.elog
    then slice_range want_start want_end es
    else (let from = max want_start e.elog in
        let to = min want_end (e.elog + e.elen) in
        (e.eoff + (from - e.elog), to - from) ∷ slice_range to want_end es)

abbrev pub saturating_add : ℕ → ℕ → ℕ
saturating_add a b = min (a + b) (2 ^ 64 - 1)

unfoldable pub slice_ranges : ℕ → List Extent → List Range → List Range
slice_ranges len es [] = []
slice_ranges len es ((lo, ln) ∷ ranges) =
    slice_range (min lo len) (min (saturating_add lo ln) len) es ++ slice_ranges len es ranges

unfoldable pub slice : View → List Range → View
slice v ranges = new v.src (slice_ranges v.len v.extents ranges)

-- `partition_point` of the extents that start at or before `pos`: how many lead the list.
unfoldable pub starting_by : List Extent → ℕ → ℕ
starting_by [] pos = 0
starting_by (e ∷ es) pos = if leb e.elog pos then suc (starting_by es pos) else 0

unfoldable read_extent : PSource → Option Extent → ℕ → ℕ → Result IoError Bytes
read_extent src none n at = err fault
read_extent src (some e) n at =
    let within = at - e.elog in read_at src (min (e.elen - within) n) (e.eoff + within)

unfoldable pub read_at_logical : View → ℕ → ℕ → Result IoError Bytes
unfolding read_extent
read_at_logical v n at =
    if leb v.len at || n == 0
    then ok []
    else read_extent v.src (get_elem? v.extents (starting_by v.extents at - 1)) n at

-- The loop of `read_full_at`, with room for `n` more bytes. `fuel` is the room that is left at the
-- start: a round that goes on has read something.
unfoldable pub read_full_loop : View → ℕ → ℕ → ℕ → Result IoError Bytes
read_full_loop v zero n off = ok []
read_full_loop v (suc fuel) n off =
    if n == 0
    then ok []
    else (read_at_logical v n off >>= λ got.
        if length got == 0
        then ok []
        else (read_full_loop v fuel (n - length got) (off + length got) >>= λ rest.
            ok (got ++ rest)))

unfoldable pub read_full_at : View → ℕ → ℕ → Result IoError Bytes
read_full_at v n off = read_full_loop v n n off

-- `Read for View`: the bytes, and the view with its cursor moved past them.
unfoldable pub read : View → ℕ → Result IoError (Bytes × View)
read v n = read_at_logical v n v.cursor >>= λ got.
    ok (
      got,
      record { src = v.src; extents = v.extents; len = v.len; cursor = v.cursor + length got },
    )

pub data SeekFrom : Type 0 where
  start : ℕ → SeekFrom
  end_forward end_back current_forward current_back : ℕ → SeekFrom

-- `checked_add_signed` of a number below 2^64, forward and back.
abbrev pub checked_add : ℕ → ℕ → Option ℕ
checked_add a d = if ltb (a + d) (2 ^ 64) then some (a + d) else none

abbrev pub checked_sub : ℕ → ℕ → Option ℕ
checked_sub a d = if leb d a then some (a - d) else none

unfoldable pub seek_target : View → SeekFrom → Option ℕ
seek_target v (start o) = some o
seek_target v (end_forward d) = checked_add v.len d
seek_target v (end_back d) = checked_sub v.len d
seek_target v (current_forward d) = checked_add v.cursor d
seek_target v (current_back d) = checked_sub v.cursor d

unfoldable moved_to : View → Option ℕ → Result IoError (ℕ × View)
moved_to v none = err invalid_input
moved_to v (some t) = ok (t, record { src = v.src; extents = v.extents; len = v.len; cursor = t })

unfoldable pub seek : View → SeekFrom → Result IoError (ℕ × View)
unfolding moved_to
seek v p = moved_to v (seek_target v p)
