-- ===== src/RangeStore.antt =====
-- src/range_store.rs: a sparse store of fetched byte ranges, read by a decoder that stops at the
-- first range it lacks.
--
-- The `BTreeMap` is the list of its entries in the order of the keys. The two mutexes are locked for
-- one access each; the store is passed on explicitly. The error of a miss carries no data. A `usize`
-- has `w` bits, 32 on the browser's target: a cast to it keeps the low ones, and so does a sum that
-- overflows, as built for release. A slice that ends in front of its start panics, and the operation
-- is `none`.
pub mod Retry
pub mod Cursor
mod Tests
use hashdex.Base.{
  ℕ, zero, suc, ◌+◌, ◌-◌, ◌*◌, ◌/◌, ◌%◌, ◌^◌, min, max, Bool, true, false, ◌||◌, not, Option, none,
  some, List, [], ◌∷◌, length, take, drop, leb, ltb, ◌==◌, if◌then◌else◌,
}
use hashdex.Base.Bytes.{Bytes}

-- Start and bytes, the starts ascending.
abbrev pub Ranges : Type 0
Ranges = List (ℕ × Bytes)

pub record RangeStore : Type 0 where
  pub len : ℕ
  pub fetch_block : ℕ
  pub ranges : Ranges
  pub miss : Option (ℕ × ℕ)

abbrev fetch_block_default : ℕ
fetch_block_default = 64 * 2 ^ 10

pub with_fetch_block : ℕ → ℕ → RangeStore
with_fetch_block len fetch_block = record {
  len = len;
  fetch_block = fetch_block;
  ranges = [];
  miss = none;
}

pub new : ℕ → RangeStore
new len = with_fetch_block len fetch_block_default

-- `BTreeMap::insert`: an entry of the same start is replaced.
pub put : Ranges → ℕ → Bytes → Ranges
put [] start bytes = (start, bytes) ∷ []
put ((s, b) ∷ rest) start bytes =
    let further = put rest start bytes in
    if ltb start s
    then (start, bytes) ∷ (s, b) ∷ rest
    else if s == start
    then (start, bytes) ∷ rest
    else (s, b) ∷ further

pub insert : RangeStore → ℕ → Bytes → RangeStore
insert st start bytes = record {
  len = st.len;
  fetch_block = st.fetch_block;
  ranges = put st.ranges start bytes;
  miss = st.miss;
}

pub take_miss : RangeStore → Option (ℕ × ℕ) × RangeStore
take_miss st = (
  st.miss,
  record { len = st.len; fetch_block = st.fetch_block; ranges = st.ranges; miss = none },
)

sum_lengths : Ranges → ℕ
sum_lengths [] = 0
sum_lengths ((s, b) ∷ rest) = length b + sum_lengths rest

pub bytes_held : RangeStore → ℕ
unfolding sum_lengths
bytes_held st = sum_lengths st.ranges

abbrev pub last_or : Option (ℕ × Bytes) → ℕ × Bytes → Option (ℕ × Bytes)
last_or none r = some r
last_or (some q) r = some q

-- The last range that starts at or before `start`.
pub last_range : Ranges → ℕ → Option (ℕ × Bytes)
last_range [] start = none
last_range ((s, b) ∷ rest) start =
    if leb s start then last_or (last_range rest start) (s, b) else none

-- `as usize`, of a `u64`.
abbrev pub as_usize : ℕ → ℕ → ℕ
as_usize w n = n % 2 ^ w

-- The bytes in a range, when it holds all of them.
abbrev pub held_at : ℕ → Bytes → ℕ → ℕ → Option (Option Bytes)
held_at w b off len =
    let stop = as_usize w (off + len) in
    if not (leb stop (length b))
    then some none
    else if leb off stop
    then some (some (take (stop - off) (drop off b)))
    else none

abbrev pub held_in : ℕ → Option (ℕ × Bytes) → ℕ → ℕ → Option (Option Bytes)
held_in w none start len = some none
held_in w (some (s, b)) start len = held_at w b (as_usize w (start - s)) len

pub cached : ℕ → RangeStore → ℕ → ℕ → Option (Option Bytes)
unfolding last_range
cached w st start len = held_in w (last_range st.ranges start) start len

-- The length that a miss asks for.
pub miss_length : ℕ → RangeStore → ℕ → ℕ → ℕ
miss_length w st start len = max (min (max len st.fetch_block) (as_usize w (st.len - start))) len

pub missed : ℕ → RangeStore → ℕ → ℕ → RangeStore
missed w st start len = record {
  len = st.len;
  fetch_block = st.fetch_block;
  ranges = st.ranges;
  miss = some (start, miss_length w st start len);
}

-- Bytes, or the error of a miss, which the store keeps.
abbrev or_missed :
    ℕ → RangeStore → ℕ → ℕ → Option (Option Bytes) → Option (Option Bytes × RangeStore)
or_missed w st start len none = none
or_missed w st start len (some none) = some (none, missed w st start len)
or_missed w st start len (some (some b)) = some (some b, st)

pub get_bytes : ℕ → RangeStore → ℕ → ℕ → Option (Option Bytes × RangeStore)
get_bytes w st start len =
    if len == 0 then some (some [], st) else or_missed w st start len (cached w st start len)

-- The halving loop of the cursor's `read`: the bytes of the first length that is held.
abbrev first_held : Option (Option Bytes) → Option (Option Bytes) → Option (Option Bytes)
first_held none later = none
first_held (some none) later = later
first_held (some (some b)) later = some (some b)

-- `none` without fuel too.
pub halving : ℕ → ℕ → RangeStore → ℕ → ℕ → Option (Option Bytes)
halving w zero st pos n = none
halving w (suc fuel) st pos n =
    let later = halving w fuel st pos (n / 2) in
    first_held (cached w st pos n) (if n / 2 == 0 then some none else later)

abbrev copied :
    ℕ → RangeStore → ℕ → ℕ → Option (Option Bytes) → Option (Option (Bytes × ℕ) × RangeStore)
copied w st pos avail none = none
copied w st pos avail (some none) = some (none, missed w st pos avail)
copied w st pos avail (some (some got)) = some (some (got, pos + length got), st)

-- The cursor's `read` at `pos` with room for `n`: the bytes, the place after them, the store. The
-- fuel of the loop is the length that it starts from.
pub read : ℕ → RangeStore → ℕ → ℕ → Option (Option (Bytes × ℕ) × RangeStore)
read w st pos n =
    let avail = as_usize w (min (st.len - pos) n) in
    if leb st.len pos || n == 0
    then some (some ([], pos), st)
    else copied w st pos avail (halving w avail st pos avail)
