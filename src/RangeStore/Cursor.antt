-- ===== src/RangeStore/Cursor.antt =====
-- src/range_store.rs: the cursor's `read`, which serves what the store holds of the range.
use hashdex.Base.{
  ℕ, zero, suc, ◌+◌, ◌-◌, ◌/◌, ◌≤◌, ◌<◌, min, ◌≡◌, refl, sym, ap, ◌∙◌, ◌⊎◌, Option, inl, inr, false,
  ◌||◌, none, some, length, take, drop, leb, ◌==◌, arith, Bool-cases,
}
use hashdex.Base.{length-drop, length-take}
use hashdex.Base.Bytes.{Bytes}
use hashdex.Base.Slices.{take_at}
use native.Mathlib.Nat.{mod-eq_of_lt}
use hashdex.RangeStore.{
  RangeStore, as_usize, last_range, cached, halving, missed, miss_length, read,
}
use hashdex.RangeStore.Retry.{
  IsStore, IsNear, Near-shorter, AsksFor, Near-usize, cached-Fetched, miss_length-AsksFor,
}

-- Some bytes of the file at `pos`, at most `n`.
abbrev pub Served : Bytes → ℕ → ℕ → Bytes → Type 0
Served c pos n got = (got ≡ take (length got) (drop pos c)) × (0 < length got) × (length got ≤ n)

-- A loop within the reach of a `usize`, with fuel for its length, does not panic: it finds some of the
-- file's bytes, or it misses because the single byte at `pos` is not held either.
abbrev Halved : ℕ → Bytes → RangeStore → ℕ → ℕ → Option (Option Bytes) → Type 0
Halved w c st pos n r =
    ((got : Bytes) × (r ≡ some (some got)) × Served c pos n got)
    ⊎ ((r ≡ some none) × (cached w st pos 1 ≡ some none))

take-Served :
    (c : Bytes) (pos n : ℕ) → 0 < n → pos + n ≤ length c → Served c pos n (take n (drop pos c))
take-Served c pos n room within =
    let size : length (take n (drop pos c)) ≡ n =
      length-take n (drop pos c) ∙ ap (λ t. min n t) (length-drop pos c) ∙ omega arith in
    (take_at n _ (drop pos c) (sym size), omega arith, omega arith)

halving-Halved :
    (w : ℕ) (c : Bytes) (st : RangeStore) (fuel pos n : ℕ)
    → IsStore c st
    → IsNear w st pos n
    → 0 < n
    → n ≤ fuel
    → Halved w c st pos n (halving w fuel st pos n)
unfolding halving
halving-Halved w c st zero pos n h near room le = absurd (omega arith)
halving-Halved w c st (suc fuel) pos n h near room le = elim (cached-Fetched w c st pos n h near) [
  | inr (q, within) ↦ inl (take n (drop pos c), rw q refl, take-Served c pos n room within)
  | inl q ↦ elim (Bool-cases (n / 2 == 0)) [
    | inl p ↦ let one : n ≡ 1 = ground arith in inr (rw (q, p) refl, rw one at q)
    | inr p ↦
        let closer = Near-shorter w (last_range st.ranges pos) pos n (n / 2) (omega arith) near in
        rw (q, p)
          (elim (halving-Halved w c st fuel pos (n / 2) h closer (ground arith) (ground arith)) [
            | inl (got, r, (same, positive, short)) ↦ inl (got, r, (same, positive, omega arith))
            | inr r ↦ inr r
          ])
  ]
]

-- A read that misses: the byte at its place is not held, and the range asked for starts there and
-- stays within the file.
abbrev pub Misses : ℕ → Bytes → RangeStore → ℕ → ℕ → Type 0
Misses w c st pos n =
    (m : ℕ) × (asked : RangeStore) × (read w st pos n ≡ some (none, asked))
    × (asked.miss ≡ some (pos, m))
    × (cached w st pos 1 ≡ some none)
    × AsksFor c pos (min (length c - pos) n) m

-- With a `usize` of w bits, on a store whose ranges are bytes of the file, a read before its end with
-- some room, which ends less than 2^w behind the start of the last range that starts at or before it,
-- or takes less than 2^w bytes where there is none, returns some of the file's bytes there, as many as
-- it moves on by; or the byte at its place is not held, and it asks for a range that starts there and
-- stays within the file.
pub read-Served :
    (w : ℕ) (c : Bytes) (st : RangeStore) (pos n : ℕ)
    → IsStore c st
    → IsNear w st pos (min (st.len - pos) n)
    → 0 < n
    → pos < length c
    → ((got : Bytes) × (read w st pos n ≡ some (some (got, pos + length got), st))
        × Served c pos n got)
      ⊎ Misses w c st pos n
unfolding read missed
read-Served w c st pos n (l, h) near room lt =
    let inside : (leb st.len pos || n == 0) ≡ false = ground arith in
    let avail = min (st.len - pos) n in
    let cast : as_usize w avail ≡ avail =
      mod-eq_of_lt (Near-usize w (last_range st.ranges pos) pos avail near) in
    elim (halving-Halved w c st avail pos avail (l, h) near (omega arith) (omega arith)) [
      | inl (got, q, (same, positive, short)) ↦
          inl (got, rw (cast, inside, q) refl, (same, positive, omega arith))
      | inr (q, single) ↦
          let (a, b) = miss_length-AsksFor w c st pos avail l (omega arith) in
          inr (
            miss_length w st pos avail,
            missed w st pos avail,
            rw (cast, inside, q) refl,
            refl,
            single,
            (omega arith, b),
          )
    ]
