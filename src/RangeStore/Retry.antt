-- ===== src/RangeStore/Retry.antt =====
-- src/range_store.rs: `cached` and `get_bytes` against the bytes of the remote file, and the fetch of the
-- range that a miss asks for.
use hashdex.Base.{
  ℕ, suc, ◌+◌, ◌-◌, ◌^◌, ◌≤◌, ◌<◌, min, Option, ◌≡◌, refl, sym, ap, ◌∙◌, ◌⊎◌, inl, inr, true, false,
  none, some, [], ◌∷◌, length, take, drop, leb, ltb, ◌==◌, arith, Bool-cases, Option-cases, leb→le,
}
use hashdex.Base.{length-drop, length-take}
use mathlib.Core.Option.{none-ne-some, some-injective}
use hashdex.Base.Bytes.{Bytes}
use native.Mathlib.Nat.{mod-eq_of_lt, mod-le, zero-mod}
use mathlib.Core.List.{append-nil}
use mathlib.Core.Path.{subst}
use hashdex.Base.Slices.{take-in_piece, take_at, drop_at, take-take}
use hashdex.RangeStore.{
  RangeStore, Ranges, as_usize, held_at, put, insert, last_or, last_range, held_in, cached,
  miss_length, missed, get_bytes,
}

-- A range that holds the bytes of the file from its start, none past the file's end.
abbrev pub Faithful : Bytes → ℕ × Bytes → Type 0
Faithful c (s, b) = (b ≡ take (length b) (drop s c)) × (s + length b ≤ length c)

-- Ranges that start at `low` or later, in order, and are faithful.
abbrev pub FaithfulFrom : Bytes → ℕ → Ranges → Type 0
FaithfulFrom c low [] = Unit
FaithfulFrom c low ((s, b) ∷ rest) = (low ≤ s) × Faithful c (s, b) × FaithfulFrom c (suc s) rest

abbrev pub IsStore : Bytes → RangeStore → Type 0
IsStore c st = (st.len ≡ length c) × FaithfulFrom c 0 st.ranges

put-FaithfulFrom :
    (c : Bytes) (low : ℕ) (rs : Ranges) (start : ℕ) (bytes : Bytes)
    → low ≤ start
    → Faithful c (start, bytes)
    → FaithfulFrom c low rs
    → FaithfulFrom c low (put rs start bytes)
unfolding put
put-FaithfulFrom c low [] start bytes le f h = (le, f, tt)
put-FaithfulFrom c low ((s, b) ∷ rest) start bytes le f (l, g, hs) =
    elim (Bool-cases (ltb start s)) [
      | inl p ↦ rw p (le, f, (ground arith, g, hs))
      | inr p ↦ elim (Bool-cases (s == start)) [
        | inl q ↦
            let same : s ≡ start = ground arith in
            rw (p, q) (le, f, subst (λ n. FaithfulFrom c (suc n) rest) same hs)
        | inr q ↦ rw (p, q) (l, g, put-FaithfulFrom c (suc s) rest start bytes (ground arith) f hs)
      ]
    ]

-- The range put last is the one found at its start.
last_range-above :
    (c : Bytes) (low : ℕ) (rs : Ranges) (start : ℕ)
    → FaithfulFrom c low rs
    → start < low
    → last_range rs start ≡ none
unfolding last_range
last_range-above c low [] start h lt = refl
last_range-above c low ((s, b) ∷ rest) start (l, g, hs) lt =
    let p : leb s start ≡ false = ground arith in rw p

last_range-put :
    (c : Bytes) (low : ℕ) (rs : Ranges) (start : ℕ) (bytes : Bytes)
    → FaithfulFrom c low rs
    → last_range (put rs start bytes) start ≡ some (start, bytes)
unfolding put last_range
last_range-put c low [] start bytes h = let p : leb start start ≡ true = ground arith in rw p
last_range-put c low ((s, b) ∷ rest) start bytes (l, g, hs) =
    let self : leb start start ≡ true = ground arith in
    elim (Bool-cases (ltb start s)) [
      | inl p ↦ let q : leb s start ≡ false = ground arith in rw (p, self, q)
      | inr p ↦ elim (Bool-cases (s == start)) [
        | inl q ↦ rw (p, q, self, last_range-above c (suc s) rest start hs (ground arith))
        | inr q ↦
            let r : leb s start ≡ true = ground arith in
            rw (p, q, r, last_range-put c (suc s) rest start bytes hs)
      ]
    ]

last_range-Faithful :
    (c : Bytes) (low : ℕ) (rs : Ranges) (start : ℕ) (r : ℕ × Bytes)
    → FaithfulFrom c low rs
    → last_range rs start ≡ some r
    → Faithful c r × (r.0 ≤ start)
unfolding last_range
last_range-Faithful c low [] start r h e = absurd (none-ne-some r e)
last_range-Faithful c low ((s, b) ∷ rest) start r (l, g, hs) e = elim (Bool-cases (leb s start)) [
  | inr p ↦ absurd (none-ne-some r (rw p at e))
  | inl p ↦
      let e' : last_or (last_range rest start) (s, b) ≡ some r = rw p at e in
      elim (Option-cases (last_range rest start)) [
        | inl q ↦
            let same : (s, b) ≡ r = some-injective (s, b) r (rw q at e') in
            subst (λ x. Faithful c x × (x.0 ≤ start)) same (g, leb→le s start p)
        | inr (r', q) ↦
            let same : r' ≡ r = some-injective r' r (rw q at e') in
            last_range-Faithful c (suc s) rest start r hs (q ∙ ap some same)
      ]
]

-- A read whose length is a `usize` and which ends less than 2^w behind the start of the last range
-- that starts at or before it: neither its offset in that range nor its end there overflows.
abbrev pub Near : ℕ → Option (ℕ × Bytes) → ℕ → ℕ → Type 0
Near w none start len = len < 2 ^ w
Near w (some (s, b)) start len = start - s + len < 2 ^ w

abbrev pub IsNear : ℕ → RangeStore → ℕ → ℕ → Type 0
IsNear w st start len = Near w (last_range st.ranges start) start len

pub Near-shorter :
    (w : ℕ) (o : Option (ℕ × Bytes)) (start len less : ℕ)
    → less ≤ len
    → Near w o start len
    → Near w o start less
Near-shorter w none start len less le n = omega arith
Near-shorter w (some (s, b)) start len less le n = omega arith

pub Near-usize : (w : ℕ) (o : Option (ℕ × Bytes)) (start len : ℕ) → Near w o start len → len < 2 ^ w
Near-usize w none start len n = n
Near-usize w (some (s, b)) start len n = omega arith

-- A miss, or the file's bytes, all of them within the file.
abbrev pub Fetched : Bytes → ℕ → ℕ → Option (Option Bytes) → Type 0
Fetched c start len got =
    (got ≡ some none) ⊎ ((got ≡ some (some (take len (drop start c)))) × (start + len ≤ length c))

held_at-Fetched :
    (w : ℕ) (c : Bytes) (s : ℕ) (b : Bytes) (start len : ℕ)
    → Faithful c (s, b)
    → s ≤ start
    → start - s + len < 2 ^ w
    → Fetched c start len (held_at w b (start - s) len)
held_at-Fetched w c s b start len (same, within) le near =
    let off = start - s in
    let whole : as_usize w (off + len) ≡ off + len = mod-eq_of_lt near in
    let ahead : leb off (off + len) ≡ true = ground arith in
    let size : off + len - off ≡ len = omega arith in
    elim (Bool-cases (leb (off + len) (length b))) [
      | inr p ↦ inl (rw (whole, p) refl)
      | inl p ↦
          let inside : off + len ≤ length b = leb→le (off + len) (length b) p in
          let bytes : take len (drop off b) ≡ take len (drop start c) =
            ap (λ t. take len (drop off t)) same
            ∙ ap (λ t. take len t) (sym (append-nil (drop off (take (length b) (drop s c)))))
            ∙ sym (take-in_piece len off s (length b) c [] (omega arith) within)
            ∙ ap (λ t. take len t) (drop_at (s + off) start c (omega arith)) in
          inr (rw (whole, p, ahead, size) (ap (λ t. some (some t)) bytes), omega arith)
    ]

-- Within the reach of a `usize`, nothing panics and only the file's bytes are found.
pub cached-Fetched :
    (w : ℕ) (c : Bytes) (st : RangeStore) (start len : ℕ)
    → IsStore c st
    → IsNear w st start len
    → Fetched c start len (cached w st start len)
unfolding cached
cached-Fetched w c st start len (l, h) near = elim (Option-cases (last_range st.ranges start)) [
  | inl q ↦ inl (rw q refl)
  | inr (r, q) ↦
      let (f, le) = last_range-Faithful c 0 st.ranges start r h q in
      let here : start - r.0 + len < 2 ^ w = subst (λ o. Near w o start len) q near in
      let low : as_usize w (start - r.0) ≡ start - r.0 = mod-eq_of_lt (omega (arith, here)) in
      rw (q, low) (held_at-Fetched w c r.0 r.1 start len f le here)
]

-- A store stays faithful when it is given bytes of the file.
pub insert-IsStore :
    (c : Bytes) (st : RangeStore) (start : ℕ) (bytes : Bytes)
    → IsStore c st
    → Faithful c (start, bytes)
    → IsStore c (insert st start bytes)
unfolding insert
insert-IsStore c st start bytes (l, h) f =
    (l, put-FaithfulFrom c 0 st.ranges start bytes (omega arith) f h)

cached-insert :
    (w : ℕ) (c : Bytes) (st : RangeStore) (start len : ℕ) (bytes : Bytes)
    → IsStore c st
    → len < 2 ^ w
    → len ≤ length bytes
    → cached w (insert st start bytes) start len ≡ some (some (take len bytes))
unfolding cached insert
cached-insert w c st start len bytes (l, h) small le =
    let p : leb len (length bytes) ≡ true = ground arith in
    let here : as_usize w (start - start) ≡ 0 = ap (as_usize w) (omega arith) ∙ zero-mod (2 ^ w) in
    let whole : as_usize w (0 + len) ≡ len = ap (as_usize w) (omega arith) ∙ mod-eq_of_lt small in
    let ahead : leb 0 len ≡ true = ground arith in
    let size : len - 0 ≡ len = omega arith in
    ap (λ o. held_in w o start len) (last_range-put c 0 st.ranges start bytes h)
    ∙ ap (λ off. held_at w bytes off len) here
    ∙ rw (whole, p, ahead, size) refl

-- The range that a miss asks for.
abbrev pub AsksFor : Bytes → ℕ → ℕ → ℕ → Type 0
AsksFor c start len n = (len ≤ n) × (start + n ≤ length c)

pub miss_length-AsksFor :
    (w : ℕ) (c : Bytes) (st : RangeStore) (start len : ℕ)
    → st.len ≡ length c
    → start + len ≤ length c
    → AsksFor c start len (miss_length w st start len)
unfolding miss_length
miss_length-AsksFor w c st start len l h =
    let cast = mod-le (st.len - start) (2 ^ w) in (omega arith, omega (arith, cast))

-- A read that misses, the range asked for, and the read again with that range fetched.
abbrev pub Retried : ℕ → Bytes → RangeStore → ℕ → ℕ → Type 0
Retried w c st start len =
    (n : ℕ) × (asked : RangeStore) × (get_bytes w st start len ≡ some (none, asked))
    × (asked.miss ≡ some (start, n))
    × AsksFor c start len n
    × (let filled = insert asked start (take n (drop start c)) in
        get_bytes w filled start len ≡ some (some (take len (drop start c)), filled))

missed_retry :
    (w : ℕ) (c : Bytes) (st : RangeStore) (start len : ℕ)
    → IsStore c st
    → len < 2 ^ w
    → 0 < len
    → start + len ≤ length c
    → cached w st start len ≡ some none
    → Retried w c st start len
unfolding get_bytes missed
missed_retry w c st start len h small room within q =
    let n = miss_length w st start len in
    let asks : AsksFor c start len n = miss_length-AsksFor w c st start len h.0 within in
    let more : (len == 0) ≡ false = ground arith in
    let fetched = take n (drop start c) in
    let size : length fetched ≡ n =
      omega (arith, length-take n (drop start c), length-drop start c, asks.0, asks.1) in
    let asked = missed w st start len in
    let again = cached-insert w c asked start len fetched h small (omega (arith, size, asks.0)) in
    let same : take len fetched ≡ take len (drop start c) =
      take-take len n (drop start c)
      ∙ take_at (min len n) len (drop start c) (omega (arith, asks.0)) in
    (
      n,
      asked,
      rw (more, q) refl,
      refl,
      asks,
      rw (more, again) (ap (λ t. some (some t, insert asked start fetched)) same),
    )

-- With a `usize` of w bits, on a store whose ranges are bytes of the file, a read of some bytes within
-- the file, whose length is a `usize` and which ends less than 2^w behind the start of the last range
-- that starts at or before it, returns the file's bytes; or it misses and asks for a range that starts
-- there, covers the read and stays within the file, and once that range is inserted the read returns
-- the file's bytes.
pub get_bytes-Retried :
    (w : ℕ) (c : Bytes) (st : RangeStore) (start len : ℕ)
    → IsStore c st
    → IsNear w st start len
    → 0 < len
    → start + len ≤ length c
    → (get_bytes w st start len ≡ some (some (take len (drop start c)), st))
      ⊎ Retried w c st start len
unfolding get_bytes
get_bytes-Retried w c st start len h near room within =
    let more : (len == 0) ≡ false = ground arith in
    let small = Near-usize w (last_range st.ranges start) start len near in
    elim (cached-Fetched w c st start len h near) [
      | inl q ↦ inr (missed_retry w c st start len h small room within q)
      | inr (q, inside) ↦ inl (rw (more, q) refl)
    ]
