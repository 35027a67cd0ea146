-- ===== src/View/Cursor.antt =====
-- src/peek_source.rs: `Read` and `Seek` for `View`, through its cursor.
use hashdex.Base.{
  ℕ, zero, suc, ◌+◌, ◌-◌, ◌^◌, ◌≤◌, ◌<◌, min, ◌≡◌, refl, sym, ap, ap₂, ◌∙◌, ◌⊎◌, inl, inr, none,
  some, List, [], ◌∷◌, ◌++◌, length, take, drop, arith, ltb, leb, Bool-cases, ltb→lt, not_ltb→le,
  leb→le, not_leb→lt,
}
use hashdex.Base.{length-append}
use hashdex.Base.Bytes.{Bytes}
use hashdex.Base.Outcome.{Result, ok, err, ◌>>=◌}
use hashdex.Base.Slices.{take-drop-take, drop-drop, take_at}
use hashdex.View.{
  View, IoError, invalid_input, SeekFrom, start, end_forward, end_back, current_forward,
  current_back, checked_add, checked_sub, read, seek, moved_to, seek_target,
}
use hashdex.View.Window.{IsView, view_bytes}
use hashdex.View.Reads.{read_at_logical-Reads}

-- Reads one after the other, with the room of each buffer.
pub read_each : View → List ℕ → Result IoError (Bytes × View)
read_each v [] = ok ([], v)
read_each v (n ∷ ns) = read v n >>= λ r. (read_each r.1 ns >>= λ q. ok (r.0 ++ q.0, q.1))

-- How many of the buffers have room.
abbrev pub with_room : List ℕ → ℕ
with_room [] = 0
with_room (zero ∷ ns) = with_room ns
with_room (suc n ∷ ns) = suc (with_room ns)

-- What successive reads from a cursor give, and where they leave it: each buffer with room takes a
-- byte at least, as long as there is one.
abbrev pub Contiguous : Bytes → View → List ℕ → Type 0
Contiguous c v ns =
    (got : Bytes) × (w : View) × (read_each v ns ≡ ok (got, w))
    × (got ≡ take (length got) (drop v.cursor (view_bytes c v)))
    × (min (with_room ns) (length (view_bytes c v) - v.cursor) ≤ length got)
    × (w.cursor ≡ v.cursor + length got)
    × (view_bytes c w ≡ view_bytes c v)

at_cursor : View → ℕ → View
at_cursor v t = record { src = v.src; extents = v.extents; len = v.len; cursor = t }

joined :
    (a b xs : Bytes) (at : ℕ)
    → a ≡ take (length a) (drop at xs)
    → b ≡ take (length b) (drop (at + length a) xs)
    → a ++ b ≡ take (length (a ++ b)) (drop at xs)
joined a b xs at p q =
    ap₂ (λ s t. s ++ t) p (q ∙ ap (λ t. take (length b) t) (sym (drop-drop (length a) at xs)))
    ∙ take-drop-take (length a) (length b) (drop at xs)
    ∙ take_at (length a + length b) (length (a ++ b)) (drop at xs)
        (omega (arith, length-append a b))

-- A read that takes a byte where there is room and one to take, in front of reads that do.
with_room-progress :
    (ns : List ℕ) (n a b rest : ℕ)
    → (0 < n → 0 < rest → 0 < a)
    → min (with_room ns) (rest - a) ≤ b
    → min (with_room (n ∷ ns)) rest ≤ a + b
with_room-progress ns zero a b rest some_read h = omega arith
with_room-progress ns (suc n) a b zero some_read h = omega arith
with_room-progress ns (suc n) a b (suc rest) some_read h =
    let one = some_read (omega arith) (omega arith) in omega arith

read_each-Contiguous : (c : Bytes) (v : View) → IsView c v → (ns : List ℕ) → Contiguous c v ns
unfolding read_each read at_cursor
read_each-Contiguous c v ok_view [] = ([], v, refl, refl, omega arith, omega arith, refl)
read_each-Contiguous c v ok_view (n ∷ ns) =
    let (a, run, (prefix, short, some_read)) = read_at_logical-Reads c v ok_view n v.cursor in
    let moved = at_cursor v (v.cursor + length a) in
    let (b, w, runs, next, more, at, same) = read_each-Contiguous c moved ok_view ns in
    let left = length (view_bytes c v) - v.cursor in
    let progress =
      with_room-progress ns n (length a) (length b) left (λ room rest. some_read room (omega arith))
        (omega arith) in
    (
      a ++ b,
      w,
      rw (run, runs),
      joined a b (view_bytes c v) v.cursor prefix next,
      omega (arith, length-append a b, progress),
      omega (arith, length-append a b),
      same,
    )

-- The place that a seek names, counted from the start, the end or the cursor. What is counted from the
-- start is a `u64`.
abbrev pub Names : View → SeekFrom → ℕ → Type 0
Names v (start o) t = t ≡ o
Names v (end_forward d) t = (t ≡ v.len + d) × (t < 2 ^ 64)
Names v (end_back d) t = t + d ≡ v.len
Names v (current_forward d) t = (t ≡ v.cursor + d) × (t < 2 ^ 64)
Names v (current_back d) t = t + d ≡ v.cursor

-- It names none: the place is at 2^64 or behind it, or in front of the start.
abbrev pub NamesNone : View → SeekFrom → Type 0
NamesNone v (start o) = ⊥
NamesNone v (end_forward d) = 2 ^ 64 ≤ v.len + d
NamesNone v (end_back d) = v.len < d
NamesNone v (current_forward d) = 2 ^ 64 ≤ v.cursor + d
NamesNone v (current_back d) = v.cursor < d

-- Where a seek ends, and what is read from there.
abbrev pub Sought : Bytes → View → SeekFrom → List ℕ → ℕ → Type 0
Sought c v p ns t =
    (w : View) × (seek v p ≡ ok (t, w))
    × Names v p t
    × (w.cursor ≡ t)
    × (view_bytes c w ≡ view_bytes c v)
    × Contiguous c w ns

seek_target_forward :
    (a d : ℕ)
    → ((t : ℕ) × (checked_add a d ≡ some t) × ((t ≡ a + d) × (t < 2 ^ 64)))
      ⊎ ((checked_add a d ≡ none) × (2 ^ 64 ≤ a + d))
seek_target_forward a d = elim (Bool-cases (ltb (a + d) (2 ^ 64))) [
  | inl p ↦ inl (a + d, rw p refl, (refl, ltb→lt (a + d) (2 ^ 64) p))
  | inr p ↦ inr (rw p refl, not_ltb→le (a + d) (2 ^ 64) p)
]

seek_target_back :
    (a d : ℕ)
    → ((t : ℕ) × (checked_sub a d ≡ some t) × (t + d ≡ a)) ⊎ ((checked_sub a d ≡ none) × (a < d))
seek_target_back a d = elim (Bool-cases (leb d a)) [
  | inl p ↦ let le = leb→le d a p in inl (a - d, rw p refl, omega arith)
  | inr p ↦ inr (rw p refl, not_leb→lt d a p)
]

seek_target-Names :
    (v : View) (p : SeekFrom)
    → ((t : ℕ) × (seek_target v p ≡ some t) × Names v p t)
      ⊎ ((seek_target v p ≡ none) × NamesNone v p)
unfolding seek_target
seek_target-Names v (start o) = inl (o, refl, refl)
seek_target-Names v (end_forward d) = seek_target_forward v.len d
seek_target-Names v (end_back d) = seek_target_back v.len d
seek_target-Names v (current_forward d) = seek_target_forward v.cursor d
seek_target-Names v (current_back d) = seek_target_back v.cursor d

-- A seek of a well-formed view ends at the place that it names, counted from the start, the end or the
-- cursor, and successive reads from there, whatever their buffers, give what follows, without a gap or
-- a repetition, and at least a byte for each buffer with room while there are any; a seek counted from
-- the end or the cursor to a place in front of the start, or not below 2^64, is an error.
pub seek-Contiguous :
    (c : Bytes) (v : View)
    → IsView c v
    → (p : SeekFrom) (ns : List ℕ)
    → ((t : ℕ) × Sought c v p ns t) ⊎ (NamesNone v p × (seek v p ≡ err invalid_input))
unfolding seek moved_to at_cursor
seek-Contiguous c v ok_view p ns = elim (seek_target-Names v p) [
  | inl (t, h, names) ↦
      let w = at_cursor v t in
      inl (t, (w, rw h refl, names, refl, refl, read_each-Contiguous c w ok_view ns))
  | inr (h, none_named) ↦ inr (none_named, rw h refl)
]
