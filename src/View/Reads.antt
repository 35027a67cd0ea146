-- ===== src/View/Reads.antt =====
-- src/peek_source.rs: what `read_at_logical`, `read_full_at` and `read` put in the buffer.
use hashdex.Base.{
  ℕ, zero, suc, ◌+◌, ◌-◌, ◌≤◌, ◌<◌, min, ◌≡◌, refl, sym, ap, ap₂, ◌∙◌, inl, inr, true, false, ◌||◌,
  [], ◌++◌, length, take, drop, leb, ◌==◌, arith, Bool-cases, leb→le, not_leb→lt,
}
use hashdex.Base.Bytes.{Bytes}
use hashdex.Base.Outcome.{ok}
use hashdex.Base.Slices.{
  take-in_piece, take_at, drop_at, drop-drop, drop-all, take-all, take-drop-take,
}
use hashdex.View.{View, read_extent, read_at_logical, read_full_loop, read_full_at}
use hashdex.View.Window.{IsView, view_bytes, length-extent_bytes}
use hashdex.View.Locate.{locate}

pub length-view_bytes : (c : Bytes) (v : View) → IsView c v → length (view_bytes c v) ≡ v.len
length-view_bytes c v (s, t, l, w) = length-extent_bytes c v.extents w ∙ sym l

-- A read of a view at an offset: like a read of its bytes, possibly short, never empty unless it
-- must be.
abbrev pub Reads : Bytes → ℕ → ℕ → Bytes → Type 0
Reads bs n off got =
    (got ≡ take (length got) (drop off bs))
    × (length got ≤ n)
    × (0 < n → off < length bs → 0 < length got)

module _ (bs : Bytes) (n off : ℕ) (got : Bytes) (h : Reads bs n off got) where
  nothing_left : 0 < n → (length got == 0) ≡ true → [] ≡ take n (drop off bs)
  nothing_left room p =
      let (prefix, short, some_read) = h in
      let past : length bs ≤ off = elim (Bool-cases (leb (length bs) off)) [
        | inl q ↦ leb→le (length bs) off q
        | inr q ↦
            let left : 0 < length got = some_read room (not_leb→lt (length bs) off q) in
            ground arith
      ] in
      sym (ap (λ t. take n t) (drop-all off bs past) ∙ take-all n [] (omega arith))

  then_rest : got ++ take (n - length got) (drop (off + length got) bs) ≡ take n (drop off bs)
  then_rest =
      let (prefix, short, some_read) = h in
      let k = length got in
      ap₂ (λ s t. s ++ take (n - k) t) prefix (sym (drop-drop k off bs))
      ∙ take-drop-take k (n - k) (drop off bs)
      ∙ take_at (k + (n - k)) n (drop off bs) (omega arith)

module _ (c : Bytes) (v : View) (ok_view : IsView c v) where
  read_inside :
      (n at : ℕ)
      → 0 < n
      → at < v.len
      → (got : Bytes) × (read_at_logical v n at ≡ ok got) × Reads (view_bytes c v) n at got
  unfolding read_at_logical read_extent
  read_inside n at room lt =
      let (s, t, l, w) = ok_view in
      let (e, rest, found, below, above, inside, same) =
        locate c 0 v.extents at t w (omega arith) (omega (arith, l)) in
      let within = at - e.elog in
      let avail = min (e.elen - within) n in
      let (got, run, prefix, short, some_read) = s avail (e.eoff + within) in
      let guard : (leb v.len at || n == 0) ≡ false = ground arith in
      let cut : got ≡ take (length got) (drop at (view_bytes c v)) =
        prefix
        ∙ take-in_piece (length got) within e.eoff e.elen c rest (omega arith) inside
        ∙ ap (λ u. take (length got) u)
            (sym same ∙ drop_at (at - 0) at (view_bytes c v) (omega arith)) in
      (got, rw (guard, found) run, (cut, omega arith, λ p q. some_read (omega arith) (omega arith)))

  read_outside :
      (n at : ℕ)
      → (leb v.len at || n == 0) ≡ true
      → (got : Bytes) × (read_at_logical v n at ≡ ok got) × Reads (view_bytes c v) n at got
  unfolding read_at_logical
  read_outside n at guard =
      let size : length (view_bytes c v) ≡ v.len = length-view_bytes c v ok_view in
      ([], rw guard, (refl, omega arith, λ p q. ground (arith, size)))

  -- Every read of a view serves the view's bytes, so a view is again a source.
  pub read_at_logical-Reads :
      (n at : ℕ)
      → (got : Bytes) × (read_at_logical v n at ≡ ok got) × Reads (view_bytes c v) n at got
  read_at_logical-Reads n at = elim (Bool-cases (leb v.len at || n == 0)) [
    | inl p ↦ read_outside n at p
    | inr p ↦ read_inside n at (ground arith) (ground arith)
  ]

  pub read_full_loop-take :
      (fuel n off : ℕ)
      → n ≤ fuel
      → read_full_loop v fuel n off ≡ ok (take n (drop off (view_bytes c v)))
  unfolding read_full_loop
  read_full_loop-take zero zero off h = refl
  read_full_loop-take (suc fuel) zero off h = refl
  read_full_loop-take zero (suc n) off h = absurd (omega arith)
  read_full_loop-take (suc fuel) (suc n) off h =
      let (got, run, reads) = read_at_logical-Reads (suc n) off in
      let room : (suc n == 0) ≡ false = ground arith in
      elim (Bool-cases (length got == 0)) [
        | inl p ↦
            rw (room, run, p)
              (ap ok (nothing_left (view_bytes c v) (suc n) off got reads (omega arith) p))
        | inr p ↦
            let rest =
              read_full_loop-take fuel (suc n - length got) (off + length got) (ground arith) in
            rw (room, run, p, rest) (ap ok (then_rest (view_bytes c v) (suc n) off got reads))
      ]

  -- On a well-formed view of a source that serves its contents, however short its reads,
  -- `read_full_at` returns exactly the bytes of the view at the offset, as many as there is room for
  -- or the view still has.
  pub read_full_at-take :
      (n off : ℕ) → read_full_at v n off ≡ ok (take n (drop off (view_bytes c v)))
  unfolding read_full_at
  read_full_at-take n off = read_full_loop-take n n off (omega arith)
