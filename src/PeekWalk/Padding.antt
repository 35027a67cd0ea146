-- ===== src/PeekWalk/Padding.antt =====
-- src/peek_walk.rs: `first_nonzero`, the end of zero padding.
use hashdex.Base.{
  ℕ, zero, suc, ◌+◌, ◌-◌, ◌≤◌, ◌<◌, min, ◌≡◌, refl, sym, ap, ◌∙◌, inl, inr, false, Option, none,
  some, [], ◌∷◌, ◌++◌, length, take, drop, ltb, ◌==◌, if◌then◌else◌, arith, Bool-cases, length-take,
  length-drop, take-append-drop,
}
use hashdex.Base.Bytes.{Bytes}
use hashdex.Base.Outcome.{Result, ok, ◌>>=◌}
use hashdex.Base.Slices.{drop-all, drop-drop, drop_at}
use hashdex.View.{View, IoError, read_full_at}
use hashdex.View.Window.{IsView, view_bytes}
use hashdex.View.Reads.{read_full_at-take, length-view_bytes}

-- `position` of the first byte that is not 0, in a buffer that starts at an offset.
unfoldable pub nonzero_from : ℕ → Bytes → Option ℕ
nonzero_from off [] = none
nonzero_from off (b ∷ bs) =
    let rest = nonzero_from (off + 1) bs in if b == 0 then rest else some off

abbrev pub block : ℕ
block = 65536

abbrev or_next : Option ℕ → Result IoError (Option ℕ) → Result IoError (Option ℕ)
or_next (some at) next = ok (some at)
or_next none next = next

-- The loop, on fuel: a turn that does not end reads a byte at least.
unfoldable pub nonzero_loop : ℕ → View → ℕ → Result IoError (Option ℕ)
unfolding read_full_at nonzero_from
nonzero_loop zero v pos = ok none
nonzero_loop (suc fuel) v pos =
    if ltb pos v.len
    then (read_full_at v (min (v.len - pos) block) pos >>= λ got.
        let next = nonzero_loop fuel v (pos + length got) in
        if length got == 0 then ok none else or_next (nonzero_from pos got) next)
    else ok none

unfoldable pub first_nonzero : View → ℕ → Result IoError (Option ℕ)
unfolding nonzero_loop
first_nonzero v from = nonzero_loop (v.len - from + 1) v from

or_else : Option ℕ → Option ℕ → Option ℕ
or_else (some a) o = some a
or_else none o = o

nonzero_from-append :
    (off : ℕ) (a b : Bytes)
    → nonzero_from off (a ++ b) ≡ or_else (nonzero_from off a) (nonzero_from (off + length a) b)
unfolding nonzero_from or_else
nonzero_from-append off [] b = ap (λ o. nonzero_from o b) (omega arith)
nonzero_from-append off (c ∷ cs) b = elim (Bool-cases (c == 0)) [
  | inl t ↦ rw t (
      nonzero_from-append (off + 1) cs b
      ∙ ap (λ o. or_else (nonzero_from (off + 1) cs) (nonzero_from o b)) (omega arith))
  | inr t ↦ rw t refl
]

or_next_lem :
    (o rest : Option ℕ) (next : Result IoError (Option ℕ))
    → next ≡ ok rest
    → or_next o next ≡ ok (or_else o rest)
unfolding or_else
or_next_lem (some a) rest next h = refl
or_next_lem none rest next h = h

module _ (c : Bytes) (v : View) (ok_view : IsView c v) where
  past : (pos : ℕ) → v.len ≤ pos → nonzero_from pos (drop pos (view_bytes c v)) ≡ none
  unfolding nonzero_from
  past pos h =
      ap (nonzero_from pos)
        (drop-all pos (view_bytes c v) (omega (arith, length-view_bytes c v ok_view)))

  nonzero_loop_lem :
      (fuel pos : ℕ)
      → v.len < pos + fuel
      → nonzero_loop fuel v pos ≡ ok (nonzero_from pos (drop pos (view_bytes c v)))
  unfolding nonzero_loop
  nonzero_loop_lem zero pos h = ap ok (sym (past pos (omega arith)))
  nonzero_loop_lem (suc fuel) pos h = elim (Bool-cases (ltb pos v.len)) [
    | inr p ↦ rw p (ap ok (sym (past pos (ground arith))))
    | inl p ↦
        let n = min (v.len - pos) block in
        let bs = drop pos (view_bytes c v) in
        let got = take n bs in
        let size : length got ≡ n = omega (
          arith,
          length-take n bs,
          length-drop pos (view_bytes c v),
          length-view_bytes c v ok_view,
        ) in
        let some_read : (length got == 0) ≡ false = ground arith in
        let rest : nonzero_loop fuel v (pos + length got)
            ≡ ok (nonzero_from (pos + length got) (drop n bs)) =
          nonzero_loop_lem fuel (pos + length got) (ground arith)
          ∙ ap (λ t. ok (nonzero_from (pos + length got) t))
              (drop_at _ _ (view_bytes c v) (omega arith)
                ∙ sym (drop-drop n pos (view_bytes c v))) in
        rw (p, read_full_at-take c v ok_view n pos, some_read)
          (or_next_lem (nonzero_from pos got) (nonzero_from (pos + length got) (drop n bs)) _ rest
            ∙ ap ok (
                sym (nonzero_from-append pos got (drop n bs))
                ∙ ap (nonzero_from pos) (take-append-drop n bs)))
  ]

  -- On a well-formed view of a source that serves its contents, `first_nonzero` finds the first byte
  -- at or behind the offset that is not 0, or that there is none.
  pub first_nonzero-nonzero_from :
      (from : ℕ) → first_nonzero v from ≡ ok (nonzero_from from (drop from (view_bytes c v)))
  unfolding first_nonzero
  first_nonzero-nonzero_from from = nonzero_loop_lem (v.len - from + 1) from (omega arith)
