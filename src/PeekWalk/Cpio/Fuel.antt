-- ===== src/PeekWalk/Cpio/Fuel.antt =====
-- src/peek_walk.rs: the loop of `cpio_ranged` ends, on any bytes.
use hashdex.Base.{
  ℕ, zero, suc, ◌+◌, ◌-◌, ◌≤◌, ◌<◌, min, ◌≡◌, refl, ap, ◌∙◌, inl, inr, not, ◌&&◌, Option, none,
  some, List, [], ◌∷◌, ◌++◌, length, take, drop, ltb, arith, Bool-cases, not_ltb→le, length-take,
  length-drop,
}
use mathlib.Core.Option.{some-injective}
use hashdex.Base.Bytes.{Bytes}
use hashdex.Base.Outcome.{Result, ok, err, >>=-eq-ok, ok-injective, Result-cases}
use hashdex.Base.Text.{Text, codes, text_eq}
use hashdex.View.{View, read_full_at}
use hashdex.View.Window.{IsView, view_bytes}
use hashdex.View.Reads.{read_full_at-take, length-view_bytes}
use hashdex.PeekWalk.{has_prefix}
use hashdex.PeekWalk.Cpio.{
  WalkError, name_truncated, CpioHeader, Child, Process, Walked, round4, hexfield, name_padded,
  cpio_header, read_name_at, at_io, header_step, member_step, attend, data_child, is_regular,
  cpio_loop, cpio_ranged,
}

read_name_at-after :
    (v : View) (off n : ℕ) (raw : Bytes) (after : ℕ)
    → read_name_at v off n ≡ ok (raw, after)
    → off ≤ after
unfolding read_name_at
read_name_at-after v off n raw after h =
    let (got, run, e) = >>=-eq-ok (at_io (read_full_at v n off)) _ (raw, after) h in
    elim (Bool-cases (ltb (length got) n)) [
      | inl p ↦
          let bad : Path (Result WalkError (Bytes × ℕ)) (err name_truncated) (ok (raw, after)) =
            rw p at e in
          cc
      | inr p ↦
          let same = ok-injective (got, off + length got) (raw, after) (rw p at e) in
          let end : off + length got ≡ after = ap (λ t. t.1) same in omega arith
    ]

-- A header that is read tells an offset behind its name.
cpio_header-after :
    (lossy : Bytes → Text) (hdr : Bytes) (read_name : ℕ → Result WalkError (Bytes × ℕ))
    (h : CpioHeader)
    → cpio_header lossy hdr read_name ≡ ok (some h)
    → (n : ℕ) × (raw : Bytes) × (read_name n ≡ ok (raw, h.after))
unfolding cpio_header
cpio_header-after lossy hdr read_name h e =
    elim (Bool-cases
      (not (has_prefix (codes "070701") hdr) && not (has_prefix (codes "070702") hdr))) [
        | inl p ↦
            let bad : Path (Result WalkError (Option CpioHeader)) (ok none) (ok (some h)) =
              rw p at e in
            cc
        | inr p ↦
            let (mode, _, e1) = >>=-eq-ok (hexfield hdr 1) _ (some h) (rw p at e) in
            let (size, _, e2) = >>=-eq-ok (hexfield hdr 6) _ (some h) e1 in
            let (namesize, _, e3) = >>=-eq-ok (hexfield hdr 11) _ (some h) e2 in
            let ((raw, after), run, e4) =
              >>=-eq-ok (read_name (name_padded namesize)) _ (some h) e3 in
            let same = some-injective _ h (ok-injective _ (some h) e4) in
            let end : after ≡ h.after = ap (λ (x : CpioHeader). x.after) same in
            (name_padded namesize, raw, run ∙ ap (λ k. ok (raw, k)) end)
      ]

-- Two ways to go on that agree from an offset.
abbrev AgreeFrom : ℕ → (List Child → ℕ → Walked) → (List Child → ℕ → Walked) → Type 0
AgreeFrom least f g = (before : List Child) (pos : ℕ) → least ≤ pos → f before pos ≡ g before pos

member_step-AgreeFrom :
    (process : Process) (v : View) (before : List Child) (h : CpioHeader)
    (f g : List Child → ℕ → Walked)
    → AgreeFrom h.after f g
    → member_step process v before h f ≡ member_step process v before h g
unfolding member_step
member_step-AgreeFrom process v before h f g agree =
    let pos = h.after + h.filesize + (round4 h.filesize - h.filesize) in
    let child = data_child v h in
    let with_child = agree (before ++ child ∷ []) pos (omega arith) in
    let without = agree before pos (omega arith) in
    elim (Bool-cases (text_eq h.name (codes "TRAILER!!!"))) [
      | inl p ↦ rw p refl
      | inr p ↦ elim (Bool-cases (is_regular h.mode)) [
        | inl q ↦ rw (p, q) (ap (attend process before child) with_child)
        | inr q ↦ rw (p, q) without
      ]
    ]

module _ (lossy : Bytes → Text) (process : Process) (c : Bytes) (v : View)
    (ok_view : IsView c v) where
  header_step-AgreeFrom :
      (before : List Child) (hdr : Bytes) (off : ℕ) (f g : List Child → ℕ → Walked)
      → AgreeFrom off f g
      → header_step process v before (cpio_header lossy hdr (read_name_at v off)) f
        ≡ header_step process v before (cpio_header lossy hdr (read_name_at v off)) g
  header_step-AgreeFrom before hdr off f g agree =
      elim (Result-cases (cpio_header lossy hdr (read_name_at v off))) [
        | inr (e, q) ↦ rw q refl
        | inl (none, q) ↦ rw q refl
        | inl (some h, q) ↦
            let (n, raw, run) = cpio_header-after lossy hdr (read_name_at v off) h q in
            let behind = read_name_at-after v off n raw h.after run in
            rw q (member_step-AgreeFrom process v before h f g (λ b p le. agree b p (omega arith)))
      ]

  -- Each turn that goes on has read a header.
  cpio_loop-fuel :
      (fuel more : ℕ) (before : List Child) (pos : ℕ)
      → v.len < pos + fuel
      → v.len < pos + more
      → 0 < fuel
      → 0 < more
      → cpio_loop fuel lossy process v before pos ≡ cpio_loop more lossy process v before pos
  unfolding cpio_loop
  cpio_loop-fuel zero more before pos a b p q = absurd (omega arith)
  cpio_loop-fuel (suc fuel) zero before pos a b p q = absurd (omega arith)
  cpio_loop-fuel (suc fuel) (suc more) before pos a b p q =
      let hdr = take 110 (drop pos (view_bytes c v)) in
      let size : length hdr ≡ min 110 (v.len - pos) = omega (
        arith,
        length-take 110 (drop pos (view_bytes c v)),
        length-drop pos (view_bytes c v),
        length-view_bytes c v ok_view,
      ) in
      elim (Bool-cases (ltb (length hdr) 110)) [
        | inl s ↦ rw (read_full_at-take c v ok_view 110 pos, s) refl
        | inr s ↦
            let long = not_ltb→le (length hdr) 110 s in
            let whole : pos + 110 ≤ v.len = omega arith in
            rw (read_full_at-take c v ok_view 110 pos, s)
              (header_step-AgreeFrom before hdr (pos + 110)
                (λ b' p'. cpio_loop fuel lossy process v b' p')
                (λ b' p'. cpio_loop more lossy process v b' p')
                (λ b' p' le.
                  cpio_loop-fuel fuel more b' p' (omega arith) (omega arith) (omega arith)
                    (omega arith)))
      ]

-- On a well-formed view of a source that serves its contents, whatever its bytes are, the walk does not
-- run out of fuel: its loop tells the same on any fuel greater than the view's length.
pub cpio_loop-cpio_ranged :
    (lossy : Bytes → Text) (process : Process) (c : Bytes) (v : View) (fuel : ℕ)
    → IsView c v
    → v.len < fuel
    → cpio_loop fuel lossy process v [] 0 ≡ cpio_ranged lossy process v
unfolding cpio_ranged
cpio_loop-cpio_ranged lossy process c v fuel ok_view h =
    cpio_loop-fuel lossy process c v ok_view fuel (v.len + 1) [] 0 (omega arith) (omega arith)
      (omega arith) (omega arith)
