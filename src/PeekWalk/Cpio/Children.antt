-- ===== src/PeekWalk/Cpio/Children.antt =====
-- src/peek_walk.rs: the children that `cpio_ranged` finds in an archive.
use hashdex.Base.{
  ℕ, zero, suc, ◌+◌, ◌-◌, ◌^◌, ◌≤◌, ◌<◌, ◌≡◌, refl, sym, ap, ap₂, ◌∙◌, inl, inr, true, false, none,
  List, [], ◌∷◌, ◌++◌, length, drop, replicate, map, All, if◌then◌else◌, arith, length-append,
  length-replicate, length-drop, Bool-cases,
}
use mathlib.Core.List.{append_assoc, append-nil}
use hashdex.Base.Bytes.{Bytes}
use hashdex.Base.Outcome.{ok}
use hashdex.Base.Text.{Text}
use hashdex.View.{View}
use hashdex.View.Window.{IsView, view_bytes}
use hashdex.View.Reads.{length-view_bytes}
use hashdex.PeekWalk.Padding.{nonzero_from, first_nonzero, first_nonzero-nonzero_from}
use hashdex.PeekWalk.Cpio.{
  Child, Process, Walked, round4, at_io, member_step, attend, tail_child, rest_child, data_child,
  cpio_tail, is_regular, cpio_loop, cpio_ranged,
}
use hashdex.PeekWalk.Cpio.Fields.{
  Stored, IsStored, header_bytes, data_field, length-header_bytes, header_of,
}
use hashdex.PeekWalk.Cpio.Archive.{
  members_bytes, archive_bytes, IsTrailer, IsMember, files_of, tail_files, Unpadded, shown,
  nonzero_from-zeros, length-data_field, after_name, drop_next, slice_lem, with_header_lem, data_at,
  rest_at, child_bytes,
}

module _ (lossy : Bytes → Text) (process : Process) (c : Bytes) (v : View) (ok_view : IsView c v)
    (small : v.len < 2 ^ 64) where
  tail_children : ℕ → Bytes → List Child
  tail_children at [] = []
  tail_children at (b ∷ bs) = rest_child v at ∷ []

  module _ (never_fails : (before : List Child) (child : Child) → process before child ≡ none) where
    attend-none :
        (before : List Child) (child : Child) (rest : Walked)
        → attend process before child rest ≡ rest
    attend-none before child rest = rw (never_fails before child, attend) refl

    tail_lem :
        (before : List Child) (q z : ℕ) (tail : Bytes)
        → Unpadded tail
        → drop q (view_bytes c v) ≡ replicate z 0 ++ tail
        → tail_child process v before (at_io (first_nonzero v q))
          ≡ (before ++ tail_children (q + z) tail, ok none)
    unfolding nonzero_from tail_children
    tail_lem before q z tail u at =
        let found : first_nonzero v q ≡ ok (nonzero_from (q + z) tail) =
          first_nonzero-nonzero_from c v ok_view q
          ∙ ap (λ t. ok (nonzero_from q t)) at
          ∙ ap (λ o. ok o) (nonzero_from-zeros q z tail) in
        ap (λ r. tail_child process v before (at_io r)) found ∙ go tail u
      where
        go :
            (t : Bytes)
            → Unpadded t
            → tail_child process v before (ok (nonzero_from (q + z) t))
              ≡ (before ++ tail_children (q + z) t, ok none)
        go [] u' = ap (λ l. (l, ok none)) (sym (append-nil before))
        go (b ∷ bs) u' = rw u' (
            attend-none before (rest_child v (q + z))
              (before ++ rest_child v (q + z) ∷ [], ok none))

    tail_shown :
        (q z : ℕ) (tail : Bytes)
        → drop q (view_bytes c v) ≡ replicate z 0 ++ tail
        → map (shown c) (tail_children (q + z) tail) ≡ tail_files tail
    unfolding tail_children
    tail_shown q z [] at = refl
    tail_shown q z (b ∷ bs) at =
        let here =
          drop_next lossy process c v ok_view small q z (replicate z 0) (b ∷ bs) at
            (length-replicate z 0) in
        let size : length (b ∷ bs) ≡ v.len - (q + z) =
          ap length (sym here)
          ∙ length-drop (q + z) (view_bytes c v)
          ∙ ap (λ n. n - (q + z)) (length-view_bytes c v ok_view) in
        ap (λ t. (cpio_tail, t) ∷ [])
          (slice_lem lossy process c v ok_view small (q + z) (v.len - (q + z)) (b ∷ bs) []
            (here ∙ sym (append-nil (b ∷ bs))) size)

    member_lem :
        (e : Stored) (q : ℕ) (before : List Child) (next : List Child → ℕ → Walked)
        → IsTrailer lossy e false
        → member_step process v before (header_of lossy e q) next ≡ (
            let pos = q + length e.contents + (round4 (length e.contents) - length e.contents) in
            if is_regular e.mode
            then next (before ++ data_child v (header_of lossy e q) ∷ []) pos
            else next before pos)
    unfolding member_step
    member_lem e q before next m =
        let child = data_child v (header_of lossy e q) in
        let pos = q + length e.contents + (round4 (length e.contents) - length e.contents) in
        rw m (
          ap (λ w. if is_regular e.mode then w else next before pos)
            (attend-none before child (next (before ++ child ∷ []) pos)))

    trailer_lem :
        (e : Stored) (q : ℕ) (before : List Child) (next : List Child → ℕ → Walked)
        → IsTrailer lossy e true
        → member_step process v before (header_of lossy e q) next
          ≡ tail_child process v before (at_io (first_nonzero v (q + round4 (length e.contents))))
    unfolding member_step
    trailer_lem e q before next m = rw m refl

    -- The walk from an offset on: its children, and what they show.
    Found : ℕ → List Child → ℕ → List (Text × Bytes) → Type 0
    Found fuel before pos files =
        (children : List Child) × (cpio_loop fuel lossy process v before pos
          ≡ (before ++ children, ok none))
        × (map (shown c) children ≡ files)

    header_here :
        (pos : ℕ) (e : Stored) (rest : Bytes)
        → IsStored e
        → drop pos (view_bytes c v) ≡ header_bytes e ++ rest
        → pos + 110 ≤ v.len
    header_here pos e rest h at = omega (
      arith,
      ap length at,
      length-append (header_bytes e) rest,
      length-header_bytes e h,
      length-drop pos (view_bytes c v),
      length-view_bytes c v ok_view,
    )

    module _ (trailer : Stored) (zeros : ℕ) (tail : Bytes) (stored : IsStored trailer)
        (last : IsTrailer lossy trailer true) (unpadded : Unpadded tail) where
      end_lem :
          (fuel pos : ℕ) (before : List Child)
          → v.len < pos + fuel
          → drop pos (view_bytes c v) ≡ members_bytes (trailer ∷ []) (replicate zeros 0 ++ tail)
          → Found fuel before pos (tail_files tail)
      unfolding cpio_loop members_bytes Found
      end_lem zero pos before f at = absurd (omega (arith, header_here pos trailer _ stored at))
      end_lem (suc fuel) pos before f at =
          let next : List Child → ℕ → Walked = λ b p. cpio_loop fuel lossy process v b p in
          let q = after_name trailer pos in
          let r = q + round4 (length trailer.contents) in
          let there = data_at lossy process c v ok_view small trailer pos _ stored at in
          let zeros_at =
            drop_next lossy process c v ok_view small q (round4 (length trailer.contents))
              (data_field trailer) (replicate zeros 0 ++ tail) there (length-data_field trailer) in
          (
            tail_children (r + zeros) tail,
            with_header_lem lossy process c v ok_view small trailer pos _ before next stored at
                ∙ trailer_lem trailer q before next last
                ∙ tail_lem before r zeros tail unpadded zeros_at,
            tail_shown r zeros tail zeros_at,
          )

      loop_lem :
          (es : List Stored) (fuel pos : ℕ) (before : List Child)
          → All (IsMember lossy) es
          → v.len < pos + fuel
          → drop pos (view_bytes c v)
            ≡ members_bytes es (members_bytes (trailer ∷ []) (replicate zeros 0 ++ tail))
          → Found fuel before pos (files_of lossy es ++ tail_files tail)
      unfolding cpio_loop members_bytes Found files_of
      loop_lem [] fuel pos before ms f at = end_lem fuel pos before f at
      loop_lem (e ∷ es) zero pos before ((s, m), ms) f at =
          absurd (omega (arith, header_here pos e _ s at))
      loop_lem (e ∷ es) (suc fuel) pos before ((s, m), ms) f at =
          let next : List Child → ℕ → Walked = λ b p. cpio_loop fuel lossy process v b p in
          let n = length e.contents in
          let q = after_name e pos in
          let pos' = q + n + (round4 n - n) in
          let child = data_child v (header_of lossy e q) in
          let there = data_at lossy process c v ok_view small e pos _ s at in
          let step =
            with_header_lem lossy process c v ok_view small e pos _ before next s at
            ∙ member_lem e q before next m in
          let past : v.len < pos' + fuel = omega arith in
          let at' = rest_at lossy process c v ok_view small e q _ there in
          elim (Bool-cases (is_regular e.mode)) [
            | inl r ↦
                let (cs, run, same) = loop_lem es fuel pos' (before ++ child ∷ []) ms past at' in
                (
                  child ∷ cs,
                  step ∙ rw r (run ∙ ap (λ l. (l, ok none)) (append_assoc before (child ∷ []) cs)),
                  rw r (
                      ap₂ (λ f (fs : List (Text × Bytes)). f ∷ fs)
                        (child_bytes lossy process c v ok_view small e q _ there) same),
                )
            | inr r ↦
                let (cs, run, same) = loop_lem es fuel pos' before ms past at' in
                (cs, step ∙ rw r run, rw r same)
          ]

-- A view on an archive of members in the cpio format: the walk has a child for each regular file, in
-- order, with the file's name and bytes, and one for what follows the zeros behind the trailer. It
-- holds for every well-formed view shorter than 2^64 bytes of a source that serves its contents, where
-- the members' fields fit, only the trailer is named so, and no child's processing fails.
pub cpio_ranged-archive_bytes :
    (lossy : Bytes → Text) (process : Process) (c : Bytes) (v : View) (es : List Stored)
    (trailer : Stored) (zeros : ℕ) (tail : Bytes)
    → IsView c v
    → v.len < 2 ^ 64
    → ((before : List Child) (child : Child) → process before child ≡ none)
    → All (IsMember lossy) es
    → IsStored trailer
    → IsTrailer lossy trailer true
    → Unpadded tail
    → view_bytes c v ≡ archive_bytes es trailer zeros tail
    → (children : List Child) × (cpio_ranged lossy process v ≡ (children, ok none))
      × (map (shown c) children ≡ files_of lossy es ++ tail_files tail)
unfolding cpio_ranged Found
cpio_ranged-archive_bytes lossy process c v es trailer zeros tail w small nf ms s l u at =
    loop_lem lossy process c v w small nf trailer zeros tail s l u es (v.len + 1) 0 [] ms
      (omega arith) at
