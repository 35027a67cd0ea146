-- ===== src/Pool/Feeding.antt =====
-- src/peek_pool.rs: `Feed::push` cuts the bytes into chunks of one size, and loses none.
use hashdex.Base.{
  ℕ, zero, suc, ◌+◌, ◌-◌, ◌≤◌, ◌<◌, ◌≡◌, sym, ap, ◌∙◌, inl, inr, min, List, [], ◌∷◌, ◌++◌, length,
  take, drop, All, leb, Bool-cases, leb→le, not_leb→lt, length-append, length-take, length-drop,
  take-append-drop, arith,
}
use mathlib.Core.List.{append_assoc, append-nil}
use hashdex.Base.Bytes.{Bytes}
use hashdex.Pool.{chunk_size, push_loop, push}

abbrev pub joined : List Bytes → Bytes
joined [] = []
joined (c ∷ cs) = c ++ joined cs

-- What the loop flushed, and what it leaves in the buffer.
abbrev Cut : Bytes → List Bytes × Bytes → Type 0
Cut whole (chunks, buf) =
    (joined chunks ++ buf ≡ whole)
    × All (λ c. length c ≡ chunk_size) chunks
    × (length buf < chunk_size)

push_loop-Cut :
    (n : ℕ) (buf bytes : Bytes)
    → length buf < chunk_size
    → length bytes ≤ n
    → Cut (buf ++ bytes) (push_loop n buf bytes)
unfolding push_loop
push_loop-Cut zero buf [] small enough = (sym (append-nil buf), tt, small)
push_loop-Cut zero buf (b ∷ bs) small enough = absurd (omega arith)
push_loop-Cut (suc n) buf [] small enough = (sym (append-nil buf), tt, small)
push_loop-Cut (suc n) buf (b ∷ bs) small enough =
    let room = chunk_size - length buf in
    let taken = min room (length (b ∷ bs)) in
    let full = buf ++ take taken (b ∷ bs) in
    let left = drop taken (b ∷ bs) in
    let size : length full ≡ length buf + taken =
      omega (arith, length-append buf (take taken (b ∷ bs)), length-take taken (b ∷ bs)) in
    let fewer : length left ≤ n = omega (arith, length-drop taken (b ∷ bs)) in
    let whole : full ++ left ≡ buf ++ (b ∷ bs) =
      append_assoc buf (take taken (b ∷ bs)) left
      ∙ ap (λ t. buf ++ t) (take-append-drop taken (b ∷ bs)) in
    elim (Bool-cases (leb chunk_size (length full))) [
      | inl t ↦
          let (same, sizes, last) = push_loop-Cut n [] left (omega arith) fewer in
          let one : length full ≡ chunk_size =
            omega (arith, leb→le chunk_size (length full) t, size) in
          rw t (
            append_assoc full (joined (push_loop n [] left).0) (push_loop n [] left).1
                ∙ ap (λ u. full ++ u) same
                ∙ whole,
            (one, sizes),
            last,
          )
      | inr t ↦
          let (same, sizes, last) =
            push_loop-Cut n full left (not_leb→lt chunk_size (length full) t) fewer in
          rw t (same ∙ whole, sizes, last)
    ]

-- Bytes pushed onto a buffer that holds less than a chunk are flushed in chunks of exactly that
-- size, which together with the new buffer are the old buffer and the bytes, in their order; the new
-- buffer holds less than a chunk.
pub push-joined :
    (buf bytes : Bytes)
    → length buf < chunk_size
    → (joined ((push buf bytes).0) ++ (push buf bytes).1 ≡ buf ++ bytes)
      × All (λ c. length c ≡ chunk_size) ((push buf bytes).0)
      × (length ((push buf bytes).1) < chunk_size)
unfolding push
push-joined buf bytes small = push_loop-Cut (length bytes) buf bytes small (omega arith)
