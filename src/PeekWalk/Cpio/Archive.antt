-- ===== src/PeekWalk/Cpio/Archive.antt =====
-- src/peek_walk.rs: cpio archives as they are written, and what a view shows where a member stands.
use hashdex.Base.{
  ℕ, zero, suc, ◌+◌, ◌-◌, ◌^◌, ◌<◌, ◌≡◌, refl, sym, ap, ◌∙◌, Bool, false, List, [], ◌∷◌, ◌++◌,
  length, take, drop, replicate, ltb, ◌==◌, if◌then◌else◌, arith, length-append, length-replicate,
}
use mathlib.Core.List.{append_assoc, append-nil}
use hashdex.Base.Bytes.{Bytes, take-append_length, drop-append_length}
use hashdex.Base.Slices.{drop-drop, drop_at}
use hashdex.Base.Outcome.{ok}
use hashdex.Base.Text.{Text, codes, text_eq}
use hashdex.View.{View, read_full_at, slice}
use hashdex.View.Window.{IsView, view_bytes}
use hashdex.View.Reads.{read_full_at-take}
use hashdex.View.Slicing.{view_bytes-slice}
use hashdex.PeekWalk.Padding.{nonzero_from}
use hashdex.PeekWalk.Cpio.{
  Child, Process, Walked, name_padded, round4, read_name_at, at_io, with_header, member_step,
  data_child, cpio_tail, is_regular, trim_dot_slash,
}
use hashdex.PeekWalk.Cpio.Fields.{
  Stored, IsStored, header_bytes, name_field, data_field, length-header_bytes, header_of,
  cpio_header-header_bytes,
}

-- The members one after the other, in front of the rest of an archive.
unfoldable pub members_bytes : List Stored → Bytes → Bytes
members_bytes [] rest = rest
members_bytes (e ∷ es) rest =
    header_bytes e ++ (name_field e ++ (data_field e ++ members_bytes es rest))

-- An archive: its members, its trailer, zeros, and what is behind them.
abbrev pub archive_bytes : List Stored → Stored → ℕ → Bytes → Bytes
archive_bytes es trailer zeros tail =
    members_bytes es (members_bytes (trailer ∷ []) (replicate zeros 0 ++ tail))

-- A name as the walk shows it.
abbrev pub shown_name : (Bytes → Text) → Stored → Text
shown_name lossy e = trim_dot_slash (lossy e.name)

abbrev pub IsTrailer : (Bytes → Text) → Stored → Bool → Type 0
IsTrailer lossy e b = text_eq (shown_name lossy e) (codes "TRAILER!!!") ≡ b

abbrev pub IsMember : (Bytes → Text) → Stored → Type 0
IsMember lossy e = IsStored e × IsTrailer lossy e false

-- The names and the contents of the regular files.
unfoldable pub files_of : (Bytes → Text) → List Stored → List (Text × Bytes)
files_of lossy [] = []
files_of lossy (e ∷ es) =
    let rest = files_of lossy es in
    if is_regular e.mode then (shown_name lossy e, e.contents) ∷ rest else rest

-- What is behind the zeros is a file of its own, and starts with no zero.
abbrev pub tail_files : Bytes → List (Text × Bytes)
tail_files [] = []
tail_files (b ∷ bs) = (cpio_tail, b ∷ bs) ∷ []

abbrev pub Unpadded : Bytes → Type 0
Unpadded [] = Unit
Unpadded (b ∷ bs) = (b == 0) ≡ false

-- The names and the bytes of the children.
abbrev pub shown : Bytes → Child → Text × Bytes
shown c child = (child.name, view_bytes c child.view)

pub nonzero_from-zeros :
    (off z : ℕ) (tail : Bytes)
    → nonzero_from off (replicate z 0 ++ tail) ≡ nonzero_from (off + z) tail
unfolding nonzero_from
nonzero_from-zeros off zero tail = ap (λ o. nonzero_from o tail) (omega arith)
nonzero_from-zeros off (suc z) tail =
    nonzero_from-zeros (off + 1) z tail ∙ ap (λ o. nonzero_from o tail) (omega arith)

pub length-name_field : (e : Stored) → length (name_field e) ≡ name_padded (length e.name + 1)
length-name_field e =
    let p = name_padded (length e.name + 1) in
    omega (
      arith,
      length-append e.name (replicate (p - length e.name) 0),
      length-replicate {A = ℕ} (p - length e.name) 0,
    )

pub length-data_field : (e : Stored) → length (data_field e) ≡ round4 (length e.contents)
length-data_field e =
    let p = round4 (length e.contents) in
    omega (
      arith,
      length-append e.contents (replicate (p - length e.contents) 0),
      length-replicate {A = ℕ} (p - length e.contents) 0,
    )

abbrev pub after_name : Stored → ℕ → ℕ
after_name e pos = pos + 110 + name_padded (length e.name + 1)

module _ (lossy : Bytes → Text) (process : Process) (c : Bytes) (v : View) (ok_view : IsView c v)
    (small : v.len < 2 ^ 64) where
  pub drop_next :
      (pos n : ℕ) (a rest : Bytes)
      → drop pos (view_bytes c v) ≡ a ++ rest
      → length a ≡ n
      → drop (pos + n) (view_bytes c v) ≡ rest
  drop_next pos n a rest h l =
      sym (drop-drop n pos (view_bytes c v))
      ∙ ap (drop n) h
      ∙ drop-append_length n 0 n a rest l (omega arith)

  -- The bytes of a child that is cut out where some bytes stand.
  pub slice_lem :
      (pos n : ℕ) (a rest : Bytes)
      → drop pos (view_bytes c v) ≡ a ++ rest
      → length a ≡ n
      → view_bytes c (slice v ((pos, n) ∷ [])) ≡ a
  slice_lem pos n a rest h l =
      view_bytes-slice c v ok_view small ((pos, n) ∷ [])
      ∙ append-nil (take n (drop pos (view_bytes c v)))
      ∙ ap (take n) h
      ∙ take-append_length n a rest l

  read_name_lem :
      (off n : ℕ) (a rest : Bytes)
      → drop off (view_bytes c v) ≡ a ++ rest
      → length a ≡ n
      → read_name_at v off n ≡ ok (a, off + n)
  unfolding read_name_at
  read_name_lem off n a rest h l =
      let got : take n (drop off (view_bytes c v)) ≡ a =
        ap (take n) h ∙ take-append_length n a rest l in
      let enough : ltb (length a) n ≡ false = ground arith in
      rw (read_full_at-take c v ok_view n off, got, enough) (ap (λ k. ok (a, off + k)) l)

  -- Where a stored member stands, its header is read.
  pub with_header_lem :
      (e : Stored) (pos : ℕ) (rest : Bytes) (before : List Child) (next : List Child → ℕ → Walked)
      → IsStored e
      → drop pos (view_bytes c v) ≡ header_bytes e ++ (name_field e ++ rest)
      → with_header lossy process v before pos (at_io (read_full_at v 110 pos)) next
        ≡ member_step process v before
            (header_of lossy e (pos + 110 + name_padded (length e.name + 1)))
            next
  with_header_lem e pos rest before next h at =
      let n = name_padded (length e.name + 1) in
      let size = length-header_bytes e h in
      let hdr : take 110 (drop pos (view_bytes c v)) ≡ header_bytes e =
        ap (take 110) at ∙ take-append_length 110 (header_bytes e) (name_field e ++ rest) size in
      let named =
        read_name_lem (pos + 110) n (name_field e) rest
          (drop_next pos 110 (header_bytes e) (name_field e ++ rest) at size)
          (length-name_field e) in
      let enough : ltb (length (header_bytes e)) 110 ≡ false = ground arith in
      rw
        (
          read_full_at-take c v ok_view 110 pos,
          hdr,
          enough,
          cpio_header-header_bytes lossy e (read_name_at v (pos + 110)) (pos + 110 + n) h named,
        )
        refl

  -- What stands behind the name and behind the data of a member.
  pub data_at :
      (e : Stored) (pos : ℕ) (rest : Bytes)
      → IsStored e
      → drop pos (view_bytes c v) ≡ header_bytes e ++ (name_field e ++ rest)
      → drop (after_name e pos) (view_bytes c v) ≡ rest
  data_at e pos rest h at =
      drop_next (pos + 110) (name_padded (length e.name + 1)) (name_field e) rest
        (drop_next pos 110 (header_bytes e) (name_field e ++ rest) at (length-header_bytes e h))
        (length-name_field e)

  pub rest_at :
      (e : Stored) (q : ℕ) (rest : Bytes)
      → drop q (view_bytes c v) ≡ data_field e ++ rest
      → drop
          (q + length e.contents + (round4 (length e.contents) - length e.contents))
          (view_bytes c v)
        ≡ rest
  rest_at e q rest at =
      drop_at _ _ (view_bytes c v) (omega arith)
      ∙ drop_next q (round4 (length e.contents)) (data_field e) rest at (length-data_field e)

  pub child_bytes :
      (e : Stored) (q : ℕ) (rest : Bytes)
      → drop q (view_bytes c v) ≡ data_field e ++ rest
      → shown c (data_child v (header_of lossy e q)) ≡ (shown_name lossy e, e.contents)
  child_bytes e q rest at =
      let n = length e.contents in
      let pad = replicate (round4 n - n) 0 in
      ap (λ t. (shown_name lossy e, t))
        (slice_lem q n e.contents (pad ++ rest) (at ∙ append_assoc e.contents pad rest) refl)
