-- ===== src/PeekWalk/CentralDir/Agreement.antt =====
-- src/peek_walk.rs: when `reconcile_central_dir` finds that a central directory agrees.
use hashdex.Base.{
  ℕ, zero, suc, ◌+◌, ◌^◌, ◌≤◌, ◌<◌, ◌≡◌, refl, sym, ap, ap₂, ◌∙◌, inl, inr, Bool, true, false, not,
  ◌&&◌, some, List, [], ◌∷◌, ◌++◌, length, take, drop, All, ◌==◌, if◌then◌else◌, arith, Bool-cases,
  length-append, &&_true, ◌↔◌,
}
use mathlib.Core.List.{append_assoc, append-nil}
use hashdex.Base.Bytes.{
  Bytes, le_bytes, from_le, length-le_bytes, from_le-le_bytes, take-append_length,
  drop-append_length,
}
use hashdex.Base.Outcome.{ok}
use hashdex.Base.Slices.{drop-drop}
use hashdex.Base.Text.{Text, text_eq, text_eq→eq, text_eq_refl}
use hashdex.PeekWalk.Rpm.{read_exact, skip_n-append, read_exact-append}
use hashdex.PeekWalk.CentralDir.{
  central, is_end, Seen, le_at, central_record, ends_in_slash, noted_entry, central_loop,
  same_entries, reconcile_central_dir,
}

-- A record as the writers of archives put it: the fields that are not read, the checksum, the name,
-- the extra field and the comment.
pub record Central : Type 0 where
  pub versions : Bytes
  pub crc : ℕ
  pub sizes : Bytes
  pub places : Bytes
  pub name : Bytes
  pub extra : Bytes
  pub comment : Bytes

pub record IsCentral (z : Central) : Type 0 where
  pub versions_len : length z.versions ≡ 12
  pub crc_small : z.crc < 256 ^ 4
  pub sizes_len : length z.sizes ≡ 8
  pub places_len : length z.places ≡ 12
  pub name_small : length z.name < 256 ^ 2
  pub extra_small : length z.extra < 256 ^ 2
  pub comment_small : length z.comment < 256 ^ 2

abbrev lengths_part : Central → Bytes
lengths_part z =
    le_bytes 2 (length z.name)
    ++ (le_bytes 2 (length z.extra) ++ (le_bytes 2 (length z.comment) ++ z.places))

abbrev crc_part : Central → Bytes
crc_part z = le_bytes 4 z.crc ++ (z.sizes ++ lengths_part z)

unfoldable pub fields_bytes : Central → Bytes
fields_bytes z = z.versions ++ crc_part z

-- The records behind the first signature, up to the one at the end.
unfoldable pub central_bytes : Central → List Central → ℕ → Bytes → Bytes
unfolding fields_bytes
central_bytes z [] end_sig rest =
    fields_bytes z ++ (z.name ++ ((z.extra ++ z.comment) ++ (le_bytes 4 end_sig ++ rest)))
central_bytes z (y ∷ ys) end_sig rest =
    fields_bytes z
    ++ (z.name
        ++ ((z.extra ++ z.comment) ++ (le_bytes 4 central ++ central_bytes y ys end_sig rest)))

-- The entries that are no directories.
unfoldable pub entries_of : (Bytes → Text) → List Central → List Seen
unfolding ends_in_slash
entries_of lossy [] = []
entries_of lossy (z ∷ zs) =
    let rest = entries_of lossy zs in
    if not (ends_in_slash (lossy z.name)) then (lossy z.name, z.crc) ∷ rest else rest

le_field :
    (off n x : ℕ) (bytes rest : Bytes)
    → drop off bytes ≡ le_bytes n x ++ rest
    → x < 256 ^ n
    → le_at off n bytes ≡ x
le_field off n x bytes rest at h =
    ap (λ t. from_le (take n t)) at
    ∙ ap from_le (take-append_length n (le_bytes n x) rest (length-le_bytes n x))
    ∙ from_le-le_bytes n x h

module _ (z : Central) (h : IsCentral z) where
  length-fields_bytes : length (fields_bytes z) ≡ 42
  unfolding fields_bytes
  length-fields_bytes = omega (
    arith,
    length-append z.versions (crc_part z),
    h.versions_len,
    length-append z.sizes (lengths_part z),
    h.sizes_len,
    h.places_len,
  )

  drop-crc : drop 12 (fields_bytes z) ≡ crc_part z
  unfolding fields_bytes
  drop-crc = drop-append_length 12 0 12 z.versions (crc_part z) h.versions_len refl

  drop-lengths : drop 24 (fields_bytes z) ≡ lengths_part z
  drop-lengths =
      sym (drop-drop 12 12 (fields_bytes z))
      ∙ ap (drop 12) drop-crc
      ∙ drop-append_length 8 0 8 z.sizes (lengths_part z) h.sizes_len refl

  drop-comment : drop 28 (fields_bytes z) ≡ le_bytes 2 (length z.comment) ++ z.places
  drop-comment = sym (drop-drop 4 24 (fields_bytes z)) ∙ ap (drop 4) drop-lengths

  drop-extra :
      drop 26 (fields_bytes z)
      ≡ le_bytes 2 (length z.extra) ++ (le_bytes 2 (length z.comment) ++ z.places)
  drop-extra = sym (drop-drop 2 24 (fields_bytes z)) ∙ ap (drop 2) drop-lengths

  central_record_lem :
      (lossy : Bytes → Text) (rest : Bytes)
      → central_record lossy (fields_bytes z ++ (z.name ++ ((z.extra ++ z.comment) ++ rest)))
        ≡ ok ((lossy z.name, z.crc), rest)
  unfolding central_record
  central_record_lem lossy rest =
      rw
        (
          read_exact-append 42 (fields_bytes z) (z.name ++ ((z.extra ++ z.comment) ++ rest))
              length-fields_bytes,
          le_field 24 2 (length z.name) (fields_bytes z) _ drop-lengths h.name_small,
          le_field 26 2 (length z.extra) (fields_bytes z) _ drop-extra h.extra_small,
          le_field 28 2 (length z.comment) (fields_bytes z) _ drop-comment h.comment_small,
          le_field 12 4 z.crc (fields_bytes z) _ drop-crc h.crc_small,
          read_exact-append (length z.name) z.name ((z.extra ++ z.comment) ++ rest) refl,
          skip_n-append (length z.extra + length z.comment) (z.extra ++ z.comment) rest
              (length-append z.extra z.comment),
        )
        refl

same_entries→eq : (a b : List Seen) → same_entries a b ≡ true → a ≡ b
unfolding same_entries
same_entries→eq [] [] h = refl
same_entries→eq [] (b ∷ others) h = cc
same_entries→eq (a ∷ entries) [] h = cc
same_entries→eq ((n, c) ∷ entries) ((m, d) ∷ others) h =
    let (first, rest) = &&_true (text_eq n m && c == d) (same_entries entries others) h in
    let (p, q) = &&_true (text_eq n m) (c == d) first in
    let names = text_eq→eq n m p in
    let crcs : c ≡ d = ground arith in
    ap₂ (λ (e : Seen) es. e ∷ es) (ap₂ (λ (s : Text) (k : ℕ). (s, k)) names crcs)
      (same_entries→eq entries others rest)

same_entries_refl : (a : List Seen) → same_entries a a ≡ true
unfolding same_entries
same_entries_refl [] = refl
same_entries_refl ((n, c) ∷ entries) =
    let same : (c == c) ≡ true = ground arith in
    rw (text_eq_refl n, same) (same_entries_refl entries)

noted_entry-append :
    (lossy : Bytes → Text) (z : Central) (zs : List Central) (cd : List Seen)
    → noted_entry cd (lossy z.name, z.crc) ++ entries_of lossy zs ≡ cd ++ entries_of lossy (z ∷ zs)
unfolding entries_of
noted_entry-append lossy z zs cd = elim (Bool-cases (not (ends_in_slash (lossy z.name)))) [
  | inl p ↦ rw p (append_assoc cd ((lossy z.name, z.crc) ∷ []) (entries_of lossy zs))
  | inr p ↦ rw p refl
]

noted_end :
    (lossy : Bytes → Text) (z : Central) (cd : List Seen)
    → noted_entry cd (lossy z.name, z.crc) ≡ cd ++ entries_of lossy (z ∷ [])
unfolding entries_of
noted_end lossy z cd = elim (Bool-cases (not (ends_in_slash (lossy z.name)))) [
  | inl p ↦ rw p refl
  | inr p ↦ rw p (sym (append-nil cd))
]

length-central_bytes :
    (z : Central) (zs : List Central) (end_sig : ℕ) (rest : Bytes)
    → length zs ≤ length (central_bytes z zs end_sig rest)
unfolding central_bytes
length-central_bytes z [] end_sig rest = omega arith
length-central_bytes z (y ∷ ys) end_sig rest =
    let tail = le_bytes 4 central ++ central_bytes y ys end_sig rest in
    omega (
      arith,
      length-central_bytes y ys end_sig rest,
      length-append (fields_bytes z) (z.name ++ ((z.extra ++ z.comment) ++ tail)),
      length-append z.name ((z.extra ++ z.comment) ++ tail),
      length-append (z.extra ++ z.comment) tail,
      length-append (le_bytes 4 central) (central_bytes y ys end_sig rest),
    )

module _ (lossy : Bytes → Text) (end_sig : ℕ) (rest : Bytes) (small : end_sig < 256 ^ 4)
    (ends : is_end end_sig ≡ true) where
  read_sig :
      (sig : ℕ) (r : Bytes)
      → sig < 256 ^ 4
      → (read_exact 4 (le_bytes 4 sig ++ r) ≡ ok (le_bytes 4 sig, r))
        × (from_le (le_bytes 4 sig) ≡ sig)
  read_sig sig r h = (read_exact-append 4 (le_bytes 4 sig) r refl, from_le-le_bytes 4 sig h)

  not_central : (end_sig == central) ≡ false
  not_central = ground arith

  central_loop_lem :
      (zs : List Central) (z : Central) (fuel : ℕ) (cd : List Seen)
      → All IsCentral (z ∷ zs)
      → length zs < fuel
      → central_loop fuel lossy (central_bytes z zs end_sig rest) cd
        ≡ ok (some (cd ++ entries_of lossy (z ∷ zs)))
  unfolding central_loop central_bytes
  central_loop_lem zs z zero cd hs f = absurd (omega arith)
  central_loop_lem [] z (suc fuel) cd (h, hs) f =
      let (got, value) = read_sig end_sig rest small in
      rw (central_record_lem z h lossy (le_bytes 4 end_sig ++ rest), got, value, not_central, ends)
        (ap (λ l. ok (some l)) (noted_end lossy z cd))
  central_loop_lem (y ∷ ys) z (suc fuel) cd (h, hs) f =
      let more = central_bytes y ys end_sig rest in
      let (got, value) = read_sig central more (omega arith) in
      let cd' = noted_entry cd (lossy z.name, z.crc) in
      let next = central_loop_lem ys y fuel cd' hs (omega arith) in
      rw (central_record_lem z h lossy (le_bytes 4 central ++ more), got)
        (next ∙ ap (λ l. ok (some l)) (noted_entry-append lossy z (y ∷ ys) cd))

-- Held against the stream's entries, a central directory of well-formed records, read from behind its
-- first signature up to the signature of an end record, agrees exactly if its names and checksums,
-- without those of directories, are the stream's.
pub reconcile_central_dir-central_bytes :
    (lossy : Bytes → Text) (z : Central) (zs : List Central) (end_sig : ℕ) (rest : Bytes)
    (streamed : List Seen)
    → All IsCentral (z ∷ zs)
    → end_sig < 256 ^ 4
    → is_end end_sig ≡ true
    → (b : Bool) × (reconcile_central_dir lossy (central_bytes z zs end_sig rest) streamed ≡ ok b)
      × ((b ≡ true) ↔ (entries_of lossy (z ∷ zs) ≡ streamed))
unfolding reconcile_central_dir
reconcile_central_dir-central_bytes lossy z zs end_sig rest streamed hs small ends =
    let r = central_bytes z zs end_sig rest in
    let entries = entries_of lossy (z ∷ zs) in
    let run =
      central_loop_lem lossy end_sig rest small ends zs z (length r + 1) [] hs
        (omega (arith, length-central_bytes z zs end_sig rest)) in
    (
      same_entries entries streamed,
      rw run refl,
      (
        same_entries→eq entries streamed,
        λ e. ap (same_entries entries) (sym e) ∙ same_entries_refl entries,
      ),
    )
