-- ===== src/PeekWalk/Iso.antt =====
-- src/peek_walk.rs: `parse_iso_record`, a record of an iso9660 directory.
--
-- An index or a range out of bounds, where the source panics, is `none`, and so is a loop out of fuel.
-- `String::from_utf8_lossy` is the parameter `lossy`.
use hashdex.Base.{
  ℕ, zero, suc, ◌+◌, ◌-◌, ◌/◌, ◌%◌, ◌≤◌, ◌<◌, ◌≡◌, refl, inl, inr, Bool, not, ◌&&◌, ◌||◌, Option,
  none, some, [], ◌∷◌, ◌++◌, length, take, drop, get_elem?, get_or, get_elem?-get_or, leb, ltb,
  ◌==◌, if◌then◌else◌, arith, Bool-cases, leb→le,
}
use mathlib.Core.List.{reverse}
use hashdex.Base.Bytes.{Bytes, from_le, slice, slice-eq_some}
use hashdex.Base.Text.{Text, codes, text_eq}

infixl 10 ◌>>?◌
abbrev ◌>>?◌ {ℓ} : {A B : Type ℓ} → Option A → (A → Option B) → Option B
none >>? f = none
some a >>? f = f a

pub record IsoRecord : Type 0 where
  pub lba : ℕ
  pub size : ℕ
  pub is_dir : Bool
  pub more_extents : Bool
  pub name : Text

-- `split(';').next()`, and `trim_end_matches('.')`.
unfoldable pub before_semicolon : Text → Text
before_semicolon [] = []
before_semicolon (c ∷ cs) = let rest = before_semicolon cs in if c == b';' then [] else c ∷ rest

unfoldable pub skip_dots : Text → Text
skip_dots [] = []
skip_dots (c ∷ cs) = let rest = skip_dots cs in if c == b'.' then rest else c ∷ cs

abbrev pub plain_name : Text → Text
plain_name raw = reverse (skip_dots (reverse (before_semicolon raw)))

abbrev le32_at : Bytes → ℕ → Option ℕ
le32_at bytes off = slice bytes off 4 >>? λ b. some (from_le b)

-- An entry of the system use area: the name so far goes on with an `NM` entry's.
abbrev rr_entry : (Bytes → Text) → Bytes → ℕ → ℕ → Text → (ℕ → Text → Option Text) → Option Text
rr_entry lossy bytes len su name next = slice bytes su 2 >>? λ sig.
    get_elem? bytes (su + 2) >>? λ entry_len.
    (if ltb entry_len 4 || ltb len (su + entry_len)
      then some name
      else if text_eq sig (codes "NM") && ltb 5 entry_len
      then (slice bytes (su + 5) (entry_len - 5) >>? λ part.
          next (su + entry_len) (name ++ lossy part))
      else next (su + entry_len) name)

-- The loop, on fuel: an entry that does not end it has 4 bytes at least.
unfoldable pub rr_loop : ℕ → (Bytes → Text) → Bytes → ℕ → ℕ → Text → Option Text
rr_loop zero lossy bytes len su name = none
rr_loop (suc fuel) lossy bytes len su name =
    if leb (su + 4) len
    then rr_entry lossy bytes len su name (λ su' name'. rr_loop fuel lossy bytes len su' name')
    else some name

abbrev better_name : Text → Text → Text
better_name plain rr =
    if not (text_eq rr []) && not (text_eq rr (codes ".")) && not (text_eq rr (codes ".."))
    then rr
    else plain

abbrev pub record_of : ℕ → ℕ → ℕ → Text → Text → IsoRecord
record_of lba size flags plain rr = record {
  lba = lba;
  size = size;
  is_dir = flags / 2 % 2 == 1;
  more_extents = flags / 128 % 2 == 1;
  name = better_name plain rr;
}

abbrev iso_record : (Bytes → Text) → Bytes → ℕ → ℕ → Bytes → Option IsoRecord
iso_record lossy bytes len name_len raw = le32_at bytes 2 >>? λ lba. le32_at bytes 10 >>? λ size.
    get_elem? bytes 25 >>? λ flags.
    rr_loop (suc len) lossy bytes len (33 + name_len + (1 - name_len % 2)) [] >>? λ rr.
    some (record_of lba size flags (plain_name (lossy raw)) rr)

abbrev named_record : (Bytes → Text) → Bytes → ℕ → ℕ → Option (Option IsoRecord)
named_record lossy bytes len name_len =
    if ltb len (33 + name_len)
    then some none
    else (slice bytes 33 name_len >>? λ raw.
        if text_eq raw (0 ∷ []) || text_eq raw (1 ∷ [])
        then some none
        else (iso_record lossy bytes len name_len raw >>? λ r. some (some r)))

unfoldable pub parse_iso_record : (Bytes → Text) → Bytes → Option (Option IsoRecord)
unfolding rr_loop before_semicolon skip_dots
parse_iso_record lossy bytes = get_elem? bytes 0 >>? λ len.
    if ltb len 34 || ltb (length bytes) len
    then some none
    else (get_elem? bytes 32 >>? λ name_len. named_record lossy bytes len name_len)

-- The program does not panic, and its loop ends.
abbrev Total {ℓ} : {A : Type ℓ} → Option A → Type ℓ
Total {A = A} o = (a : A) × (o ≡ some a)

module _ (lossy : Bytes → Text) (bytes : Bytes) (len : ℕ) (whole : len ≤ length bytes) where
  index_lem : (i : ℕ) → i < len → Total (get_elem? bytes i)
  index_lem i h = (get_or bytes i 0, get_elem?-get_or bytes i 0 (omega arith))

  slice_lem : (off n : ℕ) → off + n ≤ len → Total (slice bytes off n)
  slice_lem off n h = (take n (drop off bytes), slice-eq_some bytes off n (omega arith))

  rr_loop-Total :
      (fuel su : ℕ) (name : Text)
      → len < su + fuel
      → 0 < fuel
      → Total (rr_loop fuel lossy bytes len su name)
  unfolding rr_loop
  rr_loop-Total zero su name h pos = absurd (omega arith)
  rr_loop-Total (suc fuel) su name h pos = elim (Bool-cases (leb (su + 4) len)) [
    | inr p ↦ (name, rw p refl)
    | inl p ↦
        let fits = leb→le (su + 4) len p in
        let (sig, got_sig) = slice_lem su 2 (omega arith) in
        let (n, got_n) = index_lem (su + 2) (omega arith) in
        elim (Bool-cases (ltb n 4 || ltb len (su + n))) [
          | inl q ↦ (name, rw (p, got_sig, got_n, q) refl)
          | inr q ↦ elim (Bool-cases (text_eq sig (codes "NM") && ltb 5 n)) [
            | inl r ↦
                let (part, got_part) = slice_lem (su + 5) (n - 5) (ground arith) in
                let (t, run) =
                  rr_loop-Total fuel (su + n) (name ++ lossy part) (ground arith) (ground arith) in
                (t, rw (p, got_sig, got_n, q, r, got_part) run)
            | inr r ↦
                let (t, run) = rr_loop-Total fuel (su + n) name (ground arith) (ground arith) in
                (t, rw (p, got_sig, got_n, q, r) run)
          ]
        ]
  ]

  iso_record-Total :
      (name_len : ℕ) (raw : Bytes) → 34 ≤ len → Total (iso_record lossy bytes len name_len raw)
  iso_record-Total name_len raw h =
      let (lba, got_lba) = slice_lem 2 4 (omega arith) in
      let (size, got_size) = slice_lem 10 4 (omega arith) in
      let (flags, got_flags) = index_lem 25 (omega arith) in
      let (rr, run) =
        rr_loop-Total (suc len) (33 + name_len + (1 - name_len % 2)) [] (omega arith)
          (omega arith) in
      (
        record_of (from_le lba) (from_le size) flags (plain_name (lossy raw)) rr,
        rw (got_lba, got_size, got_flags, run) refl,
      )

  named_record-Total : (name_len : ℕ) → 34 ≤ len → Total (named_record lossy bytes len name_len)
  named_record-Total name_len h = elim (Bool-cases (ltb len (33 + name_len))) [
    | inl p ↦ (none, rw p refl)
    | inr p ↦
        let (raw, got) = slice_lem 33 name_len (ground arith) in
        elim (Bool-cases (text_eq raw (0 ∷ []) || text_eq raw (1 ∷ []))) [
          | inl q ↦ (none, rw (p, got, q) refl)
          | inr q ↦
              let (r, made) = iso_record-Total name_len raw h in (some r, rw (p, got, q, made) refl)
        ]
  ]

-- On a record of one byte or more, whatever its bytes are, `parse_iso_record` does not panic and its
-- loop ends.
pub parse_iso_record-Total :
    (lossy : Bytes → Text) (bytes : Bytes)
    → 0 < length bytes
    → (r : Option IsoRecord) × (parse_iso_record lossy bytes ≡ some r)
unfolding parse_iso_record
parse_iso_record-Total lossy bytes h =
    let len = get_or bytes 0 0 in
    let got = get_elem?-get_or bytes 0 0 h in
    elim (Bool-cases (ltb len 34 || ltb (length bytes) len)) [
      | inl p ↦ (none, rw (got, p) refl)
      | inr p ↦
          let fits : len ≤ length bytes = ground arith in
          let long : 34 ≤ len = ground arith in
          let (n, got_n) = index_lem lossy bytes len fits 32 (omega arith) in
          let (r, made) = named_record-Total lossy bytes len fits n long in
          (r, rw (got, p, got_n) made)
    ]
