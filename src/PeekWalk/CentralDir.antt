-- ===== src/PeekWalk/CentralDir.antt =====
-- src/peek_walk.rs: `reconcile_central_dir`, which holds the central directory of a zip archive
-- against the entries that the stream gave.
--
-- A reader is the bytes that it has left. `String::from_utf8_lossy` is the parameter `lossy`.
pub mod Agreement
use hashdex.Base.{
  ℕ, zero, suc, ◌+◌, ◌^◌, ◌≤◌, ◌<◌, ◌≡◌, refl, sym, ap, ap₂, ◌∙◌, inl, inr, Bool, true, false, not,
  ◌&&◌, ◌||◌, Option, none, some, List, [], ◌∷◌, ◌++◌, length, take, drop, All, ◌==◌, if◌then◌else◌,
  arith, Bool-cases, length-append, &&_true, ◌↔◌,
}
use mathlib.Core.List.{append_assoc, append-nil}
use hashdex.Base.Bytes.{
  Bytes, le_bytes, from_le, length-le_bytes, from_le-le_bytes, take-append_length,
  drop-append_length,
}
use hashdex.Base.Outcome.{Result, ok, ◌>>=◌}
use hashdex.Base.Slices.{drop-drop}
use hashdex.Base.Text.{Text, text_eq, text_eq→eq, text_eq_refl}
use hashdex.PeekWalk.Rpm.{ReadError, skip_n, read_exact, skip_n-append, read_exact-append}

abbrev pub central : ℕ
central = 0x02014b50

abbrev pub is_end : ℕ → Bool
is_end sig = sig == 0x06054b50 || sig == 0x06064b50 || sig == 0x07064b50

abbrev pub Seen : Type 0
Seen = Text × ℕ

-- A field of a record.
abbrev pub le_at : ℕ → ℕ → Bytes → ℕ
le_at off n bytes = from_le (take n (drop off bytes))

-- A record behind its signature: the name and the checksum, and what the reader has left.
unfoldable pub central_record : (Bytes → Text) → Bytes → Result ReadError (Seen × Bytes)
unfolding read_exact skip_n
central_record lossy r = read_exact 42 r >>= λ (fields, r1).
    read_exact (le_at 24 2 fields) r1 >>= λ (raw, r2).
    skip_n (le_at 26 2 fields + le_at 28 2 fields) r2 >>= λ r3.
    ok ((lossy raw, le_at 12 4 fields), r3)

unfoldable pub ends_in_slash : Text → Bool
ends_in_slash [] = false
ends_in_slash (c ∷ []) = c == b'/'
ends_in_slash (c ∷ d ∷ cs) = ends_in_slash (d ∷ cs)

abbrev pub noted_entry : List Seen → Seen → List Seen
noted_entry cd (name, crc) = if not (ends_in_slash name) then cd ++ (name, crc) ∷ [] else cd

-- What follows a record: another one, the end of the directory, or something else (`none`).
abbrev after_record :
    List Seen
    → (Bytes × Bytes)
    → (List Seen → Bytes → Result ReadError (Option (List Seen)))
    → Result ReadError (Option (List Seen))
after_record cd (sig, r) next =
    if from_le sig == central
    then next cd r
    else if is_end (from_le sig)
    then ok (some cd)
    else ok none

-- The loop, on fuel: a record takes 42 bytes at least.
unfoldable pub central_loop :
    ℕ → (Bytes → Text) → Bytes → List Seen → Result ReadError (Option (List Seen))
unfolding central_record read_exact ends_in_slash
central_loop zero lossy r cd = ok none
central_loop (suc fuel) lossy r cd = central_record lossy r >>= λ (seen, r3).
    read_exact 4 r3 >>= λ got.
    after_record (noted_entry cd seen) got (λ cd' r'. central_loop fuel lossy r' cd')

unfoldable pub same_entries : List Seen → List Seen → Bool
same_entries [] [] = true
same_entries [] (b ∷ others) = false
same_entries (a ∷ entries) [] = false
same_entries ((n, c) ∷ entries) ((m, d) ∷ others) =
    text_eq n m && c == d && same_entries entries others

abbrev agrees : List Seen → Option (List Seen) → Bool
agrees streamed none = false
agrees streamed (some cd) = same_entries cd streamed

unfoldable pub reconcile_central_dir : (Bytes → Text) → Bytes → List Seen → Result ReadError Bool
unfolding central_loop same_entries
reconcile_central_dir lossy r streamed =
    central_loop (length r + 1) lossy r [] >>= λ o. ok (agrees streamed o)
