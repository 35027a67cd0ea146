-- ===== src/View/Spool.antt =====
-- src/peek_source.rs: `spool_stream`, which drains a stream into memory or, past
-- `RAM_SPOOL_MAX` bytes, into a temporary file.
--
-- A stream is the list of what its reads return; after the list it is at its end. The temporary
-- file is its contents, and `temp` answers the reads of a file with given contents.
use hashdex.Base.{
  ℕ, ◌*◌, ◌^◌, ◌≤◌, ◌<◌, ◌≡◌, refl, sym, ap, ◌∙◌, inl, inr, Option, none, some, List, [], ◌∷◌, ◌++◌,
  map, length, take, ltb, if◌then◌else◌, All, arith, Bool-cases, not_ltb→le,
}
use mathlib.Core.List.{append-nil, append_assoc}
use hashdex.Base.Bytes.{Bytes}
use hashdex.Base.Outcome.{Result, ok, err, ◌>>=◌}
use hashdex.Base.Slices.{take-all}
use hashdex.View.{PSource, mem, file, Pread, IoError, View, new}
use hashdex.View.Window.{Serves, IsView, view_bytes, mem-Serves, new-IsView, view_bytes-new}

abbrev ram_spool_max : ℕ
ram_spool_max = 256 * 2 ^ 20

-- The variables of the loop, and what was handed to `feed`.
record Spool : Type 0 where
  in_mem : Bytes
  on_disk : Option Bytes
  fed : List Bytes

-- One round of the loop, with the bytes that the read returned.
unfoldable stored : Bytes → Option Bytes → Bytes → Bytes × Option Bytes
stored m (some f) chunk = (m, some (f ++ chunk))
stored m none chunk =
    if ltb ram_spool_max (length (m ++ chunk)) then ([], some (m ++ chunk)) else (m ++ chunk, none)

unfoldable spool_chunk : Spool → Bytes → Spool
spool_chunk s chunk =
    let next = stored s.in_mem s.on_disk chunk in
    record { in_mem = next.0; on_disk = next.1; fed = s.fed ++ chunk ∷ [] }

unfoldable spool_loop : Spool → List (Result IoError Bytes) → Result IoError Spool
spool_loop s [] = ok s
spool_loop s (err e ∷ reads) = err e
spool_loop s (ok [] ∷ reads) = ok s
spool_loop s (ok (b ∷ bs) ∷ reads) = spool_loop (spool_chunk s (b ∷ bs)) reads

unfoldable spooled : (Bytes → Pread) → Bytes → Option Bytes → View
spooled temp m (some f) = new (file (temp f)) ((0, length f) ∷ [])
spooled temp m none = new (mem m) ((0, length m) ∷ [])

-- The view, and the chunks that were fed to the hash jobs.
pub spool_stream :
    (Bytes → Pread) → List (Result IoError Bytes) → Result IoError (View × List Bytes)
unfolding spool_loop spooled
spool_stream temp reads =
    spool_loop (record { in_mem = []; on_disk = none; fed = [] }) reads >>= λ s.
    ok (spooled temp s.in_mem s.on_disk, s.fed)

abbrev pub concat : List Bytes → Bytes
concat [] = []
concat (b ∷ bs) = b ++ concat bs

-- The bytes that the spool holds so far.
abbrev held : Bytes → Option Bytes → Bytes
held m (some f) = f
held m none = m

-- Chunks as a stream returns them before its end.
abbrev pub Nonempty : Bytes → Type 0
Nonempty b = 0 < length b

held-stored :
    (m : Bytes) (o : Option Bytes) (chunk : Bytes)
    → let next = stored m o chunk in held next.0 next.1 ≡ held m o ++ chunk
unfolding stored
held-stored m (some f) chunk = refl
held-stored m none chunk = elim (Bool-cases (ltb ram_spool_max (length (m ++ chunk)))) [
  | inl p ↦ rw p
  | inr p ↦ rw p
]

stored_small :
    (m : Bytes) (o : Option Bytes) (chunk : Bytes)
    → length m ≤ ram_spool_max
    → length (stored m o chunk).0 ≤ ram_spool_max
unfolding stored
stored_small m (some f) chunk h = h
stored_small m none chunk h = elim (Bool-cases (ltb ram_spool_max (length (m ++ chunk)))) [
  | inl p ↦ rw p (omega arith)
  | inr p ↦ rw p (not_ltb→le ram_spool_max (length (m ++ chunk)) p)
]

-- What the loop leaves, from a state `s`, after these chunks.
abbrev Drained : Spool → List Bytes → Spool → Type 0
Drained s chunks t =
    (held t.in_mem t.on_disk ≡ held s.in_mem s.on_disk ++ concat chunks)
    × (t.fed ≡ s.fed ++ chunks)
    × (length t.in_mem ≤ ram_spool_max)

spool_loop-Drained :
    (s : Spool) (chunks : List Bytes)
    → All Nonempty chunks
    → length s.in_mem ≤ ram_spool_max
    → (t : Spool) × (spool_loop s (map ok chunks) ≡ ok t) × Drained s chunks t
unfolding spool_loop spool_chunk
spool_loop-Drained s [] h small =
    (s, refl, (sym (append-nil (held s.in_mem s.on_disk)), sym (append-nil s.fed), small))
spool_loop-Drained s ([] ∷ chunks) (h, hs) small = absurd (omega arith)
spool_loop-Drained s ((b ∷ bs) ∷ chunks) (h, hs) small =
    let m = s.in_mem in
    let o = s.on_disk in
    let chunk = b ∷ bs in
    let (t, run, (contents, fed, left)) =
      spool_loop-Drained (spool_chunk s chunk) chunks hs (stored_small m o chunk small) in
    (
      t,
      run,
      (
        contents
            ∙ ap (λ u. u ++ concat chunks) (held-stored m o chunk)
            ∙ append_assoc (held m o) chunk (concat chunks),
        fed ∙ append_assoc s.fed (chunk ∷ []) chunks,
        left,
      ),
    )

-- A view that shows exactly the bytes `bs`.
abbrev pub Shows : Bytes → View → Type 0
Shows bs v = IsView bs v × (view_bytes bs v ≡ bs)

whole-Shows :
    (src : PSource) (bs : Bytes) → Serves src bs → Shows bs (new src ((0, length bs) ∷ []))
whole-Shows src bs s = (
  new-IsView bs src ((0, length bs) ∷ []) s (omega arith, tt),
  view_bytes-new bs src ((0, length bs) ∷ [])
      ∙ append-nil (take (length bs) bs)
      ∙ take-all (length bs) bs (omega arith),
)

spooled-Shows :
    (temp : Bytes → Pread)
    → ((f : Bytes) → Serves (file (temp f)) f)
    → (m : Bytes) (o : Option Bytes) → Shows (held m o) (spooled temp m o)
unfolding spooled
spooled-Shows temp works m (some f) = whole-Shows (file (temp f)) f (works f)
spooled-Shows temp works m none = whole-Shows (mem m) m (mem-Serves m)

-- A stream that ends without an error is spooled into a well-formed view of exactly its bytes,
-- whether in memory or in a temporary file that serves what was written to it, and its chunks are
-- fed in order.
pub spool_stream-Shows :
    (temp : Bytes → Pread)
    → ((f : Bytes) → Serves (file (temp f)) f)
    → (chunks : List Bytes) → All Nonempty chunks
    → (v : View) × (spool_stream temp (map ok chunks) ≡ ok (v, chunks)) × Shows (concat chunks) v
unfolding spool_stream
spool_stream-Shows temp works chunks h =
    let (t, run, (contents, fed, small)) =
      spool_loop-Drained (record { in_mem = []; on_disk = none; fed = [] }) chunks h
        (omega arith) in
    let v : View = spooled temp t.in_mem t.on_disk in
    let shows : Shows (held t.in_mem t.on_disk) v = spooled-Shows temp works t.in_mem t.on_disk in
    (v, rw (run, fed), rw contents at shows)
