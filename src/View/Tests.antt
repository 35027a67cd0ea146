-- ===== src/View/Tests.antt =====
-- Runs of src/peek_source.rs on a small file whose reads are short, and its theorems there.
use hashdex.Base.{
  ◌<◌, ◌-◌, ◌^◌, min, ◌≡◌, ◌⊎◌, ℕ, refl, sym, ap, ◌∙◌, List, [], ◌∷◌, map, length, take, drop,
  arith,
}
use hashdex.Base.{length-take, length-drop}
use hashdex.Base.Bytes.{Bytes}
use hashdex.Base.Outcome.{ok, err, ◌>>=◌}
use hashdex.Base.Slices.{take_at, take-min}
use hashdex.View.{
  file, Pread, View, Range, new, slice, read_full_at, seek, invalid_input, end_back, read_at,
  read_full_loop, read_at_logical, read_extent, starting_by, mapped, logical_len, seek_target,
}
use hashdex.View.Window.{Serves, IsView, view_bytes, range_bytes, new-IsView}
use hashdex.View.Reads.{read_full_at-take}
use hashdex.View.Slicing.{view_bytes-slice}
use hashdex.View.Cursor.{Sought, NamesNone, seek-Contiguous}
use hashdex.View.Spool.{spool_stream, spool_stream-Shows, Shows, concat}

-- At most two bytes a read.
abbrev two_at_most : Bytes → Pread
two_at_most c n off = ok (take (min n 2) (drop off c))

two_at_most-Serves : (c : Bytes) → Serves (file (two_at_most c)) c
unfolding read_at
two_at_most-Serves c n off =
    let got = take (min n 2) (drop off c) in
    let size : length got ≡ min (min n 2) (length c - off) =
      length-take (min n 2) (drop off c) ∙ ap (λ t. min (min n 2) t) (length-drop off c) in
    let cut : got ≡ take (length got) (drop off c) = sym (
      take_at (length got) (min (min n 2) (length (drop off c))) (drop off c)
        (length-take (min n 2) (drop off c))
      ∙ take-min (min n 2) (drop off c)) in
    (got, refl, cut, omega (arith, size), λ p q. omega (arith, size))

abbrev digits : Bytes
digits = 10 ∷ 11 ∷ 12 ∷ 13 ∷ 14 ∷ 15 ∷ 16 ∷ 17 ∷ []

abbrev two_runs : View
two_runs = new (file (two_at_most digits)) ((1, 3) ∷ (5, 0) ∷ (6, 2) ∷ [])

two_runs-IsView : IsView digits two_runs
two_runs-IsView =
    new-IsView digits (file (two_at_most digits)) ((1, 3) ∷ (5, 0) ∷ (6, 2) ∷ [])
      (two_at_most-Serves digits) (omega arith, (omega arith, (omega arith, tt)))

across_seam : read_full_at two_runs 3 2 ≡ ok (13 ∷ 16 ∷ 17 ∷ [])
unfolding read_full_at read_full_loop read_at_logical read_extent read_at new starting_by mapped
    logical_len
across_seam = refl

read_full_at-take_example :
    read_full_at two_runs 3 2 ≡ ok (take 3 (drop 2 (view_bytes digits two_runs)))
read_full_at-take_example = read_full_at-take digits two_runs two_runs-IsView 3 2

abbrev seam : List Range
seam = (2, 2) ∷ (4, 9) ∷ []

small : two_runs.len < 2 ^ 64
unfolding new logical_len
small = omega arith

view_bytes-slice_example :
    view_bytes digits (slice two_runs seam) ≡ range_bytes (view_bytes digits two_runs) seam
view_bytes-slice_example = view_bytes-slice digits two_runs two_runs-IsView small seam

seek_end_back : (seek two_runs (end_back 4) >>= λ r. ok r.0) ≡ ok 1
unfolding seek seek_target new logical_len
seek_end_back = refl

seek-Contiguous_example :
    ((t : ℕ) × Sought digits two_runs (end_back 4) (3 ∷ 1 ∷ 5 ∷ []) t)
    ⊎ (NamesNone two_runs (end_back 4) × (seek two_runs (end_back 4) ≡ err invalid_input))
seek-Contiguous_example =
    seek-Contiguous digits two_runs two_runs-IsView (end_back 4) (3 ∷ 1 ∷ 5 ∷ [])

abbrev chunks : List Bytes
chunks = (1 ∷ 2 ∷ []) ∷ (3 ∷ []) ∷ []

spool_stream-Shows_example :
    (v : View) × (spool_stream two_at_most (map ok chunks) ≡ ok (v, chunks))
    × Shows (concat chunks) v
spool_stream-Shows_example =
    spool_stream-Shows two_at_most two_at_most-Serves chunks (omega arith, (omega arith, tt))
