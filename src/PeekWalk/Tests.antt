-- ===== src/PeekWalk/Tests.antt =====
-- Heads, headers and archives of a few bytes, and the theorems at them.
use hashdex.Base.{
  ℕ, ◌+◌, ◌^◌, ◌<◌, ◌≡◌, refl, true, false, List, [], ◌∷◌, ◌++◌, length, take, map, replicate, some,
  none, arith,
}
use mathlib.Core.List.{append-nil}
use mathlib.Core.Path.{◌∙◌}
use hashdex.Base.Slices.{take-all}
use hashdex.Base.Bytes.{Bytes}
use hashdex.Base.Outcome.{ok}
use hashdex.Base.Text.{Text, codes}
use hashdex.View.{View, mem, new, read_full_at, slice}
use hashdex.View.Window.{IsView, view_bytes, new-IsView, view_bytes-new, mem-Serves}
use hashdex.PeekWalk.{
  gzip, zip, plain, bzip2, cheap, full, label, intern_label, intern_from, sniff, has_prefix, stands,
  unwrapped_name, unwrapped_from, choice, enters, not_entered, nested_too_deep, ranged_kind,
}
use hashdex.PeekWalk.Sniffing.{kind_of_bytes, ranged_kind-kind_of_bytes}
use hashdex.PeekWalk.Cpio.{
  Process, Child, cpio_loop, cpio_ranged, from_str_radix, radix_digits, trim_dot_slash,
}
use hashdex.PeekWalk.Cpio.Fields.{Stored, IsStored, header_bytes, hex_fixed}
use hashdex.PeekWalk.Cpio.Archive.{
  IsMember, IsTrailer, archive_bytes, members_bytes, files_of, tail_files, shown,
}
use hashdex.PeekWalk.Cpio.Children.{cpio_ranged-archive_bytes}
use hashdex.PeekWalk.Cpio.Fuel.{cpio_loop-cpio_ranged}

label_known : intern_label (codes "7z") ≡ codes "7z"
unfolding intern_label intern_from label
label_known = refl

label_unknown : intern_label (codes "7Z") ≡ codes "file"
unfolding intern_label intern_from label
label_unknown = refl

sniffs_bzip2 : sniff (codes "BZh9xyz") [] ≡ bzip2
unfolding sniff has_prefix stands
sniffs_bzip2 = refl

sniffs_plain : sniff (codes "BZh") [] ≡ plain
unfolding sniff has_prefix stands
sniffs_plain = refl

unwraps_tgz : unwrapped_name (codes "a.TGZ") gzip ≡ codes "a.tar"
unfolding unwrapped_name unwrapped_from
unwraps_tgz = refl

unwraps_other : unwrapped_name (codes "a") gzip ≡ codes "a~unpacked"
unfolding unwrapped_name unwrapped_from
unwraps_other = refl

cheap_leaves_gzip : choice cheap 0 3 gzip ≡ not_entered
unfolding choice enters
cheap_leaves_gzip = refl

deep_zip : choice full 1 17 zip ≡ nested_too_deep
unfolding choice enters
deep_zip = refl

radix_plus : from_str_radix (codes "+0001Af") ≡ some 431
unfolding from_str_radix radix_digits
radix_plus = refl

trims_twice : trim_dot_slash (codes "././a") ≡ codes "a"
unfolding trim_dot_slash
trims_twice = refl

abbrev bytes_text : Bytes → Text
bytes_text b = b

abbrev whole : Bytes → View
whole bytes = new (mem bytes) ((0, length bytes) ∷ [])

abbrev sample : Bytes
sample = codes "PK" ++ 3 ∷ 4 ∷ 0 ∷ []

sample-IsView : IsView sample (whole sample)
sample-IsView = new-IsView sample (mem sample) ((0, 5) ∷ []) (mem-Serves sample) (omega arith, tt)

ranged_kind-kind_of_bytes_example :
    ranged_kind (whole sample) (codes "a")
    ≡ ok (kind_of_bytes (view_bytes sample (whole sample)) (codes "a"))
ranged_kind-kind_of_bytes_example =
    ranged_kind-kind_of_bytes sample (whole sample) sample-IsView (codes "a")

whole-IsView : (bytes : Bytes) → IsView bytes (whole bytes)
whole-IsView bytes =
    new-IsView bytes (mem bytes) ((0, length bytes) ∷ []) (mem-Serves bytes) (omega arith, tt)

view_bytes-whole : (bytes : Bytes) → view_bytes bytes (whole bytes) ≡ bytes
view_bytes-whole bytes =
    view_bytes-new bytes (mem bytes) ((0, length bytes) ∷ [])
    ∙ append-nil (take (length bytes) bytes)
    ∙ take-all (length bytes) bytes (omega arith)

abbrev stored_as : ℕ → Text → Bytes → Stored
stored_as mode name bytes = record {
  checked = false;
  inode = replicate 8 b'0';
  mode = mode;
  owners = replicate 32 b'0';
  devices = replicate 32 b'0';
  check = replicate 8 b'0';
  name = name;
  contents = bytes;
}

abbrev a_file : Stored
a_file = stored_as 0x81a4 (codes "./a") (1 ∷ 2 ∷ 3 ∷ [])

abbrev a_dir : Stored
a_dir = stored_as 0x41ed (codes "d") []

abbrev the_trailer : Stored
the_trailer = stored_as 0 (codes "TRAILER!!!") []

stored_as-IsStored :
    (mode : ℕ) (name : Text) (bytes : Bytes)
    → mode < 16 ^ 8
    → length name + 1 < 16 ^ 8
    → length bytes < 16 ^ 8
    → IsStored (stored_as mode name bytes)
stored_as-IsStored mode name bytes m n b = record {
  inode_len = refl;
  owners_len = refl;
  devices_len = refl;
  check_len = refl;
  mode_small = m;
  name_small = n;
  data_small = b;
}

abbrev an_archive : Bytes
an_archive = archive_bytes (a_file ∷ a_dir ∷ []) the_trailer 5 (9 ∷ 8 ∷ [])

abbrev accepts : Process
accepts before child = none

archive_short : (whole an_archive).len < 2 ^ 64
unfolding members_bytes header_bytes hex_fixed new hashdex.View.logical_len
archive_short = omega arith

archive_files :
    files_of bytes_text (a_file ∷ a_dir ∷ []) ++ tail_files (9 ∷ 8 ∷ [])
    ≡ (codes "a", 1 ∷ 2 ∷ 3 ∷ []) ∷ (codes "segment-2", 9 ∷ 8 ∷ []) ∷ []
unfolding files_of trim_dot_slash
archive_files = refl

a_file-IsMember : IsMember bytes_text a_file
unfolding trim_dot_slash
a_file-IsMember = (
  stored_as-IsStored 0x81a4 (codes "./a") (1 ∷ 2 ∷ 3 ∷ []) (omega arith) (omega arith)
      (omega arith),
  refl,
)

a_dir-IsMember : IsMember bytes_text a_dir
unfolding trim_dot_slash
a_dir-IsMember =
    (stored_as-IsStored 0x41ed (codes "d") [] (omega arith) (omega arith) (omega arith), refl)

the_trailer-IsTrailer : IsTrailer bytes_text the_trailer true
unfolding trim_dot_slash
the_trailer-IsTrailer = refl

cpio_ranged-archive_bytes_example :
    (children : List Child) × (cpio_ranged bytes_text accepts (whole an_archive)
      ≡ (children, ok none))
    × (map (shown an_archive) children
        ≡ files_of bytes_text (a_file ∷ a_dir ∷ []) ++ tail_files (9 ∷ 8 ∷ []))
cpio_ranged-archive_bytes_example =
    cpio_ranged-archive_bytes bytes_text accepts an_archive (whole an_archive) (a_file ∷ a_dir ∷ [])
      the_trailer 5 (9 ∷ 8 ∷ []) (whole-IsView an_archive) archive_short (λ before child. refl)
      (a_file-IsMember, (a_dir-IsMember, tt))
      (stored_as-IsStored 0 (codes "TRAILER!!!") [] (omega arith) (omega arith) (omega arith))
      the_trailer-IsTrailer refl (view_bytes-whole an_archive)

sample_short : (whole sample).len < 9
unfolding new hashdex.View.logical_len
sample_short = omega arith

cpio_loop-cpio_ranged_example :
    cpio_loop 9 bytes_text accepts (whole sample) [] 0
    ≡ cpio_ranged bytes_text accepts (whole sample)
cpio_loop-cpio_ranged_example =
    cpio_loop-cpio_ranged bytes_text accepts sample (whole sample) 9 sample-IsView sample_short
