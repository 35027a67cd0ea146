-- ===== src/PeekWalk/FormatTests.antt =====
-- Packages, iso9660 records and central directories of a few bytes, and the theorems at them.
use hashdex.Base.{
  ◌^◌, ◌<◌, ◌≡◌, ◌↔◌, refl, true, false, Bool, [], ◌∷◌, ◌++◌, length, replicate, Option, some,
  arith,
}
use hashdex.Base.Bytes.{Bytes}
use hashdex.Base.Outcome.{ok}
use hashdex.Base.Text.{Text, codes}
use hashdex.PeekWalk.Rpm.{
  Block, IsBlock, package_bytes, skip_rpm_headers, skip_rpm_headers-package_bytes,
}
use hashdex.PeekWalk.Iso.{
  IsoRecord, parse_iso_record, parse_iso_record-Total, rr_loop, before_semicolon, skip_dots,
}
use hashdex.PeekWalk.CentralDir.{reconcile_central_dir}
use hashdex.PeekWalk.CentralDir.Agreement.{
  Central, IsCentral, central_bytes, entries_of, reconcile_central_dir-central_bytes,
}

abbrev bytes_text : Bytes → Text
bytes_text b = b

abbrev a_block : Block
a_block = record { reserved = replicate 5 0; nindex = 1; hsize = 3; body = replicate 19 7 }

a_block-IsBlock : IsBlock a_block
a_block-IsBlock = record {
  reserved_len = refl;
  nindex_small = omega arith;
  hsize_small = omega arith;
  body_is = refl;
}

skip_rpm_headers-package_bytes_example :
    skip_rpm_headers
      (package_bytes (replicate 96 0) a_block (replicate 5 0) a_block (codes "payload"))
    ≡ ok (codes "payload")
skip_rpm_headers-package_bytes_example =
    skip_rpm_headers-package_bytes (replicate 96 0) a_block (replicate 5 0) a_block
      (codes "payload") refl a_block-IsBlock refl a_block-IsBlock

-- A record with a Rock Ridge name behind its own.
abbrev rock_ridge : Bytes
rock_ridge =
    46 ∷ 0 ∷ replicate 8 1
    ++ (replicate 8 2
        ++ (replicate 7 0
            ++ (2 ∷ replicate 6 0
                ++ (4 ∷ codes "A.;1" ++ (0 ∷ codes "NM" ++ (8 ∷ 1 ∷ 0 ∷ codes "abc"))))))

rock_ridge_name :
    parse_iso_record bytes_text rock_ridge
    ≡ some (
        some (record {
          lba = 0x01010101;
          size = 0x02020202;
          is_dir = true;
          more_extents = false;
          name = codes "abc";
        }))
unfolding parse_iso_record rr_loop before_semicolon skip_dots
rock_ridge_name = refl

parse_iso_record-Total_example :
    (r : Option IsoRecord) × (parse_iso_record bytes_text rock_ridge ≡ some r)
parse_iso_record-Total_example = parse_iso_record-Total bytes_text rock_ridge (omega arith)

abbrev a_central : Text → Central
a_central n = record {
  versions = replicate 12 0;
  crc = 77;
  sizes = replicate 8 0;
  places = replicate 12 0;
  name = n;
  extra = 1 ∷ [];
  comment = [];
}

a_central-IsCentral : (n : Text) → length n < 256 ^ 2 → IsCentral (a_central n)
a_central-IsCentral n h = record {
  versions_len = refl;
  crc_small = omega arith;
  sizes_len = refl;
  places_len = refl;
  name_small = h;
  extra_small = omega arith;
  comment_small = omega arith;
}

reconcile_central_dir-central_bytes_example :
    (b : Bool) × (reconcile_central_dir bytes_text
        (central_bytes (a_central (codes "d/")) (a_central (codes "a") ∷ []) 0x06054b50 [])
        ((codes "a", 77) ∷ [])
      ≡ ok b)
    × ((b ≡ true) ↔ (
        entries_of bytes_text (a_central (codes "d/") ∷ a_central (codes "a") ∷ [])
        ≡ (codes "a", 77) ∷ []))
reconcile_central_dir-central_bytes_example =
    reconcile_central_dir-central_bytes bytes_text (a_central (codes "d/"))
      (a_central (codes "a") ∷ []) 0x06054b50 [] ((codes "a", 77) ∷ [])
      (
        a_central-IsCentral (codes "d/") (omega arith),
        (a_central-IsCentral (codes "a") (omega arith), tt),
      )
      (omega arith) refl
