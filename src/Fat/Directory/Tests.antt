-- ===== src/Fat/Directory/Tests.antt =====
-- The walk of src/fat.rs over a small filesystem.
use hashdex.Base.{◌≡◌, refl, List, [], ◌∷◌, All}
use hashdex.Base.Text.{codes, trim_start}
use hashdex.Base.Outcome.{ok}
use hashdex.View.{
  mapped, logical_len, new, read_full_at, read_full_loop, read_at_logical, read_at, starting_by,
}
use hashdex.Fat.{
  size, chain, chain_loop, next, table_entry, table_word, link, in_data_area, push_run, cluster_at,
  cluster_bytes, truncate_runs, read_table, le16, le32,
}
use hashdex.Fat.Names.{Strings, short_name, long_name}
use hashdex.Fat.Sample.{view, volume, opened}
use hashdex.Fat.Truncation.{Between}
use hashdex.Fat.Directory.{
  FatFile, files, walk_dir, root_runs, entries, one_entry, named_entry, named, skipped_name,
  add_file, each, read_dir,
}
use hashdex.Fat.Layout.{tables_and_root}
use hashdex.Fat.Directory.Files.{files-inside_size}

-- Text in ASCII.
abbrev ascii : Strings
ascii = record { from_utf8_lossy = λ b. b; to_lowercase = λ t. t }

abbrev found : List FatFile
found = record { path = codes "A.TXT"; runs = (1536, 600) ∷ [] } ∷ []

walked : files ascii volume view ≡ ok (found, [])
unfolding files walk_dir root_runs entries one_entry named_entry named skipped_name add_file each
    read_dir short_name long_name chain chain_loop next table_entry table_word link in_data_area
    push_run cluster_at cluster_bytes truncate_runs read_table le16 le32 mapped logical_len new
    read_full_at read_full_loop read_at_logical read_at starting_by trim_start
walked = refl

files-inside_size_example :
    All (λ f. All (Between (tables_and_root volume) (size volume)) f.runs) found
files-inside_size_example = files-inside_size ascii volume view found [] opened walked
