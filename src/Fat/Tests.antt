-- ===== src/Fat/Tests.antt =====
-- The theorems of src/fat.rs at a small filesystem.
use hashdex.Base.{ℕ, ◌≡◌, refl, List, [], ◌∷◌, take, All, arith}
use hashdex.Base.Outcome.{ok}
use hashdex.View.{Range}
use hashdex.View.Window.{range_bytes}
use hashdex.Fat.{
  chain, chain_loop, next, table_entry, table_word, link, in_data_area, push_run, cluster_at,
  cluster_bytes, truncate_runs,
}
use hashdex.Fat.Sample.{image, table, volume}
use hashdex.Fat.Truncation.{range_bytes-truncate_runs}
use hashdex.Fat.Chains.{Linked, Chained, InDataArea, chain-Chained, Linked-chain}

-- Clusters 2 and 3 are one run.
abbrev two_clusters : List Range
two_clusters = (1536, 1024) ∷ []

followed : chain volume table 2 ≡ ok two_clusters
unfolding chain chain_loop next table_entry table_word link in_data_area push_run cluster_at
    cluster_bytes
followed = refl

chain-Chained_example :
    All (InDataArea volume) two_clusters
    × (more : List ℕ) × Chained volume table image 2 more two_clusters
chain-Chained_example = chain-Chained volume table image 2 two_clusters followed

linked : Linked volume table 2 (3 ∷ [])
unfolding next table_entry table_word link in_data_area
linked = (refl, refl, (refl, refl))

Linked-chain_example :
    (runs : List Range) × (chain volume table 2 ≡ ok runs)
    × Chained volume table image 2 (3 ∷ []) runs
Linked-chain_example = Linked-chain volume table image 2 (3 ∷ []) linked (omega arith)

range_bytes-truncate_runs_example :
    range_bytes image (truncate_runs two_clusters 600) ≡ take 600 (range_bytes image two_clusters)
range_bytes-truncate_runs_example =
    range_bytes-truncate_runs image two_clusters 600 (omega arith, tt)
