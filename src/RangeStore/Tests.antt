-- ===== src/RangeStore/Tests.antt =====
-- Runs of src/range_store.rs on a file of 20 bytes, and its theorems there.
use hashdex.Base.{◌+◌, ◌-◌, ◌^◌, ◌≡◌, refl, ◌⊎◌, none, some, [], ◌∷◌, length, take, drop, arith}
use hashdex.Base.Bytes.{Bytes}
use hashdex.RangeStore.{
  RangeStore, with_fetch_block, insert, put, cached, held_at, last_range, get_bytes, read, halving,
}
use hashdex.RangeStore.Retry.{IsStore, IsNear, Retried, get_bytes-Retried, insert-IsStore}
use hashdex.RangeStore.Cursor.{Served, Misses, read-Served}

abbrev remote : Bytes
remote =
    0 ∷ 1 ∷ 2 ∷ 3 ∷ 4 ∷ 5 ∷ 6 ∷ 7 ∷ 8 ∷ 9 ∷ 10 ∷ 11 ∷ 12 ∷ 13 ∷ 14 ∷ 15 ∷ 16 ∷ 17 ∷ 18 ∷ 19 ∷ []

abbrev partial : RangeStore
partial = insert (with_fetch_block 20 5) 4 (4 ∷ 5 ∷ 6 ∷ 7 ∷ 8 ∷ 9 ∷ [])

partial-IsStore : IsStore remote partial
unfolding with_fetch_block
partial-IsStore =
    insert-IsStore remote (with_fetch_block 20 5) 4 (4 ∷ 5 ∷ 6 ∷ 7 ∷ 8 ∷ 9 ∷ []) (refl, tt)
      (refl, omega arith)

halved : read 32 partial 6 16 ≡ some (some (6 ∷ 7 ∷ 8 ∷ [], 9), partial)
unfolding read halving cached last_range insert put with_fetch_block
halved = refl

-- A range inside a longer one hides what the longer one holds after it.
hidden : cached 32 (insert partial 5 (5 ∷ [])) 6 2 ≡ some none
unfolding cached last_range insert put with_fetch_block
hidden = refl

-- 4 GiB past the start of a range, a `usize` of 32 bits finds its first byte.
far : cached 32 (insert (with_fetch_block (2 ^ 33) 5) 0 (7 ∷ [])) (2 ^ 32) 1 ≡ some (some (7 ∷ []))
unfolding cached last_range insert put with_fetch_block
far = refl

far_64 : cached 64 (insert (with_fetch_block (2 ^ 33) 5) 0 (7 ∷ [])) (2 ^ 32) 1 ≡ some none
unfolding cached last_range insert put with_fetch_block
far_64 = refl

-- A read that runs past 4 GiB within a range wraps its end: the slice panics.
wrapped : held_at 32 (7 ∷ []) (2 ^ 32 - 1) 2 ≡ none
wrapped = refl

partial-IsNear_8 : IsNear 32 partial 8 3
unfolding last_range insert put with_fetch_block
partial-IsNear_8 = omega arith

partial-IsNear_6 : IsNear 32 partial 6 14
unfolding last_range insert put with_fetch_block
partial-IsNear_6 = omega arith

get_bytes-Retried_example :
    (get_bytes 32 partial 8 3 ≡ some (some (take 3 (drop 8 remote)), partial))
    ⊎ Retried 32 remote partial 8 3
get_bytes-Retried_example =
    get_bytes-Retried 32 remote partial 8 3 partial-IsStore partial-IsNear_8 (omega arith)
      (omega arith)

read-Served_example :
    ((got : Bytes) × (read 32 partial 6 16 ≡ some (some (got, 6 + length got), partial))
      × Served remote 6 16 got)
    ⊎ Misses 32 remote partial 6 16
unfolding insert with_fetch_block
read-Served_example =
    read-Served 32 remote partial 6 16 partial-IsStore partial-IsNear_6 (omega arith) (omega arith)
