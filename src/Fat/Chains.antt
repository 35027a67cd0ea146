-- ===== src/Fat/Chains.antt =====
-- src/fat.rs: what a cluster chain is, and that `chain` follows exactly it.
use hashdex.Base.{
  ℕ, zero, suc, ◌+◌, ◌-◌, ◌*◌, ◌≤◌, ◌<◌, ◌≡◌, sym, ap, ap₂, ◌∙◌, inl, inr, true, none, some, List,
  [], ◌∷◌, ◌++◌, length, take, drop, All, ◌==◌, arith, Bool-cases, Option-cases,
}
use mathlib.Core.Path.{subst}
use mathlib.Core.List.{append-nil, append_assoc}
use hashdex.Base.Bytes.{Bytes}
use hashdex.Base.Outcome.{ok, ok-injective}
use hashdex.Base.Slices.{take-drop-take, drop-drop}
use hashdex.View.{Range}
use hashdex.View.Window.{range_bytes}
use hashdex.Fat.{Fat, cluster_bytes, cluster_at, next, push_run, in_data_area, chain_loop, chain}
use hashdex.Fat.Truncation.{Between}

-- The clusters of a chain: each in the data area, each named by the one before, and the last one
-- naming none.
abbrev pub Linked : Fat → Bytes → ℕ → List ℕ → Type 0
Linked fs table cur [] = in_data_area fs cur ≡ true × next fs table cur ≡ none
Linked fs table cur (n ∷ more) =
    (in_data_area fs cur ≡ true) × (next fs table cur ≡ some n) × Linked fs table n more

-- The bytes of a cluster, and those of a chain that starts at `cur`.
abbrev pub cluster_at_bytes : Fat → Bytes → ℕ → Bytes
cluster_at_bytes fs c cur = take (cluster_bytes fs) (drop (cluster_at fs cur) c)

abbrev pub chain_bytes : Fat → Bytes → ℕ → List ℕ → Bytes
chain_bytes fs c cur [] = cluster_at_bytes fs c cur
chain_bytes fs c cur (n ∷ more) = cluster_at_bytes fs c cur ++ chain_bytes fs c n more

range_bytes-push_run :
    (c : Bytes) (runs : List Range) (at size : ℕ)
    → range_bytes c (push_run runs at size) ≡ range_bytes c runs ++ take size (drop at c)
unfolding push_run
range_bytes-push_run c [] at size = append-nil (take size (drop at c))
range_bytes-push_run c ((o, l) ∷ []) at size = elim (Bool-cases (o + l == at)) [
  | inr p ↦ rw p (
      sym (append_assoc (take l (drop o c)) [] (take size (drop at c) ++ []))
      ∙ ap (λ u. (take l (drop o c) ++ []) ++ u) (append-nil (take size (drop at c))))
  | inl p ↦
      let follows : o + l ≡ at = ground arith in
      rw p (
        append-nil (take (l + size) (drop o c))
        ∙ sym (take-drop-take l size (drop o c))
        ∙ ap₂ (λ u w. u ++ take size w) (sym (append-nil (take l (drop o c))))
            (drop-drop l o c ∙ ap (λ n. drop n c) follows))
]
range_bytes-push_run c ((o, l) ∷ r ∷ runs) at size =
    ap (λ u. take l (drop o c) ++ u) (range_bytes-push_run c (r ∷ runs) at size)
    ∙ sym (append_assoc (take l (drop o c)) (range_bytes c (r ∷ runs)) (take size (drop at c)))

push_run-Between :
    (low high : ℕ) (runs : List Range) (at size : ℕ)
    → Between low high (at, size)
    → All (Between low high) runs
    → All (Between low high) (push_run runs at size)
unfolding push_run
push_run-Between low high [] at size b h = (b, tt)
push_run-Between low high ((o, l) ∷ []) at size b (h, hs) = elim (Bool-cases (o + l == at)) [
  | inr p ↦ rw p (h, (b, tt))
  | inl p ↦ let follows : o + l ≡ at = ground arith in rw p ((h.0, omega arith), tt)
]
push_run-Between low high (r ∷ r' ∷ runs) at size b (h, hs) =
    (h, push_run-Between low high (r' ∷ runs) at size b hs)

-- The data area of a filesystem: `cluster_count` clusters from `data_start`.
abbrev pub InDataArea : Fat → Range → Type 0
InDataArea fs = Between fs.data_start (fs.data_start + fs.cluster_count * cluster_bytes fs)

place_in_area : (i n k : ℕ) → i < n → i * k + k ≤ n * k
place_in_area i n k h = grind arith

cluster_at-InDataArea :
    (fs : Fat) (cur : ℕ)
    → 0 < fs.cluster_count
    → in_data_area fs cur ≡ true
    → InDataArea fs (cluster_at fs cur, cluster_bytes fs)
unfolding in_data_area cluster_at
cluster_at-InDataArea fs cur some_clusters h =
    let inside : cur - 2 < fs.cluster_count = ground arith in
    let k = cluster_bytes fs in
    (omega arith, omega (arith, place_in_area (cur - 2) fs.cluster_count k inside))

-- What `chain` finds: the clusters of a chain of at most `left` of them, and runs in the data area
-- that hold their bytes after those of `runs`.
abbrev Followed : Fat → Bytes → Bytes → ℕ → ℕ → List Range → List Range → Type 0
Followed fs table c left cur runs out =
    (more : List ℕ) × Linked fs table cur more
    × (length more < left)
    × (range_bytes c out ≡ range_bytes c runs ++ chain_bytes fs c cur more)

chain_loop-Followed :
    (fs : Fat) (table c : Bytes) (left cur : ℕ) (runs out : List Range)
    → chain_loop fs table left cur runs ≡ ok out
    → Followed fs table c left cur runs out
unfolding chain_loop
chain_loop-Followed fs table c zero cur runs out e = elim (Bool-cases (in_data_area fs cur)) [
  | inl p ↦ cc (rw p at e)
  | inr p ↦ cc (rw p at e)
]
chain_loop-Followed fs table c (suc left) cur runs out e =
    let pushed = push_run runs (cluster_at fs cur) (cluster_bytes fs) in
    let added = range_bytes-push_run c runs (cluster_at fs cur) (cluster_bytes fs) in
    elim (Bool-cases (in_data_area fs cur)) [
      | inr p ↦ cc (rw p at e)
      | inl p ↦ elim (Option-cases (next fs table cur)) [
        | inl q ↦ (
          [],
          (p, q),
          omega arith,
          ap (λ r. range_bytes c r) (sym (ok-injective pushed out (rw (p, q) at e))) ∙ added,
        )
        | inr (n, q) ↦
            let (more, linked, short, same) =
              chain_loop-Followed fs table c left n pushed out (rw (p, q) at e) in
            (
              n ∷ more,
              (p, q, linked),
              omega arith,
              same
                  ∙ ap (λ u. u ++ chain_bytes fs c n more) added
                  ∙ append_assoc (range_bytes c runs) (cluster_at_bytes fs c cur)
                      (chain_bytes fs c n more),
            )
      ]
    ]

chain_loop-InDataArea :
    (fs : Fat) (table : Bytes) (left cur : ℕ) (runs out : List Range)
    → left ≤ fs.cluster_count
    → chain_loop fs table left cur runs ≡ ok out
    → All (InDataArea fs) runs
    → All (InDataArea fs) out
unfolding chain_loop
chain_loop-InDataArea fs table zero cur runs out le e h = elim (Bool-cases (in_data_area fs cur)) [
  | inl p ↦ cc (rw p at e)
  | inr p ↦ cc (rw p at e)
]
chain_loop-InDataArea fs table (suc left) cur runs out le e h =
    let pushed = push_run runs (cluster_at fs cur) (cluster_bytes fs) in
    elim (Bool-cases (in_data_area fs cur)) [
      | inr p ↦ cc (rw p at e)
      | inl p ↦
          let inside : All (InDataArea fs) pushed =
            push_run-Between fs.data_start (fs.data_start + fs.cluster_count * cluster_bytes fs)
              runs (cluster_at fs cur) (cluster_bytes fs)
              (cluster_at-InDataArea fs cur (omega arith) p) h in
          elim (Option-cases (next fs table cur)) [
            | inl q ↦ subst (All (InDataArea fs)) (ok-injective pushed out (rw (p, q) at e)) inside
            | inr (n, q) ↦
                chain_loop-InDataArea fs table left n pushed out (omega arith) (rw (p, q) at e)
                  inside
          ]
    ]

Linked-chain_loop :
    (fs : Fat) (table c : Bytes) (left cur : ℕ) (more : List ℕ) (runs : List Range)
    → Linked fs table cur more
    → length more < left
    → (out : List Range) × (chain_loop fs table left cur runs ≡ ok out)
      × (range_bytes c out ≡ range_bytes c runs ++ chain_bytes fs c cur more)
unfolding chain_loop
Linked-chain_loop fs table c zero cur more runs h lt = absurd (omega arith)
Linked-chain_loop fs table c (suc left) cur [] runs (p, q) lt =
    let pushed = push_run runs (cluster_at fs cur) (cluster_bytes fs) in
    (pushed, rw (p, q), range_bytes-push_run c runs (cluster_at fs cur) (cluster_bytes fs))
Linked-chain_loop fs table c (suc left) cur (n ∷ more) runs (p, q, h) lt =
    let pushed = push_run runs (cluster_at fs cur) (cluster_bytes fs) in
    let (out, run, same) = Linked-chain_loop fs table c left n more pushed h (omega arith) in
    (
      out,
      rw (p, q) run,
      same
          ∙ ap (λ u. u ++ chain_bytes fs c n more)
              (range_bytes-push_run c runs (cluster_at fs cur) (cluster_bytes fs))
          ∙ append_assoc (range_bytes c runs) (cluster_at_bytes fs c cur) (chain_bytes fs c n more),
    )

-- The clusters of a chain, and runs that hold their bytes.
abbrev pub Chained : Fat → Bytes → Bytes → ℕ → List ℕ → List Range → Type 0
Chained fs table c start more runs =
    Linked fs table start more
    × (length more < fs.cluster_count)
    × (range_bytes c runs ≡ chain_bytes fs c start more)

-- Runs that `chain` returns lie in the data area and hold, in order, the bytes of the clusters of a
-- chain that starts where it was asked to, at most `cluster_count` of them.
pub chain-Chained :
    (fs : Fat) (table c : Bytes) (start : ℕ) (runs : List Range)
    → chain fs table start ≡ ok runs
    → All (InDataArea fs) runs × (more : List ℕ) × Chained fs table c start more runs
unfolding chain
chain-Chained fs table c start runs e =
    let (more, linked, short, same) =
      chain_loop-Followed fs table c fs.cluster_count start [] runs e in
    (
      chain_loop-InDataArea fs table fs.cluster_count start [] runs (omega arith) e tt,
      more,
      (linked, short, same),
    )

-- A chain of at most `cluster_count` clusters, all in the data area, is followed without an error,
-- and the runs hold its bytes; so a chain that is refused leaves the data area or has more clusters
-- than there are.
pub Linked-chain :
    (fs : Fat) (table c : Bytes) (start : ℕ) (more : List ℕ)
    → Linked fs table start more
    → length more < fs.cluster_count
    → (runs : List Range) × (chain fs table start ≡ ok runs) × Chained fs table c start more runs
unfolding chain
Linked-chain fs table c start more linked short =
    let (runs, run, same) =
      Linked-chain_loop fs table c fs.cluster_count start more [] linked short in
    (runs, run, (linked, short, same))
