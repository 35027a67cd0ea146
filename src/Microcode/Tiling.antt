-- ===== src/Microcode/Tiling.antt =====
-- src/microcode.rs: `split` finds exactly the chain of entries that tiles the blob.
use hashdex.Base.{
  ℕ, zero, suc, ◌+◌, ◌≤◌, ◌<◌, ◌≡◌, refl, sym, ap, ◌↔◌, inl, inr, true, false, some, List, [], ◌∷◌,
  length, leb, ◌==◌, arith, Bool-cases, lt→not_leb, le→leb, not_leb→lt, ==_iff,
}
use mathlib.Core.Path.{subst}
use mathlib.Core.Option.{none-ne-some, some-injective}
use hashdex.Base.Bytes.{Bytes}
use hashdex.Microcode.{
  Vendor, Entry, max_entries, ◌>>◌, entry, split_loop, split_as, found, amd, intel, is_some,
  intel_header, amd_magic, starts_with, split,
}
use hashdex.Microcode.Fuel.{bind_some, then_some-true, entry-positive}

-- Entries from `pos` to the end of the blob, each where the one before ends, each of the length
-- that its own bytes state.
abbrev pub Chain : Vendor → Bytes → ℕ → List Entry → Type 0
Chain v b pos [] = pos ≡ length b
Chain v b pos ((at, len) ∷ es) = (at ≡ pos) × (entry v b pos ≡ some len) × Chain v b (pos + len) es

Chain-le : (v : Vendor) (b : Bytes) (pos : ℕ) (es : List Entry) → Chain v b pos es → pos ≤ length b
Chain-le v b pos [] h = omega arith
Chain-le v b pos ((at, len) ∷ es) (a, e, h) = omega (arith, Chain-le v b (pos + len) es h)

-- One round of the loop, given what the rest of it returns.
one_more :
    (v : Vendor) (b : Bytes) (fuel pos n : ℕ) (es : List Entry)
    → n < max_entries
    → (entry v b pos >> λ len.
        (split_loop v b fuel (pos + len) (suc n) >> λ rest. some ((pos, len) ∷ rest)))
      ≡ some es
    → ((len : ℕ) (rest : List Entry)
        → suc n ≤ max_entries
        → split_loop v b fuel (pos + len) (suc n) ≡ some rest
        → Chain v b (pos + len) rest × (suc n + length rest ≤ max_entries))
    → Chain v b pos es × (n + length es ≤ max_entries)
one_more v b fuel pos n es lt h ih =
    let (len, found_len, run) =
      bind_some (entry v b pos)
        (λ len. (split_loop v b fuel (pos + len) (suc n) >> λ rest. some ((pos, len) ∷ rest))) es
        h in
    let (rest, found_rest, same) =
      bind_some (split_loop v b fuel (pos + len) (suc n)) (λ rest. some ((pos, len) ∷ rest)) es
        run in
    let (chain, small) = ih len rest (omega arith) found_rest in
    let whole : (pos, len) ∷ rest ≡ es = some-injective ((pos, len) ∷ rest) es same in
    rw (← whole) ((refl, found_len, chain), omega arith)

split_loop-Chain :
    (v : Vendor) (b : Bytes) (fuel pos n : ℕ) (es : List Entry)
    → n ≤ max_entries
    → split_loop v b fuel pos n ≡ some es
    → Chain v b pos es × (n + length es ≤ max_entries)
unfolding split_loop
split_loop-Chain v b zero pos n es le h = absurd (none-ne-some es h)
split_loop-Chain v b (suc fuel) pos n es le h = elim (Bool-cases (leb (length b) pos)) [
  | inl p ↦
      let (at_end, same) = then_some-true (pos == length b) [] es (rw p at h) in
      let exact : pos ≡ length b = (==_iff pos (length b)).0 at_end in
      rw (← same) (exact, omega arith)
  | inr p ↦ elim (Bool-cases (leb max_entries n)) [
    | inl q ↦ absurd (none-ne-some es (rw (p, q) at h))
    | inr q ↦
        one_more v b fuel pos n es (not_leb→lt max_entries n q) (rw (p, q) at h)
          (λ len. split_loop-Chain v b fuel (pos + len) (suc n))
  ]
]

Chain-split_loop :
    (v : Vendor) (b : Bytes) (fuel pos n : ℕ) (es : List Entry)
    → length b < fuel + pos
    → Chain v b pos es
    → n + length es ≤ max_entries
    → split_loop v b fuel pos n ≡ some es
unfolding split_loop
Chain-split_loop v b zero pos n es enough c small = absurd (omega (arith, Chain-le v b pos es c))
Chain-split_loop v b (suc fuel) pos n [] enough c small =
    let at_end : leb (length b) pos ≡ true = le→leb (length b) pos (omega arith) in
    let exact : (pos == length b) ≡ true = (==_iff pos (length b)).1 c in rw (at_end, exact)
Chain-split_loop v b (suc fuel) pos n ((at, len) ∷ es) enough (a, e, c) small =
    let positive = entry-positive v b pos len e in
    let before_end : leb (length b) pos ≡ false =
      lt→not_leb (length b) pos (omega (arith, Chain-le v b (pos + len) es c)) in
    let room : leb max_entries n ≡ false = lt→not_leb max_entries n (omega arith) in
    let rest = Chain-split_loop v b fuel (pos + len) (suc n) es (omega arith) c (omega arith) in
    rw (before_end, room, e, rest) (ap (λ p. some ((p, len) ∷ es)) (sym a))

length-positive : (e : Entry) (es : List Entry) → 0 < length (e ∷ es)
length-positive e es = omega arith

found-some :
    (v w : Vendor) (all es : List Entry)
    → found v all ≡ some (w, es)
    → (v ≡ w) × (all ≡ es) × (0 < length es)
unfolding found
found-some v w [] es h = absurd (none-ne-some (w, es) h)
found-some v w (e ∷ all) es h =
    let same : (v, e ∷ all) ≡ (w, es) = some-injective (v, e ∷ all) (w, es) h in
    let lists : e ∷ all ≡ es = ap (λ p. p.1) same in
    (ap (λ p. p.0) same, lists, rw (← lists) (length-positive e all))

-- What a splitting promises: a chain that tiles the blob, not empty and not too long.
abbrev pub Splits : Vendor → Bytes → List Entry → Type 0
Splits v b es = Chain v b 0 es × (0 < length es) × (length es ≤ max_entries)

split_as-Splits :
    (v w : Vendor) (b : Bytes) (es : List Entry)
    → split_as v b ≡ some (w, es)
    → (v ≡ w) × Splits v b es
unfolding split_as
split_as-Splits v w b es h =
    let (all, run, rest) = bind_some (split_loop v b (suc (length b)) 0 0) (found v) (w, es) h in
    let (vendor, same, some_entry) = found-some v w all es rest in
    let (chain, small) = split_loop-Chain v b (suc (length b)) 0 0 all (omega arith) run in
    (vendor, (rw (← same) (chain), some_entry, rw (← same) (omega arith)))

Splits-split_as :
    (v : Vendor) (b : Bytes) (es : List Entry) → Splits v b es → split_as v b ≡ some (v, es)
unfolding split_as found
Splits-split_as v b [] (chain, some_entry, small) = absurd (omega arith)
Splits-split_as v b (e ∷ es) (chain, some_entry, small) =
    rw (Chain-split_loop v b (suc (length b)) 0 0 (e ∷ es) (omega arith) chain (omega arith)) refl

-- For one vendor's layout, the splitting returns a list of entries exactly when they are a chain that
-- tiles the blob, each of the length that its own bytes state, not empty and at most 8192 long.
pub split_as_iff :
    (v : Vendor) (b : Bytes) (es : List Entry) → (split_as v b ≡ some (v, es)) ↔ Splits v b es
split_as_iff v b es = (λ h. (split_as-Splits v v b es h).1, Splits-split_as v b es)

-- Whatever `split` returns tiles the blob exactly, with entries of the vendor that it names, at least
-- one and at most 8192.
split-Splits : (v : Vendor) (b : Bytes) (es : List Entry) → split b ≡ some (v, es) → Splits v b es
unfolding split
split-Splits v b es h = elim (Bool-cases (starts_with b amd_magic)) [
  | inl p ↦
      let (same, splits) = split_as-Splits amd v b es (rw p at h) in
      subst (λ w. Splits w b es) same splits
  | inr p ↦ elim (Bool-cases (is_some (intel_header b 0))) [
    | inl q ↦
        let (same, splits) = split_as-Splits intel v b es (rw (p, q) at h) in
        subst (λ w. Splits w b es) same splits
    | inr q ↦ absurd (none-ne-some (v, es) (rw (p, q) at h))
  ]
]
