-- ===== src/Pool/Probe.antt =====
-- src/peek_pool.rs: `probe` asks the membership filters about a digest pair, and src/filter.rs: a
-- named filter. A check that panics is `none`.
mod Tests
use hashdex.Base.{
  ℕ, ◌*◌, ◌^◌, ◌≡◌, ◌⊎◌, ◌↔◌, refl, sym, ap, ◌∙◌, inl, inr, Bool, true, false, not, ◌&&◌, Option,
  none, some, List, [], ◌∷◌, ◌++◌, All, leb, if◌then◌else◌, Bool-cases, &&_true,
}
use mathlib.Core.List.{Memᴰ}
use mathlib.Core.List.Memᴰ
use hashdex.Base.Bytes.{Bytes}
use hashdex.Walk.Clusters.Groups.{Memᴰ-append}
use hashdex.Base.Sorting.{sort_by, dedup_by, lex_leb, Memᴰ-sort_by, Memᴰ-dedup_by}
use hashdex.Base.Text.{Text, text_eq, text_eq→eq}
use hashdex.Coord.{Scheme, md5, sha1, sha256, sha512, sha1_git, blake2s256}
use hashdex.Filter.{Bloom, check}
use hashdex.Filter.Key.{bloom_key}

pub record NamedFilter : Type 0 where
  pub name : Text
  pub scheme : Scheme
  pub bloom : Bloom
  pub bytes : ℕ

abbrev pub expensive_filter_bytes : ℕ
expensive_filter_bytes = 2 * 2 ^ 30

abbrev key_for : Option Text → Option Text → Scheme → Option Text
key_for key1 key2 sha1 = key1
key_for key1 key2 sha256 = key2
key_for key1 key2 md5 = none
key_for key1 key2 sha512 = none
key_for key1 key2 sha1_git = none
key_for key1 key2 blake2s256 = none

abbrev check_key : Bloom → Option Text → Option Bool
check_key b none = some false
check_key b (some key) = check b key

-- Whether a filter has one of the digests, false where it is keyed by another scheme.
unfoldable pub fires : Bytes → Bytes → NamedFilter → Option Bool
fires d1 d2 f = check_key f.bloom (key_for (bloom_key sha1 d1) (bloom_key sha256 d2) f.scheme)

abbrev some_matched : List Text → Bool
some_matched [] = false
some_matched (t ∷ ts) = true

abbrev note_match : Text → Bool → List Text → List Text
note_match t true matched = matched ++ (t ∷ [])
note_match t false matched = matched

abbrev with_hit : Option Bool → (Bool → Option (List Text × Bool)) → Option (List Text × Bool)
with_hit none k = none
with_hit (some b) k = k b

-- The loop over the filters, with the names matched so far and whether one was skipped.
probe_loop : Bytes → Bytes → Bool → List NamedFilter → List Text → Bool → Option (List Text × Bool)
probe_loop d1 d2 probe_all [] matched skipped = some (matched, skipped)
probe_loop d1 d2 probe_all (f ∷ fs) matched skipped =
    if not probe_all && leb expensive_filter_bytes f.bytes && some_matched matched
    then probe_loop d1 d2 probe_all fs matched true
    else with_hit (fires d1 d2 f)
        λ hit. probe_loop d1 d2 probe_all fs (note_match f.name hit matched) skipped

abbrev in_order : Option (List Text × Bool) → Option (List Text × Bool)
in_order none = none
in_order (some (matched, skipped)) = some (dedup_by text_eq (sort_by lex_leb matched), skipped)

pub probe : List NamedFilter → Bytes → Bytes → Bool → Option (List Text × Bool)
unfolding probe_loop
probe probe_order d1 d2 probe_all = in_order (probe_loop d1 d2 probe_all probe_order [] false)

-- A filter that answers.
abbrev pub Answers : Bytes → Bytes → NamedFilter → Type 0
Answers d1 d2 f = (b : Bool) × (fires d1 d2 f ≡ some b)

-- What the loop that may skip has, against the loop that asks every filter.
record Beside (m m' : List Text) (skipped : Bool) : Type 0 where
  within : (t : Text) → Memᴰ t m → Memᴰ t m'
  some_too : some_matched m ≡ some_matched m'
  same : skipped ≡ false → m ≡ m'
  matched_first : skipped ≡ true → some_matched m ≡ true

note_match-Beside :
    (t : Text) (hit : Bool) (m m' : List Text) (skipped : Bool)
    → Beside m m' skipped
    → Beside (note_match t hit m) (note_match t hit m') skipped
note_match-Beside t false m m' skipped h = h
note_match-Beside t true m m' skipped h = record {
  within = λ x p. elim (Memᴰ-append x m (t ∷ []) p) [
    | inl q ↦ Memᴰ.append_left (t ∷ []) (h.within x q)
    | inr q ↦ Memᴰ.append_right m' q
  ];
  some_too = more m ∙ sym (more m');
  same = λ e. ap (λ u. u ++ (t ∷ [])) (h.same e);
  matched_first = λ e. more m;
}
  where
    more : (ts : List Text) → some_matched (ts ++ (t ∷ [])) ≡ true
    more [] = refl
    more (x ∷ xs) = refl

-- A skipped filter may add a name to the other loop's only where both have one.
skip-Beside :
    (t : Text) (hit : Bool) (m m' : List Text) (skipped : Bool)
    → some_matched m ≡ true
    → Beside m m' skipped
    → Beside m (note_match t hit m') true
skip-Beside t hit m m' skipped s h = record {
  within = λ x p. grown hit x (h.within x p);
  some_too = s ∙ sym (kept hit m' (sym h.some_too ∙ s));
  same = λ e. cc;
  matched_first = λ e. s;
}
  where
    grown : (hit : Bool) (x : Text) → Memᴰ x m' → Memᴰ x (note_match t hit m')
    grown true x p = Memᴰ.append_left (t ∷ []) p
    grown false x p = p

    kept :
        (hit : Bool) (ts : List Text)
        → some_matched ts ≡ true
        → some_matched (note_match t hit ts) ≡ true
    kept true [] e = refl
    kept true (y ∷ ys) e = refl
    kept false ts e = e

probe_loop-Beside :
    (d1 d2 : Bytes) (fs : List NamedFilter) (m m' : List Text) (skipped : Bool)
    → All (Answers d1 d2) fs
    → Beside m m' skipped
    → (out out' : List Text) × (s : Bool) × (probe_loop d1 d2 false fs m skipped ≡ some (out, s))
      × (probe_loop d1 d2 true fs m' false ≡ some (out', false))
      × Beside out out' s
unfolding probe_loop
probe_loop-Beside d1 d2 [] m m' skipped a h = (m, m', skipped, refl, refl, h)
probe_loop-Beside d1 d2 (f ∷ fs) m m' skipped ((b, e), a) h =
    elim (Bool-cases (leb expensive_filter_bytes f.bytes && some_matched m)) [
      | inl t ↦
          let s = (&&_true (leb expensive_filter_bytes f.bytes) (some_matched m) t).1 in
          rw (t, e)
            (probe_loop-Beside d1 d2 fs m (note_match f.name b m') true a
              (skip-Beside f.name b m m' skipped s h))
      | inr t ↦
          rw (t, e)
            (probe_loop-Beside d1 d2 fs (note_match f.name b m) (note_match f.name b m') skipped a
              (note_match-Beside f.name b m m' skipped h))
    ]

abbrev sorted : List Text → List Text
sorted ts = dedup_by text_eq (sort_by lex_leb ts)

Memᴰ-sorted : (t : Text) (ts : List Text) → Memᴰ t (sorted ts) ↔ Memᴰ t ts
Memᴰ-sorted t ts =
    let (there, back) = Memᴰ-dedup_by text_eq text_eq→eq t (sort_by lex_leb ts) in
    let (first, last) = Memᴰ-sort_by lex_leb t ts in (λ m. first (there m), λ m. back (last m))

some_matched-member : (t : Text) (ts : List Text) → Memᴰ t ts → some_matched ts ≡ true
some_matched-member t [] m = absurd (Memᴰ.not-nil m)
some_matched-member t (x ∷ xs) m = refl

some_matched-sorted : (ts : List Text) → some_matched (sorted ts) ≡ some_matched ts
unfolding sort_by dedup_by
some_matched-sorted [] = refl
some_matched-sorted (x ∷ xs) =
    some_matched-member x (sorted (x ∷ xs)) ((Memᴰ-sorted x (x ∷ xs)).1 (Memᴰ.head refl))

empty-eq : (ts us : List Text) → some_matched ts ≡ some_matched us → ts ≡ [] → us ≡ []
empty-eq ts [] e f = refl
empty-eq ts (x ∷ xs) e f = cc (ap some_matched f, e)

All-intro : (P : Text → Type 0) (ts : List Text) → ((t : Text) → Memᴰ t ts → P t) → All P ts
All-intro P [] h = tt
All-intro P (t ∷ ts) h = (h t (Memᴰ.head refl), All-intro P ts (λ x m. h x (Memᴰ.tail m)))

-- Where every filter answers, the probe that may skip the expensive ones returns names that the
-- probe of all filters returns, none only where that returns none, and all of them if it skipped
-- nothing.
pub probe_skipping :
    (fs : List NamedFilter) (d1 d2 : Bytes)
    → All (Answers d1 d2) fs
    → (m m' : List Text) × (skipped : Bool) × (probe fs d1 d2 false ≡ some (m, skipped))
      × (probe fs d1 d2 true ≡ some (m', false))
      × All (λ t. Memᴰ t m') m
      × ((m ≡ []) ↔ (m' ≡ []))
      × ((skipped ≡ true) ⊎ (m ≡ m'))
unfolding probe
probe_skipping fs d1 d2 answers =
    let start : Beside [] [] false = record {
      within = λ t p. p;
      some_too = refl;
      same = λ e. refl;
      matched_first = λ e. cc;
    } in
    let (out, out', skipped, run, run', h) = probe_loop-Beside d1 d2 fs [] [] false answers start in
    let alike : some_matched (sorted out) ≡ some_matched (sorted out') =
      some_matched-sorted out ∙ h.some_too ∙ sym (some_matched-sorted out') in
    (
      sorted out,
      sorted out',
      skipped,
      rw run refl,
      rw run' refl,
      All-intro (λ t. Memᴰ t (sorted out')) (sorted out)
          (λ t p. (Memᴰ-sorted t out').1 (h.within t ((Memᴰ-sorted t out).0 p))),
      (empty-eq (sorted out) (sorted out') alike, empty-eq (sorted out') (sorted out) (sym alike)),
      elim (Bool-cases skipped) [ inl e ↦ inl e | inr e ↦ inr (ap sorted (h.same e)) ],
    )
