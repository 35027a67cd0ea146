-- ===== src/Cache/Reaching.antt =====
-- src/cache.rs: a finding that was put is reached from every coordinate that it names.
use hashdex.Base.{
  ℕ, ◌≡◌, refl, sym, ap, ap₂, ◌∙◌, inl, inr, true, ◌||◌, Option, none, some, List, [], ◌∷◌, ◌++◌,
  All, ◌==◌, if◌then◌else◌, Bool-cases, &&_true,
}
use mathlib.Core.List.{Memᴰ}
use mathlib.Core.List.Memᴰ
use mathlib.Core.Option.{some-injective}
use mathlib.Core.Path.{subst}
use hashdex.Base.Text.{Text, text_eq, text_eq→eq, text_eq_refl}
use hashdex.Coord.{Coord, Decoders, display}
use hashdex.Walk.{Finding, parsed, has_text}
use hashdex.Cache.{
  Json, Observation, CoordRow, Store, has_key, row_at, same_row, coord_row, index_all, index_coords,
  observed, put, with_text, texts_at, of_coord, texts_for, distinct, parse_findings, parse_all,
  or_one, findings_for,
}
use hashdex.Cache.Rows.{has_row, has_row-ignore_all, has_row-ignored}
use hashdex.Cache.Verdicts.{Answer, put_all, OtherAnswer, row_at-put, row_at-put_all}

has_text_left : (xs ys : List Text) (t : Text) → has_text xs t ≡ true → has_text (xs ++ ys) t ≡ true
has_text_left [] ys t h = cc
has_text_left (x ∷ xs) ys t h = elim (Bool-cases (text_eq x t)) [
  | inl p ↦ rw p refl
  | inr p ↦ rw p (has_text_left xs ys t (ap (λ b. b || has_text xs t) (sym p) ∙ h))
]

has_text_right :
    (xs ys : List Text) (t : Text) → has_text ys t ≡ true → has_text (xs ++ ys) t ≡ true
has_text_right [] ys t h = h
has_text_right (x ∷ xs) ys t h = elim (Bool-cases (text_eq x t)) [
  | inl p ↦ rw p refl
  | inr p ↦ rw p (has_text_right xs ys t h)
]

with_text_keep :
    (o : Option Text) (ts : List Text) (t : Text)
    → has_text ts t ≡ true
    → has_text (with_text o ts) t ≡ true
with_text_keep none ts t h = h
with_text_keep (some u) ts t h = has_text_right (u ∷ []) ts t h

-- The row of a key, where it is a hit, gives its text.
texts_at-row :
    (b k : Text) (os : List Observation) (o : Observation) (t : Text)
    → row_at b k os ≡ some o
    → o.hit ≡ 1
    → o.finding ≡ some t
    → has_text (texts_at b k os) t ≡ true
unfolding row_at texts_at
texts_at-row b k [] o t h one found = cc
texts_at-row b k (x ∷ os) o t h one found = elim (Bool-cases (has_key b k x)) [
  | inl p ↦
      let h' : some x ≡ some o = sym (ap (λ e. if e then some x else row_at b k os) p) ∙ h in
      let same : x ≡ o = some-injective x o h' in
      let is_one : (x.hit == 1) ≡ true = ap (λ y. y.hit == 1) same ∙ ap (λ n. n == 1) one in
      let text : x.finding ≡ some t = ap (λ (y : Observation). y.finding) same ∙ found in
      rw (p, is_one, text, text_eq_refl t) refl
  | inr p ↦
      let h' : row_at b k os ≡ some o = sym (ap (λ e. if e then some x else row_at b k os) p) ∙ h in
      rw p (texts_at-row b k os o t h' one found)
]

texts_for-row :
    (b k : Text) (c : Coord) (rows : List CoordRow) (os : List Observation) (t : Text)
    → has_row (coord_row b k c) rows ≡ true
    → has_text (texts_at b k os) t ≡ true
    → has_text (texts_for c rows os) t ≡ true
unfolding has_row texts_for
texts_for-row b k c [] os t h there = cc
texts_for-row b k c (x ∷ rows) os t h there = elim (Bool-cases (same_row x (coord_row b k c))) [
  | inl p ↦
      let (abc, k_same) = &&_true _ (text_eq x.coordinate k) p in
      let (ab, b_same) = &&_true _ (text_eq x.backend b) abc in
      let there' : has_text (texts_at x.backend x.coordinate os) t ≡ true =
        ap₂ (λ u w. has_text (texts_at u w os) t) (text_eq→eq x.backend b b_same)
          (text_eq→eq x.coordinate k k_same)
        ∙ there in
      rw ab (has_text_left (texts_at x.backend x.coordinate os) (texts_for c rows os) t there')
  | inr p ↦
      let h' : has_row (coord_row b k c) rows ≡ true =
        ap (λ e. e || has_row (coord_row b k c) rows) (sym p) ∙ h in
      let rest = texts_for-row b k c rows os t h' there in
      elim (Bool-cases (of_coord c x)) [
        | inl q ↦
            rw q (has_text_right (texts_at x.backend x.coordinate os) (texts_for c rows os) t rest)
        | inr q ↦ rw q rest
      ]
]

has_text-distinct :
    (ts : List Text) (t : Text) → has_text ts t ≡ true → has_text (distinct ts) t ≡ true
unfolding distinct
has_text-distinct [] t h = h
has_text-distinct (u ∷ ts) t h = elim (Bool-cases (text_eq u t)) [
  | inl p ↦ elim (Bool-cases (has_text (distinct ts) u)) [
    | inl q ↦ rw q (ap (has_text (distinct ts)) (sym (text_eq→eq u t p)) ∙ q)
    | inr q ↦ rw q (rw p refl)
  ]
  | inr p ↦
      let rest = has_text-distinct ts t (ap (λ b. b || has_text ts t) (sym p) ∙ h) in
      elim (Bool-cases (has_text (distinct ts) u)) [ inl q ↦ rw q rest | inr q ↦ rw q (rw p rest) ]
]

parse_all-Memᴰ :
    (j : Json) (f : Finding) (ts : List Text) (t : Text)
    → has_text ts t ≡ true
    → Memᴰ f (parse_findings j t)
    → Memᴰ f (parse_all j ts)
unfolding parse_all
parse_all-Memᴰ j f [] t h m = cc
parse_all-Memᴰ j f (u ∷ ts) t h m = elim (Bool-cases (text_eq u t)) [
  | inl p ↦ Memᴰ.append_left _ (subst (λ w. Memᴰ f (parse_findings j w)) (sym (text_eq→eq u t p)) m)
  | inr p ↦
      Memᴰ.append_right (parse_findings j u)
        (parse_all-Memᴰ j f ts t (ap (λ b. b || has_text ts t) (sym p) ∙ h) m)
]

has_row-index_all :
    (r : CoordRow) (d : Decoders) (b k : Text) (fs : List Finding) (rows : List CoordRow)
    → has_row r rows ≡ true
    → has_row r (index_all d b k fs rows) ≡ true
unfolding index_all
has_row-index_all r d b k [] rows h = h
has_row-index_all r d b k (f ∷ fs) rows h =
    has_row-index_all r d b k fs (index_coords d b k f rows)
      (has_row-ignore_all r b k (parsed d (f.coords ++ k ∷ [])) rows h)

has_row-indexed :
    (d : Decoders) (b k : Text) (c : Coord) (f : Finding) (fs : List Finding) (rows : List CoordRow)
    → Memᴰ f fs
    → Memᴰ c (parsed d (f.coords ++ k ∷ []))
    → has_row (coord_row b k c) (index_all d b k fs rows) ≡ true
unfolding index_all
has_row-indexed d b k c f [] rows m n = absurd (Memᴰ.not-nil m)
has_row-indexed d b k c f (g ∷ fs) rows m n = elim (Memᴰ.cases_cons m) [
  | inl e ↦ has_row-index_all (coord_row b k c) d b k fs (index_coords d b k g rows) (
      has_row-ignored b k c (parsed d (g.coords ++ k ∷ [])) rows
        (subst (λ h. Memᴰ c (parsed d (h.coords ++ k ∷ []))) e n))
  | inr m' ↦ has_row-indexed d b k c f fs (index_coords d b k g rows) m' n
]

indexed_by_put :
    (d : Decoders) (j : Json) (now : ℕ) (b : Text) (asked c : Coord) (f : Finding)
    (fs : List Finding) (s : Store)
    → Memᴰ f fs
    → Memᴰ c (parsed d (f.coords ++ display asked ∷ []))
    → has_row (coord_row b (display asked) c) (put d j now b asked fs s).coords ≡ true
unfolding put
indexed_by_put d j now b asked c f fs s m n =
    has_row-indexed d b (display asked) c f fs s.coords m n

has_row-put_all :
    (r : CoordRow) (d : Decoders) (j : Json) (answers : List Answer) (s : Store)
    → has_row r s.coords ≡ true
    → has_row r (put_all d j answers s).coords ≡ true
unfolding put_all put
has_row-put_all r d j [] s h = h
has_row-put_all r d j (a ∷ answers) s h =
    has_row-put_all r d j answers (put d j a.when a.source a.asked a.findings s)
      (has_row-index_all r d a.source (display a.asked) a.findings s.coords h)

observed_hit :
    (j : Json) (b : Text) (c : Coord) (f : Finding) (fs : List Finding) (now : ℕ) (t : Text)
    → Memᴰ f fs
    → j.to_string fs ≡ some t
    → ((observed j b c fs now).hit ≡ 1) × ((observed j b c fs now).finding ≡ some t)
observed_hit j b c f [] now t m h = absurd (Memᴰ.not-nil m)
observed_hit j b c f (g ∷ fs) now t m h = (refl, h)

-- A finding of an answer that was put is found at every coordinate that it names, and at the one that
-- was asked, where the answer's findings could be stored as a text and are read back from it, and
-- only answers of other sources or for other coordinates were put since.
pub findings_for-put_all :
    (d : Decoders) (j : Json) (now : ℕ) (b : Text) (asked c : Coord) (f : Finding)
    (fs : List Finding) (t : Text) (others : List Answer) (s : Store)
    → Memᴰ f fs
    → Memᴰ c (parsed d (f.coords ++ display asked ∷ []))
    → j.to_string fs ≡ some t
    → j.many t ≡ some fs
    → All (OtherAnswer b asked) others
    → Memᴰ f (findings_for j c (put_all d j others (put d j now b asked fs s)))
unfolding findings_for
findings_for-put_all d j now b asked c f fs t others s m n stored read o =
    let k = display asked in
    let s1 = put d j now b asked fs s in
    let s2 = put_all d j others s1 in
    let at : row_at b k s2.observations ≡ some (observed j b asked fs now) =
      row_at-put_all d j b asked others s1 o ∙ row_at-put d j now b asked fs s in
    let (one, text) = observed_hit j b asked f fs now t m stored in
    let there = texts_at-row b k s2.observations (observed j b asked fs now) t at one text in
    let indexed =
      has_row-put_all (coord_row b k c) d j others s1
        (indexed_by_put d j now b asked c f fs s m n) in
    let texts = texts_for c s2.coords s2.observations in
    let listed =
      has_text-distinct texts t (texts_for-row b k c s2.coords s2.observations t indexed there) in
    parse_all-Memᴰ j f (distinct texts) t listed
      (subst (λ q. Memᴰ f (or_one q (j.one t))) (sym read) m)
