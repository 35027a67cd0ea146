-- ===== src/Cache/Verdicts.antt =====
-- src/cache.rs: what `get` says after the answers that were put.
use hashdex.Base.{
  ℕ, ◌-◌, ◌≡◌, refl, ap, ◌∙◌, false, ◌&&◌, Option, none, some, List, [], ◌∷◌, All, leb,
  if◌then◌else◌, arith,
}
use hashdex.Base.Text.{Text, text_eq}
use hashdex.Coord.{Coord, Decoders, display}
use hashdex.Walk.{Finding}
use hashdex.Cache.{
  Json, Store, Cached, hit, miss, absent, miss_ttl_secs, row_at, observed, put, verdict, get,
}
use hashdex.Cache.Rows.{row_at-replace_row_self, row_at-replace_row_ne}

-- An answer that is put: what a source said of a coordinate, and when.
pub record Answer : Type 0 where
  pub source : Text
  pub asked : Coord
  pub findings : List Finding
  pub when : ℕ

unfoldable pub put_all : Decoders → Json → List Answer → Store → Store
put_all d j [] s = s
put_all d j (a ∷ answers) s = put_all d j answers (put d j a.when a.source a.asked a.findings s)

-- An answer of another source, or of another coordinate.
abbrev pub OtherAnswer : Text → Coord → Answer → Type 0
OtherAnswer b c a = (text_eq a.source b && text_eq (display a.asked) (display c)) ≡ false

-- What is remembered of findings, with the text that they were stored as, after so many seconds.
unfoldable pub remembered : List Finding → Option Text → ℕ → Cached
remembered [] t age = if leb age miss_ttl_secs then miss else absent
remembered (f ∷ fs) (some t) age = hit
remembered (f ∷ fs) none age = absent

pub row_at-put :
    (d : Decoders) (j : Json) (now : ℕ) (b : Text) (c : Coord) (fs : List Finding) (s : Store)
    → row_at b (display c) (put d j now b c fs s).observations ≡ some (observed j b c fs now)
unfolding put
row_at-put d j now b c fs s = row_at-replace_row_self (observed j b c fs now) s.observations

pub row_at-put_all :
    (d : Decoders) (j : Json) (b : Text) (c : Coord) (answers : List Answer) (s : Store)
    → All (OtherAnswer b c) answers
    → row_at b (display c) (put_all d j answers s).observations
      ≡ row_at b (display c) s.observations
unfolding put_all put
row_at-put_all d j b c [] s o = refl
row_at-put_all d j b c (a ∷ answers) s (o, os) =
    row_at-put_all d j b c answers (put d j a.when a.source a.asked a.findings s) os
    ∙ row_at-replace_row_ne b (display c) (observed j a.source a.asked a.findings a.when)
        s.observations o

verdict_lem :
    (j : Json) (b : Text) (c : Coord) (fs : List Finding) (now later : ℕ)
    → verdict later (some (observed j b c fs now)) ≡ remembered fs (j.to_string fs) (later - now)
unfolding remembered
verdict_lem j b c [] now later = ground arith
verdict_lem j b c (f ∷ fs) now later = go (j.to_string (f ∷ fs))
  where
    go :
        (o : Option Text)
        → verdict later (
            some (record {
              backend = b;
              coordinate = display c;
              hit = 1;
              finding = o;
              fetched_at = now;
            }))
          ≡ remembered (f ∷ fs) o (later - now)
    go none = refl
    go (some t) = refl

-- After a source's answer for a coordinate was put, and any answers of other sources or for other
-- coordinates, `get` tells a hit where the answer had findings that could be stored, however late; for
-- an answer without findings it tells a miss for the first 3 days, and nothing afterwards.
pub get-put_all :
    (d : Decoders) (j : Json) (now later : ℕ) (b : Text) (c : Coord) (fs : List Finding)
    (others : List Answer) (s : Store)
    → All (OtherAnswer b c) others
    → get later b c (put_all d j others (put d j now b c fs s))
      ≡ remembered fs (j.to_string fs) (later - now)
unfolding get
get-put_all d j now later b c fs others s o =
    ap (verdict later)
      (row_at-put_all d j b c others (put d j now b c fs s) o ∙ row_at-put d j now b c fs s)
    ∙ verdict_lem j b c fs now later
