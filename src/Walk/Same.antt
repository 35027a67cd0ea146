-- ===== src/Walk/Same.antt =====
-- src/coord.rs: the derived equality of coordinates.
use hashdex.Base.{ℕ, zero, suc, ◌≡◌, refl, sym, ap, ◌∙◌, true, arith, &&_true}
use hashdex.Base.Text.{text_eq, text_eq→eq, text_eq_refl}
use hashdex.Coord.{Scheme, md5, sha1, sha256, sha512, sha1_git, blake2s256, Coord}
use hashdex.Walk.{tag, same_scheme, same_coord}

untag : ℕ → Scheme
untag zero = md5
untag (suc zero) = sha1
untag (suc (suc zero)) = sha256
untag (suc (suc (suc zero))) = sha512
untag (suc (suc (suc (suc zero)))) = sha1_git
untag (suc (suc (suc (suc (suc n))))) = blake2s256

untag-tag : (a : Scheme) → untag (tag a) ≡ a
unfolding untag
untag-tag md5 = refl
untag-tag sha1 = refl
untag-tag sha256 = refl
untag-tag sha512 = refl
untag-tag sha1_git = refl
untag-tag blake2s256 = refl

pub same_scheme→eq : (a b : Scheme) → same_scheme a b ≡ true → a ≡ b
same_scheme→eq a b h =
    let e : tag a ≡ tag b = ground arith in sym (untag-tag a) ∙ ap untag e ∙ untag-tag b

pub same_scheme_refl : (a : Scheme) → same_scheme a a ≡ true
same_scheme_refl md5 = refl
same_scheme_refl sha1 = refl
same_scheme_refl sha256 = refl
same_scheme_refl sha512 = refl
same_scheme_refl sha1_git = refl
same_scheme_refl blake2s256 = refl

pub same_coord→eq : (a b : Coord) → same_coord a b ≡ true → a ≡ b
same_coord→eq a b h =
    let (p, q) = &&_true (same_scheme a.scheme b.scheme) (text_eq a.digest b.digest) h in
    let e = same_scheme→eq a.scheme b.scheme p in
    let e' = text_eq→eq a.digest b.digest q in λ i. record { scheme = e i; digest = e' i }

pub same_coord_refl : (a : Coord) → same_coord a a ≡ true
same_coord_refl a = rw (same_scheme_refl a.scheme, text_eq_refl a.digest) refl
