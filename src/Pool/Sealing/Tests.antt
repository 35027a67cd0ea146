-- ===== src/Pool/Sealing/Tests.antt =====
-- A run of the sealing of src/peek_pool.rs, and the theorem at a concrete input.
use hashdex.Base.{◌≡◌, refl, sym, inl, inr, true, none, List, [], ◌∷◌, All, replicate}
use mathlib.Core.Path.{subst}
use mathlib.Core.List.{Memᴰ}
use mathlib.Core.List.Memᴰ
use hashdex.Base.Bytes.{Bytes}
use hashdex.Base.Text.{codes}
use hashdex.Coord.{Scheme, md5, sha1, sha256, sha512, blake2s256, digest_len}
use hashdex.Pool.Sealing.{Part, hashed, meta_closed, end_all, new_build}
use hashdex.Pool.Sealing.Once.{SealedOnce, sealed_once}

abbrev value : Scheme → Bytes
value s = replicate (digest_len s) 7

abbrev job : Scheme → Part
job s = hashed s (value s)

-- The walker closes the metadata while the jobs run.
abbrev ends : List Part
ends =
    job md5
    ∷ meta_closed (codes "tar") 2 none
    ∷ job sha256
    ∷ job sha1
    ∷ job sha512
    ∷ job blake2s256
    ∷ []

abbrev Own : Part → Type 0
Own (hashed s b) = b ≡ value s
Own (meta_closed k c n) = true ≡ true

all_own : All Own ends
all_own = (refl, (refl, (refl, (refl, (refl, (refl, tt))))))

own_of : (ps : List Part) (s : Scheme) (b : Bytes) → All Own ps → Memᴰ (hashed s b) ps → b ≡ value s
own_of [] s b a m = absurd (Memᴰ.not-nil m)
own_of (p ∷ ps) s b (h, hs) m = elim (Memᴰ.cases_cons m) [
  | inl e ↦ subst Own (sym e) h
  | inr q ↦ own_of ps s b hs q
]

sealed_once_example :
    SealedOnce value ends (λ s b m. own_of ends s b all_own m) (end_all ends (new_build 6)) md5
sealed_once_example =
    sealed_once value ends (λ s b m. own_of ends s b all_own m) md5
      (Memᴰ.tail (Memᴰ.tail (Memᴰ.tail (Memᴰ.head refl)))) (Memᴰ.tail (Memᴰ.tail (Memᴰ.head refl)))
      (Memᴰ.head refl)
