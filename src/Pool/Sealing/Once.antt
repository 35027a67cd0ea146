-- ===== src/Pool/Sealing/Once.antt =====
-- src/peek_pool.rs: a member is sealed once, whatever the order in which its parts end.
use hashdex.Base.{
  ℕ, suc, ◌+◌, ◌≡◌, ◌⊎◌, refl, sym, ap, ◌∙◌, inl, inr, true, false, Option, none, some, List, [],
  ◌∷◌, length, ◌==◌, Bool-cases, arith,
}
use mathlib.Core.Path.{subst}
use mathlib.Core.List.{Memᴰ}
use mathlib.Core.List.Memᴰ
use hashdex.Base.Bytes.{Bytes}
use hashdex.Coord.{Scheme, md5, sha1, sha256, sha512, sha1_git, blake2s256, Coord}
use hashdex.Walk.{same_scheme}
use hashdex.Walk.Same.{same_scheme→eq, same_scheme_refl}
use hashdex.Pool.Sealing.{
  Digests, with_coord, coords, Partial, finalize, Meta, Build, digests_of, finish_part, Part,
  hashed, meta_closed, close_meta, end_with, end_all, new_build,
}

abbrev pub coord : Scheme → Bytes → Coord
coord s b = record { scheme = s; digest = b }

with_coord-head :
    (s : Scheme) (o : Option Bytes) (b : Bytes) (cs : List Coord)
    → o ≡ some b
    → Memᴰ (coord s b) (with_coord s o cs)
with_coord-head s none b cs e = cc
with_coord-head s (some x) b cs e = let e' : b ≡ x = cc in Memᴰ.head (ap (coord s) e')

with_coord-tail :
    (s : Scheme) (o : Option Bytes) (c : Coord) (cs : List Coord)
    → Memᴰ c cs
    → Memᴰ c (with_coord s o cs)
with_coord-tail s none c cs m = m
with_coord-tail s (some x) c cs m = Memᴰ.tail m

-- The member's state when so many parts are to come and `extra` more are to be counted: nothing is
-- sealed, and the digests of the jobs that ended are there.
module _ (value : Scheme → Bytes) (es : List Part)
    (one_each : (s : Scheme) (b : Bytes) → Memᴰ (hashed s b) es → b ≡ value s) where
  record Open (b : Build) (todo : List Part) (extra : ℕ) : Type 0 where
    counted : b.remaining ≡ extra + length todo
    meta_there : (m : Meta) × (b.meta ≡ some m)
    unsealed : b.sealed ≡ []
    sane : b.panicked ≡ false
    put :
        (s : Scheme)
        → Memᴰ (hashed s (value s)) es
        → Memᴰ (hashed s (value s)) todo ⊎ (b.parts s ≡ some (value s))

  abbrev Sub : List Part → Type 0
  Sub todo = (p : Part) → Memᴰ p todo → Memᴰ p es

  finalize-put :
      (p : Partial) (s t : Scheme) (x : Bytes) (ps : List Part)
      → x ≡ value s
      → Memᴰ (hashed t (value t)) (hashed s x ∷ ps) ⊎ (p t ≡ some (value t))
      → Memᴰ (hashed t (value t)) ps ⊎ (finalize s x p t ≡ some (value t))
  finalize-put p s t x ps own h = elim (Bool-cases (same_scheme s t)) [
    | inl e ↦ let same : s ≡ t = same_scheme→eq s t e in inr (rw e (ap some (own ∙ ap value same)))
    | inr ne ↦ elim h [
      | inr q ↦ inr (rw ne q)
      | inl m ↦ elim (Memᴰ.cases_cons m) [
        | inr q ↦ inl q
        | inl e ↦
            let same : t ≡ s = cc in
            cc (ne, subst (λ u. same_scheme s u ≡ true) (sym same) (same_scheme_refl s))
      ]
    ]
  ]

  finish_part-Open :
      (r : Build) (q : Part) (qs : List Part) → Open r (q ∷ qs) 1 → Open (finish_part r) (q ∷ qs) 0
  unfolding finish_part
  finish_part-Open r q qs h =
      let t : (r.remaining == 1) ≡ false = let c = h.counted in ground arith in
      rw t (record {
        counted = omega (arith, h.counted);
        meta_there = h.meta_there;
        unsealed = h.unsealed;
        sane = h.sane;
        put = h.put;
      })

  -- A member sealed once, whose coordinates have the digest of the job of `s`.
  abbrev pub SealedOnce : Build → Scheme → Type 0
  SealedOnce b s =
      (m : Meta) × (d : Digests) × (b.sealed ≡ (m, d) ∷ [])
      × (b.panicked ≡ false)
      × Memᴰ (coord s (value s)) (coords d)

  carried :
      (p : Partial) (s : Scheme)
      → p sha1 ≡ some (value sha1)
      → p sha256 ≡ some (value sha256)
      → p s ≡ some (value s)
      → (d : Digests) × (digests_of (p sha1) (p sha256) p ≡ some d)
        × Memᴰ (coord s (value s)) (coords d)
  carried p s e1 e2 e = (
    record {
      md5_digest = p md5;
      sha1_digest = value sha1;
      sha256_digest = value sha256;
      sha512_digest = p sha512;
      blake2s_digest = p blake2s256;
      sha1_git_digest = p sha1_git;
    },
    rw (e1, e2) refl,
    there s e,
  )
    where
      past :
          (c : Coord) (cs : List Coord)
          → Memᴰ c cs
          → Memᴰ c
              (with_coord md5 (p md5) (coord sha1 (value sha1) ∷ coord sha256 (value sha256) ∷ cs))
      past c cs m = with_coord-tail md5 (p md5) c _ (Memᴰ.tail (Memᴰ.tail m))

      there :
          (s : Scheme)
          → p s ≡ some (value s)
          → Memᴰ (coord s (value s)) (
              with_coord md5 (p md5) (
                coord sha1 (value sha1)
                ∷ coord sha256 (value sha256)
                ∷ with_coord sha512
                    (p sha512)
                    (with_coord blake2s256 (p blake2s256) (with_coord sha1_git (p sha1_git) []))))
      there md5 q = with_coord-head md5 (p md5) (value md5) _ q
      there sha1 q = with_coord-tail md5 (p md5) (coord sha1 (value sha1)) _ (Memᴰ.head refl)
      there sha256 q =
          with_coord-tail md5 (p md5) (coord sha256 (value sha256)) _ (Memᴰ.tail (Memᴰ.head refl))
      there sha512 q =
          past (coord sha512 (value sha512)) _
            (with_coord-head sha512 (p sha512) (value sha512) _ q)
      there blake2s256 q = past (coord blake2s256 (value blake2s256)) _ (
          with_coord-tail sha512 (p sha512) (coord blake2s256 (value blake2s256)) _
            (with_coord-head blake2s256 (p blake2s256) (value blake2s256) _ q))
      there sha1_git q = past (coord sha1_git (value sha1_git)) _ (
          with_coord-tail sha512 (p sha512) (coord sha1_git (value sha1_git)) _ (
            with_coord-tail blake2s256 (p blake2s256) (coord sha1_git (value sha1_git)) _
              (with_coord-head sha1_git (p sha1_git) (value sha1_git) _ q)))

  module _ (s : Scheme) (has1 : Memᴰ (hashed sha1 (value sha1)) es)
      (has2 : Memᴰ (hashed sha256 (value sha256)) es) (has : Memᴰ (hashed s (value s)) es) where
    ended :
        (r : Build) (t : Scheme)
        → Open r [] 1
        → Memᴰ (hashed t (value t)) es
        → r.parts t ≡ some (value t)
    ended r t h m = elim (h.put t m) [ inl nothing ↦ absurd (Memᴰ.not-nil nothing) | inr e ↦ e ]

    finish_part-SealedOnce : (r : Build) → Open r [] 1 → SealedOnce (finish_part r) s
    unfolding finish_part
    finish_part-SealedOnce r h =
        let t : (r.remaining == 1) ≡ true = let c = h.counted in ground arith in
        let (m, e) = h.meta_there in
        let (d, q, there) =
          carried r.parts s (ended r sha1 h has1) (ended r sha256 h has2) (ended r s h has) in
        (m, d, rw (t, e, q) (ap (λ u. (m, d) ∷ u) h.unsealed), rw (t, e, q) h.sane, there)

    -- A part that ended, before it is counted.
    Step : Part → List Part → Build → Type 0
    Step p ps b = (r : Build) × (end_with p b b.meta ≡ finish_part r) × Open r ps 1

    end_with-Open :
        (p : Part) (ps : List Part) (b : Build) → Memᴰ p es → Open b (p ∷ ps) 0 → Step p ps b
    unfolding Step
    end_with-Open (hashed t x) ps b m h = (
      record {
        remaining = b.remaining;
        meta = b.meta;
        parts = finalize t x b.parts;
        sealed = b.sealed;
        panicked = b.panicked;
      },
      refl,
      record {
        counted = omega (arith, h.counted);
        meta_there = h.meta_there;
        unsealed = h.unsealed;
        sane = h.sane;
        put = λ u k. finalize-put b.parts t u x ps (one_each t x m) (h.put u k);
      },
    )
    end_with-Open (meta_closed kind children n) ps b m h =
        let (old, e) = h.meta_there in
        (
          record {
            remaining = b.remaining;
            meta = some (close_meta kind children n old);
            parts = b.parts;
            sealed = b.sealed;
            panicked = b.panicked;
          },
          rw e refl,
          record {
            counted = omega (arith, h.counted);
            meta_there = (close_meta kind children n old, refl);
            unsealed = h.unsealed;
            sane = h.sane;
            put = λ u k. elim (h.put u k) [
              | inr q ↦ inr q
              | inl q ↦ elim (Memᴰ.cases_cons q) [ inl f ↦ cc | inr later ↦ inl later ]
            ];
          },
        )

    end_all-SealedOnce :
        (p : Part) (ps : List Part) (b : Build)
        → Sub (p ∷ ps)
        → Open b (p ∷ ps) 0
        → SealedOnce (end_all (p ∷ ps) b) s
    unfolding end_all Step
    end_all-SealedOnce p [] b sub h =
        let (r, e, after) = end_with-Open p [] b (sub p (Memᴰ.head refl)) h in
        subst (λ x. SealedOnce x s) (sym e) (finish_part-SealedOnce r after)
    end_all-SealedOnce p (q ∷ qs) b sub h =
        let (r, e, after) = end_with-Open p (q ∷ qs) b (sub p (Memᴰ.head refl)) h in
        subst (λ x. SealedOnce (end_all (q ∷ qs) x) s) (sym e)
          (end_all-SealedOnce q qs (finish_part r) (λ x m. sub x (Memᴰ.tail m))
            (finish_part-Open r q qs after))

    -- In whatever order the jobs of a member and the close of its metadata end, where a scheme has
    -- one digest and the sha1 and sha256 jobs are among them, as many as it was made for: it is
    -- sealed exactly once, without a panic, and its coordinates have the digest of each job.
    pub sealed_once : SealedOnce (end_all es (new_build (length es))) s
    sealed_once = start es refl has1
      where
        start :
            (todo : List Part)
            → todo ≡ es
            → Memᴰ (hashed sha1 (value sha1)) todo
            → SealedOnce (end_all es (new_build (length es))) s
        start [] e m = absurd (Memᴰ.not-nil m)
        start (p ∷ ps) e m =
            subst (λ l. SealedOnce (end_all l (new_build (length l))) s) e
              (end_all-SealedOnce p ps (new_build (suc (length ps))) (λ x k. subst (Memᴰ x) e k)
                (record {
                  counted = omega arith;
                  meta_there = (_, refl);
                  unsealed = refl;
                  sane = refl;
                  put = λ t k. inl (subst (Memᴰ (hashed t (value t))) (sym e) k);
                }))
