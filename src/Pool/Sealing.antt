-- ===== src/Pool/Sealing.antt =====
-- src/peek_pool.rs: the assembly of a member. Its hash jobs and the close of its metadata come in any
-- order, and the last of them seals it.
--
-- A struct of one optional digest for each scheme is a function from the schemes. Of the metadata,
-- what the close and the notes write is modelled.
pub mod Once
mod Tests
use hashdex.Base.{
  ℕ, zero, suc, ◌+◌, ◌-◌, ◌≡◌, ◌⊎◌, refl, sym, ap, ◌∙◌, inl, inr, Bool, true, false, Option, none,
  some, List, [], ◌∷◌, ◌++◌, length, All, ◌==◌, if◌then◌else◌, Bool-cases, arith,
}
use mathlib.Core.Path.{subst}
use mathlib.Core.List.{Memᴰ}
use mathlib.Core.List.Memᴰ
use hashdex.Base.Bytes.{Bytes}
use hashdex.Base.Text.{Text, codes}
use hashdex.Coord.{Scheme, md5, sha1, sha256, sha512, sha1_git, blake2s256, Coord}
use hashdex.Walk.{same_scheme}
use hashdex.Walk.Same.{same_scheme→eq, same_scheme_refl}

pub record Digests : Type 0 where
  pub md5_digest : Option Bytes
  pub sha1_digest : Bytes
  pub sha256_digest : Bytes
  pub sha512_digest : Option Bytes
  pub blake2s_digest : Option Bytes
  pub sha1_git_digest : Option Bytes

abbrev pub with_coord : Scheme → Option Bytes → List Coord → List Coord
with_coord s none cs = cs
with_coord s (some b) cs = record { scheme = s; digest = b } ∷ cs

abbrev pub coords : Digests → List Coord
coords d = with_coord md5 d.md5_digest (
    with_coord sha1 (some d.sha1_digest) (
      with_coord sha256 (some d.sha256_digest) (
        with_coord sha512 d.sha512_digest
          (with_coord blake2s256 d.blake2s_digest (with_coord sha1_git d.sha1_git_digest [])))))

abbrev pub Partial : Type 0
Partial = Scheme → Option Bytes

-- `HState::finalize`
abbrev pub finalize : Scheme → Bytes → Partial → Partial
finalize s b p = λ t. if same_scheme s t then some b else p t

pub record Meta : Type 0 where
  pub kind : Text
  pub children : ℕ
  pub note : Option Text

pub record Build : Type 0 where
  pub remaining : ℕ
  pub meta : Option Meta
  pub parts : Partial
  pub sealed : List (Meta × Digests)
  pub panicked : Bool

abbrev pub digests_of : Option Bytes → Option Bytes → Partial → Option Digests
digests_of none d2 p = none
digests_of (some d1) none p = none
digests_of (some d1) (some d2) p = some (record {
  md5_digest = p md5;
  sha1_digest = d1;
  sha256_digest = d2;
  sha512_digest = p sha512;
  blake2s_digest = p blake2s256;
  sha1_git_digest = p sha1_git;
})

abbrev seal_as : Build → Option Meta → Option Digests → Build
seal_as b (some m) (some d) = record {
  remaining = b.remaining;
  meta = none;
  parts = λ s. none;
  sealed = (m, d) ∷ b.sealed;
  panicked = b.panicked;
}
seal_as b (some m) none = record {
  remaining = b.remaining;
  meta = none;
  parts = λ s. none;
  sealed = b.sealed;
  panicked = true;
}
seal_as b none d = record {
  remaining = b.remaining;
  meta = none;
  parts = b.parts;
  sealed = b.sealed;
  panicked = true;
}

abbrev pub seal : Build → Build
seal b = seal_as b b.meta (digests_of (b.parts sha1) (b.parts sha256) b.parts)

-- The count is decremented, and the old one decides.
unfoldable pub finish_part : Build → Build
finish_part b =
    let less : Build = record {
      remaining = b.remaining - 1;
      meta = b.meta;
      parts = b.parts;
      sealed = b.sealed;
      panicked = b.panicked;
    } in
    if b.remaining == 1 then seal less else less

-- What ends for a member: the job of a scheme, or the walker's part.
pub data Part : Type 0 where
  hashed : Scheme → Bytes → Part
  meta_closed : Text → ℕ → Option Text → Part

abbrev noted : Option Text → Option Text → Option Text
noted old none = old
noted none (some n) = some n
noted (some prev) (some n) = some (prev ++ codes "; " ++ n)

abbrev pub close_meta : Text → ℕ → Option Text → Meta → Meta
close_meta kind children n m = record { kind = kind; children = children; note = noted m.note n }

abbrev pub end_with : Part → Build → Option Meta → Build
end_with (hashed s b) r m = finish_part (record {
  remaining = r.remaining;
  meta = m;
  parts = finalize s b r.parts;
  sealed = r.sealed;
  panicked = r.panicked;
})
end_with (meta_closed kind children n) r (some m) = finish_part (record {
  remaining = r.remaining;
  meta = some (close_meta kind children n m);
  parts = r.parts;
  sealed = r.sealed;
  panicked = r.panicked;
})
end_with (meta_closed kind children n) r none = record {
  remaining = r.remaining;
  meta = none;
  parts = r.parts;
  sealed = r.sealed;
  panicked = true;
}

unfoldable pub end_all : List Part → Build → Build
unfolding finish_part
end_all [] b = b
end_all (p ∷ ps) b = end_all ps (end_with p b b.meta)

-- A member of so many parts, before any of them ended.
abbrev pub new_build : ℕ → Build
new_build n = record {
  remaining = n;
  meta = some (record { kind = codes "file"; children = 0; note = none });
  parts = λ s. none;
  sealed = [];
  panicked = false;
}
