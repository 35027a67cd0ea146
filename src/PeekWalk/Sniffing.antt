-- ===== src/PeekWalk/Sniffing.antt =====
-- src/peek_walk.rs: `sniff` and the kind in `process_ranged`, which read a head and a descriptor's
-- magic, against rules on all of a member's bytes.
use hashdex.Base.{
  ℕ, zero, suc, ◌+◌, ◌-◌, ◌≤◌, ◌<◌, ◌≡◌, refl, sym, ap, ◌∙◌, inl, inr, Bool, false, ◌&&◌, ◌||◌,
  List, All, get_or, ap₂, not_leb→lt, length-drop, [], ◌∷◌, ◌++◌, length, take, drop, leb, ltb,
  ◌==◌, if◌then◌else◌, arith, Bool-cases, length-take, get_or-take,
}
use hashdex.Base.Bytes.{Bytes}
use hashdex.Base.Outcome.{ok}
use hashdex.Base.Slices.{take-take, take_at, drop-take}
use hashdex.Base.Text.{Text, codes, text_eq, text_eq→eq, within}
use hashdex.Fat.{looks_like}
use hashdex.Fat.Head.{looks_like-take}
use hashdex.View.{View}
use hashdex.View.Window.{IsView, view_bytes}
use hashdex.View.Reads.{read_full_at-take, length-view_bytes}
use hashdex.PeekWalk.{
  Kind, gzip, xz, zstd, bzip2, tar, zip, ar, rpm, cpio, squash_fs, erofs, seven_z, iso, fat_fs,
  plain, ends_with, to_ascii_lowercase, has_prefix, stands, sniff, is_plain, head_len, iso_or,
  fat_or, descriptor_kind, ranged_kind,
}

has_prefix-take :
    (p : Bytes) (n : ℕ) (s : Bytes) → length p ≤ n → has_prefix p (take n s) ≡ has_prefix p s
unfolding has_prefix
has_prefix-take [] n s h = refl
has_prefix-take (b ∷ p) zero s h = absurd (omega arith)
has_prefix-take (b ∷ p) (suc n) [] h = refl
has_prefix-take (b ∷ p) (suc n) (c ∷ s) h =
    ap (λ t. b == c && t) (has_prefix-take p n s (omega arith))

ltb-length-take : (k n : ℕ) (s : Bytes) → k < n → ltb k (length (take n s)) ≡ ltb k (length s)
ltb-length-take k n s h = ap (ltb k) (length-take n s) ∙ ground arith

leb-length-take : (k n : ℕ) (s : Bytes) → k ≤ n → leb k (length (take n s)) ≡ leb k (length s)
leb-length-take k n s h = ap (leb k) (length-take n s) ∙ ground arith

stands-take :
    (p : Bytes) (off n : ℕ) (s : Bytes)
    → off + length p ≤ n
    → stands p off (take n s) ≡ stands p off s
unfolding stands
stands-take p off n s h =
    ap (λ t. text_eq t p)
      (ap (take (length p)) (drop-take off n s)
        ∙ take-take (length p) (n - off) (drop off s)
        ∙ take_at _ _ (drop off s) (omega arith))

-- The kind that is told from a head of 1028 bytes or more is the one of all of the bytes.
pub sniff-take :
    (n : ℕ) (head : Bytes) (name : Text) → 1028 ≤ n → sniff (take n head) name ≡ sniff head name
unfolding sniff
sniff-take n head name h =
    rw
      (
        has_prefix-take (codes "!<arch>" ++ 10 ∷ []) n head (omega arith),
        has_prefix-take (0x1f ∷ 0x8b ∷ []) n head (omega arith),
        has_prefix-take (0xfd ∷ b'7' ∷ b'z' ∷ b'X' ∷ b'Z' ∷ 0 ∷ []) n head (omega arith),
        has_prefix-take (0x28 ∷ 0xb5 ∷ 0x2f ∷ 0xfd ∷ []) n head (omega arith),
        has_prefix-take (codes "BZh") n head (omega arith),
        get_or-take n 3 head 0 (omega arith),
        has_prefix-take (0x50 ∷ 0x4b ∷ 3 ∷ 4 ∷ []) n head (omega arith),
        has_prefix-take (0xed ∷ 0xab ∷ 0xee ∷ 0xdb ∷ []) n head (omega arith),
        has_prefix-take (codes "070701") n head (omega arith),
        has_prefix-take (codes "070702") n head (omega arith),
        ltb-length-take 262 n head (omega arith),
        stands-take (codes "ustar") 257 n head (omega arith),
        has_prefix-take (codes "hsqs") n head (omega arith),
        has_prefix-take (0x37 ∷ 0x7a ∷ 0xbc ∷ 0xaf ∷ 0x27 ∷ 0x1c ∷ []) n head (omega arith),
        leb-length-take 1028 n head h,
        stands-take (0xe2 ∷ 0xe1 ∷ 0xf5 ∷ 0xe0 ∷ []) 1024 n head (omega arith),
      )
      refl

-- Whether these bytes stand at an offset.
abbrev pub magic_at : ℕ → Bytes → Bytes → Bool
magic_at off m bs = text_eq (take (length m) (drop off bs)) m

-- Tests with the kinds that they tell, and the kind of the first test that holds.
abbrev pub Rules : Type 0
Rules = List (Bool × Kind)

unfoldable pub first_of : Rules → Kind
first_of [] = plain
first_of ((b, k) ∷ rules) = let rest = first_of rules in if b then k else rest

-- What the head and the name tell.
abbrev pub head_rules : Bytes → Text → Rules
head_rules bs name =
    (magic_at 0 (codes "!<arch>" ++ 10 ∷ []) bs, ar)
    ∷ (magic_at 0 (0x1f ∷ 0x8b ∷ []) bs, gzip)
    ∷ (magic_at 0 (0xfd ∷ b'7' ∷ b'z' ∷ b'X' ∷ b'Z' ∷ 0 ∷ []) bs, xz)
    ∷ (magic_at 0 (0x28 ∷ 0xb5 ∷ 0x2f ∷ 0xfd ∷ []) bs, zstd)
    ∷ (magic_at 0 (codes "BZh") bs && within b'0' b'9' (get_or bs 3 0), bzip2)
    ∷ (magic_at 0 (0x50 ∷ 0x4b ∷ 3 ∷ 4 ∷ []) bs, zip)
    ∷ (magic_at 0 (0xed ∷ 0xab ∷ 0xee ∷ 0xdb ∷ []) bs, rpm)
    ∷ (magic_at 0 (codes "070701") bs || magic_at 0 (codes "070702") bs, cpio)
    ∷ (ltb 262 (length bs) && magic_at 257 (codes "ustar") bs, tar)
    ∷ (magic_at 0 (codes "hsqs") bs, squash_fs)
    ∷ (magic_at 0 (0x37 ∷ 0x7a ∷ 0xbc ∷ 0xaf ∷ 0x27 ∷ 0x1c ∷ []) bs, seven_z)
    ∷ (magic_at 1024 (0xe2 ∷ 0xe1 ∷ 0xf5 ∷ 0xe0 ∷ []) bs, erofs)
    ∷ (ends_with (codes ".iso") (to_ascii_lowercase name), iso)
    ∷ []

-- What is tried of bytes that nothing else told.
abbrev pub seekable_rules : Bytes → Rules
seekable_rules bs = (magic_at 32769 (codes "CD001") bs, iso) ∷ (looks_like bs, fat_fs) ∷ []

-- The kind of bytes all of which are at hand.
abbrev pub kind_of_bytes : Bytes → Text → Kind
kind_of_bytes bs name = first_of (head_rules bs name ++ seekable_rules bs)

has_prefix-magic_at : (p s : Bytes) → has_prefix p s ≡ magic_at 0 p s
unfolding has_prefix
has_prefix-magic_at [] s = refl
has_prefix-magic_at (b ∷ p) [] = refl
has_prefix-magic_at (b ∷ p) (c ∷ s) = ap₂ (λ x y. x && y) (ground arith) (has_prefix-magic_at p s)

stands-magic_at : (m : Bytes) (off : ℕ) (bs : Bytes) → stands m off bs ≡ magic_at off m bs
unfolding stands
stands-magic_at m off bs = refl

-- No magic stands past the end.
magic_at-short :
    (off : ℕ) (m bs : Bytes) → 0 < length m → length bs < off + length m → magic_at off m bs ≡ false
magic_at-short off m bs filled h = elim (Bool-cases (magic_at off m bs)) [
  | inr p ↦ p
  | inl p ↦
      let same = ap length (text_eq→eq (take (length m) (drop off bs)) m p) in
      absurd (omega (arith, same, length-take (length m) (drop off bs), length-drop off bs))
]

magic_at-guarded :
    (off least : ℕ) (m bs : Bytes)
    → 0 < length m
    → least ≡ off + length m
    → (leb least (length bs) && magic_at off m bs) ≡ magic_at off m bs
magic_at-guarded off least m bs filled e = elim (Bool-cases (leb least (length bs))) [
  | inl p ↦ rw p refl
  | inr p ↦
      rw p (sym (magic_at-short off m bs filled (omega (arith, e, not_leb→lt least (length bs) p))))
]

sniff-head_rules : (bs : Bytes) (name : Text) → sniff bs name ≡ first_of (head_rules bs name)
unfolding sniff first_of
sniff-head_rules bs name =
    rw
      (
        has_prefix-magic_at (codes "!<arch>" ++ 10 ∷ []) bs,
        has_prefix-magic_at (0x1f ∷ 0x8b ∷ []) bs,
        has_prefix-magic_at (0xfd ∷ b'7' ∷ b'z' ∷ b'X' ∷ b'Z' ∷ 0 ∷ []) bs,
        has_prefix-magic_at (0x28 ∷ 0xb5 ∷ 0x2f ∷ 0xfd ∷ []) bs,
        has_prefix-magic_at (codes "BZh") bs,
        has_prefix-magic_at (0x50 ∷ 0x4b ∷ 3 ∷ 4 ∷ []) bs,
        has_prefix-magic_at (0xed ∷ 0xab ∷ 0xee ∷ 0xdb ∷ []) bs,
        has_prefix-magic_at (codes "070701") bs,
        has_prefix-magic_at (codes "070702") bs,
        has_prefix-magic_at (codes "hsqs") bs,
        has_prefix-magic_at (0x37 ∷ 0x7a ∷ 0xbc ∷ 0xaf ∷ 0x27 ∷ 0x1c ∷ []) bs,
        stands-magic_at (codes "ustar") 257 bs,
        stands-magic_at (0xe2 ∷ 0xe1 ∷ 0xf5 ∷ 0xe0 ∷ []) 1024 bs,
        magic_at-guarded 1024 1028 (0xe2 ∷ 0xe1 ∷ 0xf5 ∷ 0xe0 ∷ []) bs (omega arith) refl,
      )
      refl

-- What `process_ranged` makes of the kind that the head and the name tell.
finished : Bytes → Kind → Kind
finished bs k =
    let k' = if is_plain k && leb 32774 (length bs) then iso_or k (take 5 (drop 32769 bs)) else k in
    fat_or k' bs

finished-plain : (bs : Bytes) → finished bs plain ≡ first_of (seekable_rules bs)
unfolding finished first_of
finished-plain bs =
    let iso_magic = codes "CD001" in
    let fat = looks_like bs in
    elim (Bool-cases (leb 32774 (length bs))) [
      | inl p ↦ elim (Bool-cases (magic_at 32769 iso_magic bs)) [
        | inl q ↦ rw p (rw q refl)
        | inr q ↦ rw p (rw q refl)
      ]
      | inr p ↦
          let far =
            magic_at-short 32769 iso_magic bs (omega arith)
              (omega (arith, not_leb→lt 32774 (length bs) p)) in
          rw (p, far) refl
    ]

finished-first_of :
    (bs : Bytes) (rules : Rules)
    → All (λ (r : Bool × Kind). is_plain r.1 ≡ false) rules
    → finished bs (first_of rules) ≡ first_of (rules ++ seekable_rules bs)
unfolding finished first_of
finished-first_of bs [] h = finished-plain bs
finished-first_of bs ((b, k) ∷ rules) (h, hs) = elim (Bool-cases b) [
  | inl p ↦ rw p (rw h (rw h refl))
  | inr p ↦ rw p (finished-first_of bs rules hs)
]

module _ (c : Bytes) (v : View) (ok_view : IsView c v) where
  descriptor_kind_lem :
      (k : Kind)
      → descriptor_kind v k
        ≡ ok (
            if is_plain k && leb 32774 (length (view_bytes c v))
            then iso_or k (take 5 (drop 32769 (view_bytes c v)))
            else k)
  unfolding descriptor_kind
  descriptor_kind_lem k =
      rw (read_full_at-take c v ok_view 5 32769, sym (length-view_bytes c v ok_view))
        (elim (Bool-cases (is_plain k && leb 32774 (length (view_bytes c v)))) [
          | inl p ↦ rw p refl
          | inr p ↦ rw p refl
        ])

  -- On a well-formed view of a source that serves its contents, the kind of a member is the one of
  -- all of its bytes: that of the first magic that stands in them, of the file extension, of an iso9660
  -- descriptor, or of a boot sector, in this order.
  pub ranged_kind-kind_of_bytes :
      (name : Text) → ranged_kind v name ≡ ok (kind_of_bytes (view_bytes c v) name)
  unfolding ranged_kind finished
  ranged_kind-kind_of_bytes name =
      let bs = view_bytes c v in
      let told : All (λ (r : Bool × Kind). is_plain r.1 ≡ false) (head_rules bs name) = (
        refl,
        (
          refl,
          (
            refl,
            (refl, (refl, (refl, (refl, (refl, (refl, (refl, (refl, (refl, (refl, tt)))))))))),
          ),
        ),
      ) in
      rw
        (
          read_full_at-take c v ok_view head_len 0,
          sniff-take head_len bs name (omega arith),
          descriptor_kind_lem (sniff bs name),
          looks_like-take head_len bs (omega arith),
          sniff-head_rules bs name,
        )
        (ap (λ k. ok k) (finished-first_of bs (head_rules bs name) told))
