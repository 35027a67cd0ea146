-- ===== src/Base/Slices.antt =====
-- Laws of `take` and `drop`.
use Prim.Native.Nat.{ℕ, zero, suc, ◌+◌, ◌-◌, ◌≤◌, min}
use mathlib.Core.Path.{◌≡◌, refl, ap, sym, ◌∙◌}
use mathlib.Core.List.{List, [], ◌∷◌, ◌++◌, append-nil}
use native.Mathlib.Omega.{arith}
use hashdex.Base.Lists.{length, take, drop, length-take, length-drop}

module _ {ℓ} {A : Type ℓ} where
  -- The count of a `take` or `drop` may be given in any form.
  pub take_at : (a b : ℕ) (xs : List A) → a ≡ b → take a xs ≡ take b xs
  take_at a b xs e = ap (λ n. take n xs) e

  pub drop_at : (a b : ℕ) (xs : List A) → a ≡ b → drop a xs ≡ drop b xs
  drop_at a b xs e = ap (λ n. drop n xs) e

  pub take-all : (n : ℕ) (xs : List A) → length xs ≤ n → take n xs ≡ xs
  take-all zero [] h = refl
  take-all zero (x ∷ xs) h = absurd (omega arith)
  take-all (suc n) [] h = refl
  take-all (suc n) (x ∷ xs) h = ap (λ t. x ∷ t) (take-all n xs (omega arith))

  pub drop-all : (n : ℕ) (xs : List A) → length xs ≤ n → drop n xs ≡ []
  drop-all zero [] h = refl
  drop-all zero (x ∷ xs) h = absurd (omega arith)
  drop-all (suc n) [] h = refl
  drop-all (suc n) (x ∷ xs) h = drop-all n xs (omega arith)

  pub take-append :
      (n : ℕ) (xs ys : List A) → take n (xs ++ ys) ≡ take n xs ++ take (n - length xs) ys
  take-append zero [] ys = refl
  take-append zero (x ∷ xs) ys = let e : 0 - length (x ∷ xs) ≡ 0 = omega arith in rw e
  take-append (suc n) [] ys = take_at (suc n) (suc n - 0) ys (omega arith)
  take-append (suc n) (x ∷ xs) ys =
      ap (λ t. x ∷ t)
        (take-append n xs ys ∙ ap (λ t. take n xs ++ t) (take_at _ _ ys (omega arith)))

  pub drop-append :
      (n : ℕ) (xs ys : List A) → drop n (xs ++ ys) ≡ drop n xs ++ drop (n - length xs) ys
  drop-append zero [] ys = refl
  drop-append zero (x ∷ xs) ys = let e : 0 - length (x ∷ xs) ≡ 0 = omega arith in rw e
  drop-append (suc n) [] ys = drop_at (suc n) (suc n - 0) ys (omega arith)
  drop-append (suc n) (x ∷ xs) ys =
      drop-append n xs ys ∙ ap (λ t. drop n xs ++ t) (drop_at _ _ ys (omega arith))

  pub drop-drop : (a b : ℕ) (xs : List A) → drop a (drop b xs) ≡ drop (b + a) xs
  drop-drop a zero xs = drop_at _ _ xs (omega arith)
  drop-drop a (suc b) [] = drop-all a [] (omega arith) ∙ sym (drop-all (suc b + a) [] (omega arith))
  drop-drop a (suc b) (x ∷ xs) = drop-drop a b xs ∙ ap (λ n. drop n (x ∷ xs)) step
    where
      step : suc (b + a) ≡ suc b + a
      step = omega arith

  pub take-take : (a b : ℕ) (xs : List A) → take a (take b xs) ≡ take (min a b) xs
  take-take zero b xs = sym (take_at (min 0 b) 0 xs (omega arith))
  take-take (suc a) zero xs = sym (take_at (min (suc a) 0) 0 xs (omega arith))
  take-take (suc a) (suc b) [] = sym (take-all (min (suc a) (suc b)) [] (omega arith))
  take-take (suc a) (suc b) (x ∷ xs) =
      ap (λ t. x ∷ t) (take-take a b xs) ∙ ap (λ n. take n (x ∷ xs)) step
    where
      step : suc (min a b) ≡ min (suc a) (suc b)
      step = omega arith

  pub drop-take : (a b : ℕ) (xs : List A) → drop a (take b xs) ≡ take (b - a) (drop a xs)
  drop-take zero b xs = sym (take_at _ _ xs (omega arith))
  drop-take (suc a) zero xs = sym (take_at (0 - suc a) 0 _ (omega arith))
  drop-take (suc a) (suc b) [] = sym (take-all (suc b - suc a) [] (omega arith))
  drop-take (suc a) (suc b) (x ∷ xs) = drop-take a b xs ∙ take_at _ _ (drop a xs) (omega arith)

  pub take-drop-take : (a b : ℕ) (xs : List A) → take a xs ++ take b (drop a xs) ≡ take (a + b) xs
  take-drop-take zero b xs = take_at _ _ xs (omega arith)
  take-drop-take (suc a) b [] =
      take-all b [] (omega arith) ∙ sym (take-all (suc a + b) [] (omega arith))
  take-drop-take (suc a) b (x ∷ xs) =
      ap (λ t. x ∷ t) (take-drop-take a b xs) ∙ ap (λ n. take n (x ∷ xs)) step
    where
      step : suc (a + b) ≡ suc a + b
      step = omega arith

  -- A read inside one piece of a concatenation, as a read of what the piece was cut from.
  pub take-in_piece :
      (k w off len : ℕ) (c rest : List A)
      → k ≤ len - w
      → off + len ≤ length c
      → take k (drop (off + w) c) ≡ take k (drop w (take len (drop off c)) ++ rest)
  take-in_piece k w off len c rest h inside = sym whole
    where
      piece : List A
      piece = drop w (take len (drop off c))

      piece_eq : piece ≡ take (len - w) (drop (off + w) c)
      piece_eq = drop-take w len (drop off c) ∙ ap (λ t. take (len - w) t) (drop-drop w off c)

      size : length piece ≡ min (len - w) (length c - (off + w))
      size =
          ap (λ t. length t) piece_eq
          ∙ length-take (len - w) (drop (off + w) c)
          ∙ ap (λ t. min (len - w) t) (length-drop (off + w) c)

      whole : take k (piece ++ rest) ≡ take k (drop (off + w) c)
      whole =
          take-append k piece rest
          ∙ ap (λ t. take k piece ++ t) (take_at (k - length piece) 0 rest (omega (arith, size)))
          ∙ append-nil (take k piece)
          ∙ ap (λ t. take k t) piece_eq
          ∙ take-take k (len - w) (drop (off + w) c)
          ∙ take_at (min k (len - w)) k (drop (off + w) c) (omega arith)

  pub drop-min : (n : ℕ) (xs : List A) → drop (min n (length xs)) xs ≡ drop n xs
  drop-min zero xs = drop_at (min 0 (length xs)) 0 xs (omega arith)
  drop-min (suc n) [] = drop-all (min (suc n) 0) [] (omega arith)
  drop-min (suc n) (x ∷ xs) =
      drop_at (min (suc n) (suc (length xs))) (suc (min n (length xs))) (x ∷ xs) (omega arith)
      ∙ drop-min n xs

  pub take-min : (n : ℕ) (xs : List A) → take (min n (length xs)) xs ≡ take n xs
  take-min n xs =
      sym (take-take n (length xs) xs) ∙ ap (λ t. take n t) (take-all (length xs) xs (omega arith))
