-- ===== src/Prelude/Slices.antt =====
-- Slices of a list and overwriting a part of it, the way that memcpy does.
use Prim.Native.Nat.{ℕ, zero, suc, ◌+◌, ◌-◌, ◌≤◌}
use mathlib.Core.Path.{◌≡◌, refl, sym, ap}
use mathlib.Core.List.{List, [], ◌∷◌, ◌++◌, append-nil}
use native.Mathlib.Nat.{zero-add, suc-add}
use native.Mathlib.Omega.{arith}
use naruto.Prelude.Lists.{length, take, drop, length-append, length-drop}

module _ {ℓ} {A : Type ℓ} where
  pub take-append : (xs ys : List A) → take (length xs) (xs ++ ys) ≡ xs
  take-append [] ys = refl
  take-append (x ∷ xs) ys = ap (◌∷◌ x) (take-append xs ys)

  pub drop-append : (xs ys : List A) → drop (length xs) (xs ++ ys) ≡ ys
  drop-append [] ys = refl
  drop-append (x ∷ xs) ys = drop-append xs ys

  pub take-append_le : (n : ℕ) (xs ys : List A) → n ≤ length xs → take n (xs ++ ys) ≡ take n xs
  take-append_le zero xs ys h = refl
  take-append_le (suc n) [] ys h = absurd (omega arith)
  take-append_le (suc n) (x ∷ xs) ys h = ap (◌∷◌ x) (take-append_le n xs ys (omega arith))

  pub drop-append_le :
      (n : ℕ) (xs ys : List A) → n ≤ length xs → drop n (xs ++ ys) ≡ drop n xs ++ ys
  drop-append_le zero xs ys h = refl
  drop-append_le (suc n) [] ys h = absurd (omega arith)
  drop-append_le (suc n) (x ∷ xs) ys h = drop-append_le n xs ys (omega arith)

  pub drop_all : (n : ℕ) (xs : List A) → length xs ≤ n → drop n xs ≡ []
  drop_all zero [] h = refl
  drop_all zero (x ∷ xs) h = absurd (omega arith)
  drop_all (suc n) [] h = refl
  drop_all (suc n) (x ∷ xs) h = drop_all n xs (omega arith)

  pub take_all : (n : ℕ) (xs : List A) → length xs ≤ n → take n xs ≡ xs
  take_all zero [] h = refl
  take_all zero (x ∷ xs) h = absurd (omega arith)
  take_all (suc n) [] h = refl
  take_all (suc n) (x ∷ xs) h = ap (◌∷◌ x) (take_all n xs (omega arith))

  -- The `w` elements from index `i` on.
  abbrev pub slice : List A → ℕ → ℕ → List A
  slice xs i w = take w (drop i xs)

  -- memcpy of `src` to index `i`, which is at most the length where the code writes.
  unfoldable pub blit : List A → ℕ → List A → List A
  blit xs zero src = src ++ drop (length src) xs
  blit [] (suc i) src = src
  blit (x ∷ xs) (suc i) src = x ∷ blit xs i src

  pub blit_end : (xs src : List A) → blit xs (length xs) src ≡ xs ++ src
  unfolding blit
  blit_end [] src = rw (drop_all (length src) [] (omega arith)) (append-nil src)
  blit_end (x ∷ xs) src = ap (◌∷◌ x) (blit_end xs src)

  pub length-blit :
      (xs : List A) (i : ℕ) (src : List A)
      → i ≤ length xs
      → length (blit xs i src) ≡ i + length src + (length xs - (i + length src))
  unfolding blit
  length-blit xs zero src h =
      omega (arith, length-append src (drop (length src) xs), length-drop (length src) xs)
  length-blit [] (suc i) src h = absurd (omega arith)
  length-blit (x ∷ xs) (suc i) src h = omega (arith, length-blit xs i src (omega arith))

  -- What was written is read back.
  pub slice-blit_self :
      (xs : List A) (i : ℕ) (src : List A)
      → i ≤ length xs
      → slice (blit xs i src) i (length src) ≡ src
  unfolding blit
  slice-blit_self xs zero src h = take-append src (drop (length src) xs)
  slice-blit_self [] (suc i) src h = absurd (omega arith)
  slice-blit_self (x ∷ xs) (suc i) src h = slice-blit_self xs i src (omega arith)

  -- A slice that ends before the write is as it was.
  pub slice-blit_before :
      (xs : List A) (i : ℕ) (src : List A) (j w : ℕ)
      → i ≤ length xs
      → j + w ≤ i
      → slice (blit xs i src) j w ≡ slice xs j w
  unfolding blit
  slice-blit_before xs i src j zero h k = refl
  slice-blit_before xs zero src j (suc w) h k = absurd (omega arith)
  slice-blit_before [] (suc i) src j (suc w) h k = absurd (omega arith)
  slice-blit_before (x ∷ xs) (suc i) src zero (suc w) h k =
      ap (◌∷◌ x) (slice-blit_before xs i src zero w (omega arith) (omega arith))
  slice-blit_before (x ∷ xs) (suc i) src (suc j) (suc w) h k =
      slice-blit_before xs i src j (suc w) (omega arith) (omega arith)

  -- The front of the buffer before the write is as it was.
  pub take-blit :
      (xs : List A) (i : ℕ) (src : List A) → i ≤ length xs → take i (blit xs i src) ≡ take i xs
  take-blit xs i src h = slice-blit_before xs i src 0 i h (omega arith)

  -- What lies behind the write is as it was.
  pub drop-blit :
      (xs : List A) (i : ℕ) (src : List A)
      → i ≤ length xs
      → drop (i + length src) (blit xs i src) ≡ drop (i + length src) xs
  unfolding blit
  drop-blit xs zero src h = rw zero-add (drop-append src (drop (length src) xs))
  drop-blit [] (suc i) src h = absurd (omega arith)
  drop-blit (x ∷ xs) (suc i) src h = rw suc-add (drop-blit xs i src (omega arith))

  -- A write that reaches the end leaves nothing behind it.
  pub blit_over :
      (xs : List A) (i : ℕ) (src : List A)
      → i ≤ length xs
      → length xs ≤ i + length src
      → blit xs i src ≡ take i xs ++ src
  unfolding blit
  blit_over xs zero src h k = rw (drop_all (length src) xs (omega arith)) (append-nil src)
  blit_over [] (suc i) src h k = absurd (omega arith)
  blit_over (x ∷ xs) (suc i) src h k = ap (◌∷◌ x) (blit_over xs i src (omega arith) (omega arith))

  pub slice-append : (xs ys zs : List A) → slice (xs ++ (ys ++ zs)) (length xs) (length ys) ≡ ys
  slice-append xs ys zs = rw (drop-append xs (ys ++ zs)) (take-append ys zs)

  pub drop-drop : (m n : ℕ) (xs : List A) → drop (m + n) xs ≡ drop n (drop m xs)
  drop-drop zero n xs = ap (λ k. drop k xs) (zero-add n)
  drop-drop (suc m) n [] = rw suc-add (sym (drop_nil n))
    where
      drop_nil : (n : ℕ) → drop {A = A} n [] ≡ []
      drop_nil zero = refl
      drop_nil (suc n) = refl
  drop-drop (suc m) n (x ∷ xs) = rw suc-add (drop-drop m n xs)
