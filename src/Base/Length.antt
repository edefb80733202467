-- ===== src/Base/Length.antt =====
-- Lengths of printed texts, and lists cut in two.
use Prim.Native.Nat.{ℕ, zero, suc, ◌+◌, ◌/◌, ◌%◌, ◌^◌, ◌≤◌, ◌<◌}
use mathlib.Core.List.{List, [], ◌∷◌, ◌++◌}
use mathlib.Core.Logic.{inl, inr}
use mathlib.Core.Path.{◌≡◌, refl, ap}
use native.Mathlib.Nat.{pow-suc}
use native.Mathlib.Omega.{arith}
use s3_bme.Base.Lists.{length, length-append, take, drop, drop_all}
use s3_bme.Base.Tests.{ltb, Bool-cases}
use s3_bme.Base.Text.{digits}

-- A number below `10 ^ k` has `k` digits at most.
pub length-digits : (k left n : ℕ) → n < 10 ^ suc k → length (digits left n) ≤ suc k
unfolding digits
length-digits k zero n h = omega arith
length-digits zero (suc left) n h = ground arith
length-digits (suc k) (suc left) n h = elim (Bool-cases (ltb n 10)) [
  | inl small ↦ rw small (omega arith)
  | inr big ↦ rw big (
      omega (
        arith,
        length-append (digits left (n / 10)) ((b'0' + n % 10) ∷ []),
        length-digits k left (n / 10) (omega (arith, pow-suc 10 (suc k))),
      ))
]

-- No more digits are printed than there is room for.
pub length-digits_le : (left n : ℕ) → length (digits left n) ≤ left
unfolding digits
length-digits_le zero n = omega arith
length-digits_le (suc left) n = elim (Bool-cases (ltb n 10)) [
  | inl small ↦ rw small (omega arith)
  | inr big ↦ rw big (
      omega (
        arith,
        length-append (digits left (n / 10)) ((b'0' + n % 10) ∷ []),
        length-digits_le left (n / 10),
      ))
]

module _ {ℓ} {A : Type ℓ} where
  pub take_all : (n : ℕ) (xs : List A) → length xs ≤ n → take n xs ≡ xs
  take_all zero [] h = refl
  take_all zero (x ∷ xs) h = absurd (omega arith)
  take_all (suc n) [] h = refl
  take_all (suc n) (x ∷ xs) h = ap (λ t. x ∷ t) (take_all n xs (omega arith))

  pub take-append-drop : (m n : ℕ) (xs : List A) → take m xs ++ take n (drop m xs) ≡ take (m + n) xs
  take-append-drop zero n xs = ap (λ k. take k xs) (omega arith)
  take-append-drop (suc m) n [] =
      rw (take_all n [] (omega arith), take_all (suc m + n) [] (omega arith))
  take-append-drop (suc m) n (x ∷ xs) =
      let e : suc m + n ≡ suc (m + n) = omega arith in
      rw e (ap (λ t. x ∷ t) (take-append-drop m n xs))

  pub length-take-le : (n : ℕ) (xs : List A) → length (take n xs) ≤ n
  length-take-le zero xs = omega arith
  length-take-le (suc n) [] = omega arith
  length-take-le (suc n) (x ∷ xs) = omega (arith, length-take-le n xs)

  pub drop-drop : (m n : ℕ) (xs : List A) → drop n (drop m xs) ≡ drop (m + n) xs
  drop-drop zero n xs = ap (λ k. drop k xs) (omega arith)
  drop-drop (suc m) n [] =
      rw (drop_all {A = A} [] n (omega arith), drop_all {A = A} [] (suc m + n) (omega arith))
  drop-drop (suc m) n (x ∷ xs) =
      let e : suc m + n ≡ suc (m + n) = omega arith in rw e (drop-drop m n xs)
