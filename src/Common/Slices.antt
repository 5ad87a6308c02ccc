-- ===== src/Common/Slices.antt =====
-- Parts of lists by their places: `take` and `drop` at the seam of two lists.
use Prim.Native.Nat.{ℕ, zero, suc, ◌+◌, ◌≤◌, ◌<◌}
use mathlib.Core.Path.{◌≡◌, refl, ap, ◌∙◌}
use mathlib.Core.List.{List, [], ◌∷◌, ◌++◌, append-nil}
use native.Mathlib.Omega.{arith}
use op_sys.Common.Lists.{length, take, drop, get_or, set, length-drop}

module _ {ℓ} {A : Type ℓ} where
  pub drop-append : (r xs : List A) (n p : ℕ) → p ≡ length r + n → drop p (r ++ xs) ≡ drop n xs
  drop-append [] xs n p e = ap (λ k. drop k xs) (omega arith)
  drop-append (x ∷ r) xs n zero e = absurd (omega arith)
  drop-append (x ∷ r) xs n (suc p) e = drop-append r xs n p (omega arith)

  pub take-append : (r xs : List A) (n p : ℕ) → p ≡ length r + n → take p (r ++ xs) ≡ r ++ take n xs
  take-append [] xs n p e = ap (λ k. take k xs) (omega arith)
  take-append (x ∷ r) xs n zero e = absurd (omega arith)
  take-append (x ∷ r) xs n (suc p) e = ap (◌∷◌ x) (take-append r xs n p (omega arith))

  pub take_front : (r xs : List A) (p : ℕ) → p ≡ length r → take p (r ++ xs) ≡ r
  take_front r xs p e = take-append r xs 0 p (omega (arith, e)) ∙ append-nil r

  pub drop_front : (r xs : List A) (p : ℕ) → p ≡ length r → drop p (r ++ xs) ≡ xs
  drop_front r xs p e = drop-append r xs 0 p (omega (arith, e))

  pub drop_all : (xs : List A) (n : ℕ) → length xs ≤ n → drop n xs ≡ []
  drop_all [] zero h = refl
  drop_all [] (suc n) h = refl
  drop_all (x ∷ xs) zero h = absurd (omega arith)
  drop_all (x ∷ xs) (suc n) h = drop_all xs n (omega arith)

  -- The element in front of what `drop` leaves, and the place that it is at.
  pub get_or-drop : (i : ℕ) (xs ys : List A) (y d : A) → drop i xs ≡ y ∷ ys → get_or xs i d ≡ y
  get_or-drop zero [] ys y d e = absurd cc
  get_or-drop (suc i) [] ys y d e = absurd cc
  get_or-drop zero (x ∷ xs) ys y d e = cc
  get_or-drop (suc i) (x ∷ xs) ys y d e = get_or-drop i xs ys y d e

  pub drop-suc : (i : ℕ) (xs ys : List A) (y : A) → drop i xs ≡ y ∷ ys → drop (suc i) xs ≡ ys
  drop-suc zero [] ys y e = absurd cc
  drop-suc (suc i) [] ys y e = absurd cc
  drop-suc zero (x ∷ xs) ys y e = cc
  drop-suc (suc i) (x ∷ xs) ys y e = drop-suc i xs ys y e

  -- How far it is to the end.
  pub drop-length :
      (i : ℕ) (xs ys : List A) → i ≤ length xs → drop i xs ≡ ys → length xs ≡ i + length ys
  drop-length i xs ys h e = omega (arith, length-drop i xs, ap length e)

  pub drop_inside :
      (i : ℕ) (xs ys : List A) (y : A) → drop i xs ≡ y ∷ ys → length xs ≡ i + suc (length ys)
  drop_inside i xs ys y e = omega (arith, length-drop i xs, ap length e)

  pub set-append :
      (xs ys : List A) (y v : A) (i : ℕ) → i ≡ length xs → set (xs ++ y ∷ ys) i v ≡ xs ++ v ∷ ys
  set-append [] ys y v zero e = refl
  set-append [] ys y v (suc i) e = absurd (omega arith)
  set-append (x ∷ xs) ys y v zero e = absurd (omega arith)
  set-append (x ∷ xs) ys y v (suc i) e = ap (◌∷◌ x) (set-append xs ys y v i (omega arith))

  pub get_or-append :
      (xs ys : List A) (y d : A) (i : ℕ) → i ≡ length xs → get_or (xs ++ y ∷ ys) i d ≡ y
  get_or-append [] ys y d zero e = refl
  get_or-append [] ys y d (suc i) e = absurd (omega arith)
  get_or-append (x ∷ xs) ys y d zero e = absurd (omega arith)
  get_or-append (x ∷ xs) ys y d (suc i) e = get_or-append xs ys y d i (omega arith)

  pub get_or-behind :
      (r xs : List A) (k i : ℕ) (d : A) → i ≡ length r + k → get_or (r ++ xs) i d ≡ get_or xs k d
  get_or-behind [] xs k i d e = ap (λ j. get_or xs j d) (omega (arith, e))
  get_or-behind (x ∷ r) xs k zero d e = absurd (omega arith)
  get_or-behind (x ∷ r) xs k (suc i) d e = get_or-behind r xs k i d (omega arith)

  pub get_or-inside :
      (r xs : List A) (i : ℕ) (d e : A) → i < length r → get_or (r ++ xs) i d ≡ get_or r i e
  get_or-inside [] xs i d e h = absurd (omega arith)
  get_or-inside (x ∷ r) xs zero d e h = refl
  get_or-inside (x ∷ r) xs (suc i) d e h = get_or-inside r xs i d e (omega arith)

  pub drop_after :
      (r : List A) (i : ℕ) (xs ys : List A) → drop i xs ≡ r ++ ys → drop (i + length r) xs ≡ ys
  drop_after [] i xs ys e = ap (λ k. drop k xs) (omega arith) ∙ e
  drop_after (x ∷ r) i xs ys e =
      ap (λ k. drop k xs) (omega arith) ∙ drop_after r (suc i) xs ys (drop-suc i xs (r ++ ys) x e)

  pub take-suc :
      (k : ℕ) (xs : List A) (d : A)
      → k < length xs
      → take (suc k) xs ≡ take k xs ++ get_or xs k d ∷ []
  take-suc k [] d h = absurd (omega arith)
  take-suc zero (x ∷ xs) d h = refl
  take-suc (suc k) (x ∷ xs) d h = ap (◌∷◌ x) (take-suc k xs d (omega arith))

  pub take_inside : (k : ℕ) (xs ys : List A) → k ≤ length xs → take k (xs ++ ys) ≡ take k xs
  take_inside zero xs ys h = refl
  take_inside (suc k) [] ys h = absurd (omega arith)
  take_inside (suc k) (x ∷ xs) ys h = ap (◌∷◌ x) (take_inside k xs ys (omega arith))
