-- ===== src/Common/Arrays.antt =====
-- Arrays as lists: reads after writes, and the loop that moves the cells behind a hole forward.
use Prim.Native.Nat.{ℕ, zero, suc, ◌≤◌, ◌<◌}
use mathlib.Core.Path.{◌≡◌, refl, ap, ◌∙◌}
use mathlib.Core.List.{List, [], ◌∷◌, ◌++◌}
use native.Mathlib.Omega.{arith}
use op_sys.Common.Lists.{get_or, set, length, take, length-set}

module _ {ℓ} {A : Type ℓ} where
  pub take-set :
      (n : ℕ) (xs : List A) (v : A)
      → n < length xs
      → take (suc n) (set xs n v) ≡ take n xs ++ v ∷ []
  take-set n [] v h = absurd (omega arith)
  take-set zero (x ∷ xs) v h = refl
  take-set (suc n) (x ∷ xs) v h = ap (◌∷◌ x) (take-set n xs v (omega arith))

  pub take-set_ge : (n i : ℕ) (xs : List A) (v : A) → n ≤ i → take n (set xs i v) ≡ take n xs
  take-set_ge zero i xs v h = refl
  take-set_ge (suc n) i [] v h = refl
  take-set_ge (suc n) zero (x ∷ xs) v h = absurd (omega arith)
  take-set_ge (suc n) (suc i) (x ∷ xs) v h = ap (◌∷◌ x) (take-set_ge n i xs v (omega arith))

  -- `for (; …; i++) cells[i] = cells[i + 1];`, with the number of rounds that are left.
  unfoldable pub shift : A → ℕ → ℕ → List A → List A
  shift d zero i cells = cells
  shift d (suc rounds) i cells = shift d rounds (suc i) (set cells i (get_or cells (suc i) d))

  pub shift-cons :
      (d : A) (n i : ℕ) (x : A) (xs : List A) → shift d n (suc i) (x ∷ xs) ≡ x ∷ shift d n i xs
  unfolding shift
  shift-cons d zero i x xs = refl
  shift-cons d (suc n) i x xs = shift-cons d n (suc i) x (set xs i (get_or xs (suc i) d))

  -- From the front on, the loop moves each cell one place forward.
  pub take-shift :
      (d : A) (n : ℕ) (x : A) (xs : List A)
      → n ≤ length xs
      → take n (shift d n 0 (x ∷ xs)) ≡ take n xs
  unfolding shift
  take-shift d zero x xs h = refl
  take-shift d (suc n) x [] h = absurd (omega arith)
  take-shift d (suc n) x (y ∷ xs) h =
      ap (take (suc n)) (shift-cons d n 0 y (y ∷ xs))
      ∙ ap (◌∷◌ y) (take-shift d n y xs (omega arith))

  pub length-shift : (d : A) (n i : ℕ) (xs : List A) → length (shift d n i xs) ≡ length xs
  unfolding shift
  length-shift d zero i xs = refl
  length-shift d (suc n) i xs =
      length-shift d n (suc i) (set xs i (get_or xs (suc i) d))
      ∙ length-set xs i (get_or xs (suc i) d)
