-- ===== src/Sorting/Sifting.antt =====
-- The inner loop puts the next element into the sorted front of the array.
use op_sys.Common.{
  true, false, ltb_ℤ→lt, lt→ltb_ℤ, ge→ltb_ℤ, ℕ, zero, suc, ◌≡◌, refl, ap, ◌∙◌, List, [], ◌∷◌, ◌++◌,
  arith, ℤ, ◌≤ℤ◌, ltb_ℤ, if◌then◌else◌, length, Bool-cases, inl, inr,
}
use op_sys.Sorting.{compare_swap, sift}

module _ {ℓ} {A : Type ℓ} (key : A → ℤ) where
  abbrev pub LeHead : A → List A → Type 0
  LeHead x [] = Unit
  LeHead x (y ∷ l) = key x ≤ℤ key y

  abbrev pub IsSorted : List A → Type 0
  IsSorted [] = Unit
  IsSorted (x ∷ l) = LeHead x l × IsSorted l

  -- Behind the elements whose keys are equal.
  abbrev pub insert : A → List A → List A
  insert v [] = v ∷ []
  insert v (x ∷ l) = if ltb_ℤ (key v) (key x) then v ∷ x ∷ l else x ∷ insert v l

  compare_swap-zero :
      (x y : A) (l : List A)
      → compare_swap key 0 (x ∷ y ∷ l) ≡ (if ltb_ℤ (key y) (key x) then y ∷ x ∷ l else x ∷ y ∷ l)
  unfolding compare_swap
  compare_swap-zero x y l = refl

  compare_swap-suc :
      (j : ℕ) (x : A) (l : List A) → compare_swap key (suc j) (x ∷ l) ≡ x ∷ compare_swap key j l
  unfolding compare_swap
  compare_swap-suc j x l = ground arith

  -- The last round of the loop is the one at the front.
  sift-suc :
      (n : ℕ) (x : A) (l : List A)
      → sift key (suc n) (x ∷ l) ≡ compare_swap key 0 (x ∷ sift key n l)
  unfolding sift
  sift-suc zero x l = refl
  sift-suc (suc n) x l =
      ap (sift key (suc n)) (compare_swap-suc n x l) ∙ sift-suc n x (compare_swap key n l)

  insert_front :
      (x v : A) (l : List A) → ltb_ℤ (key v) (key x) ≡ true → LeHead x l → insert v l ≡ v ∷ l
  insert_front x v [] lt h = refl
  insert_front x v (y ∷ l) lt h =
      rw (lt→ltb_ℤ (key v) (key y) (omega (arith, ltb_ℤ→lt (key v) (key x) lt)))

  -- Whatever follows an element that is in place, its turn of the loop leaves it there.
  keep_front :
      (x y : A) (l : List A)
      → ltb_ℤ (key y) (key x) ≡ false
      → compare_swap key 0 (x ∷ y ∷ l) ≡ x ∷ y ∷ l
  keep_front x y l ge = compare_swap-zero x y l ∙ (rw ge)

  swap_front :
      (x v : A) (l rest : List A)
      → LeHead x l
      → compare_swap key 0 (x ∷ (insert v l ++ rest)) ≡ insert v (x ∷ l) ++ rest
  swap_front x v l rest h = elim (Bool-cases (ltb_ℤ (key v) (key x))) [
    | inl lt ↦ rw (lt, insert_front x v l lt h) (compare_swap-zero x v (l ++ rest) ∙ (rw lt))
    | inr ge ↦ rw ge (stay l h ge)
  ]
    where
      stay :
          (l : List A)
          → LeHead x l
          → ltb_ℤ (key v) (key x) ≡ false
          → compare_swap key 0 (x ∷ (insert v l ++ rest)) ≡ x ∷ (insert v l ++ rest)
      stay [] h ge = keep_front x v rest ge
      stay (y ∷ l) h ge = elim (Bool-cases (ltb_ℤ (key v) (key y))) [
        | inl below ↦ rw below (keep_front x v (y ∷ l ++ rest) ge)
        | inr above ↦ rw above (keep_front x y (insert v l ++ rest) (ge→ltb_ℤ (key y) (key x) h))
      ]

  pub sift-insert :
      (P : List A) (v : A) (rest : List A)
      → IsSorted P
      → sift key (length P) (P ++ v ∷ rest) ≡ insert v P ++ rest
  unfolding sift
  sift-insert [] v rest s = refl
  sift-insert (x ∷ P) v rest s =
      sift-suc (length P) x (P ++ v ∷ rest)
      ∙ ap (λ l. compare_swap key 0 (x ∷ l)) (sift-insert P v rest s.1)
      ∙ swap_front x v P rest s.0
