-- ===== src/Sorting/Laws.antt =====
-- The whole sort: ordered, a rearrangement of its input, and stable.
use mathlib.Core.List.Perm
use mathlib.Core.List.{append_assoc, append-nil, perm_middle}
use op_sys.Common.{
  lt→ltb_ℤ, length-take, ℕ, suc, ◌-◌, ◌≤◌, ◌≡◌, refl, sym, ap, ◌∙◌, List, [], ◌∷◌, ◌++◌, Perm,
  arith, ℤ, ltb_ℤ, if◌then◌else◌, length, take, drop, take-append-drop, Bool-cases, inl, inr, true,
  false, ltb_ℤ→lt, ltb_ℤ→ge, Bool, not, ◌&&◌,
}
use op_sys.Sorting.{sort_from, sort_by_key, insertion_sort}
use op_sys.Sorting.Sifting.{LeHead, IsSorted, insert, sift-insert}

same-lt :
    (a b c : ℤ) → (not (ltb_ℤ a b) && not (ltb_ℤ b a)) ≡ true → ltb_ℤ b c ≡ true → ltb_ℤ a c ≡ true
same-lt a b c same lt = ground arith

module _ {ℓ} {A : Type ℓ} (key : A → ℤ) where
  LeHead-insert :
      (x v : A) (l : List A)
      → ltb_ℤ (key v) (key x) ≡ false
      → LeHead key x l
      → LeHead key x (insert key v l)
  LeHead-insert x v [] ge h = ltb_ℤ→ge (key v) (key x) ge
  LeHead-insert x v (y ∷ l) ge h = elim (Bool-cases (ltb_ℤ (key v) (key y))) [
    | inl below ↦ rw below (ltb_ℤ→ge (key v) (key x) ge)
    | inr above ↦ rw above h
  ]

  insert-IsSorted : (v : A) (l : List A) → IsSorted key l → IsSorted key (insert key v l)
  insert-IsSorted v [] s = (tt, tt)
  insert-IsSorted v (x ∷ l) s = elim (Bool-cases (ltb_ℤ (key v) (key x))) [
    | inl below ↦ rw below (omega (arith, ltb_ℤ→lt (key v) (key x) below), s)
    | inr above ↦ rw above (LeHead-insert x v l above s.0, insert-IsSorted v l s.1)
  ]

  length-insert : (v : A) (l : List A) → length (insert key v l) ≡ suc (length l)
  length-insert v [] = refl
  length-insert v (x ∷ l) = elim (Bool-cases (ltb_ℤ (key v) (key x))) [
    | inl below ↦ rw below
    | inr above ↦ rw above (ap suc (length-insert v l))
  ]

  insert-perm : (v : A) (l : List A) → Perm (insert key v l) (v ∷ l)
  insert-perm v [] = Perm.refl (v ∷ [])
  insert-perm v (x ∷ l) = elim (Bool-cases (ltb_ℤ (key v) (key x))) [
    | inl below ↦ rw below (Perm.refl (v ∷ x ∷ l))
    | inr above ↦ rw above (Perm.trans (Perm.cons x (insert-perm v l)) (perm_middle (x ∷ []) l))
  ]

  -- The reference: each element in turn goes behind the elements that are not above it.
  abbrev pub insert_all : List A → List A → List A
  insert_all P [] = P
  insert_all P (v ∷ vs) = insert_all (insert key v P) vs

  insert_all-IsSorted : (P vs : List A) → IsSorted key P → IsSorted key (insert_all P vs)
  insert_all-IsSorted P [] s = s
  insert_all-IsSorted P (v ∷ vs) s = insert_all-IsSorted (insert key v P) vs (insert-IsSorted v P s)

  insert_all-perm : (P vs : List A) → Perm (insert_all P vs) (P ++ vs)
  insert_all-perm P [] = rw append-nil (Perm.refl P)
  insert_all-perm P (v ∷ vs) =
      Perm.trans (insert_all-perm (insert key v P) vs)
        (Perm.trans (Perm.append (insert-perm v P) (Perm.refl vs)) (Perm.symm (perm_middle P vs)))

  sort_from-insert_all :
      (P vs rest : List A)
      → IsSorted key P
      → sort_from key (length vs) (length P) (P ++ (vs ++ rest)) ≡ insert_all P vs ++ rest
  unfolding sort_from
  sort_from-insert_all P [] rest s = refl
  sort_from-insert_all P (v ∷ vs) rest s =
      ap (sort_from key (length vs) (suc (length P))) (sift-insert key P v (vs ++ rest) s)
      ∙ ap (λ n. sort_from key (length vs) n (insert key v P ++ (vs ++ rest)))
          (sym (length-insert v P))
      ∙ sort_from-insert_all (insert key v P) vs rest (insert-IsSorted v P s)

  sort_by_key-insert_all :
      (front rest : List A)
      → sort_by_key key (front ++ rest) (length front) ≡ insert_all [] front ++ rest
  unfolding sort_by_key
  sort_by_key-insert_all [] rest = refl
  sort_by_key-insert_all (v ∷ vs) rest =
      let one_less : suc (length vs) - 1 ≡ length vs = omega arith in
      rw one_less (sort_from-insert_all (v ∷ []) vs rest (tt, tt))

  abbrev pub same_key : ℤ → A → Bool
  same_key k x = not (ltb_ℤ k (key x)) && not (ltb_ℤ (key x) k)

  -- The elements of one key, in the order in which they stand.
  abbrev pub with_key : ℤ → List A → List A
  with_key k [] = []
  with_key k (x ∷ l) = if same_key k x then x ∷ with_key k l else with_key k l

  with_key-above :
      (k : ℤ) (x : A) (l : List A)
      → ltb_ℤ k (key x) ≡ true
      → IsSorted key (x ∷ l)
      → with_key k (x ∷ l) ≡ []
  with_key-above k x [] lt s = rw lt
  with_key-above k x (y ∷ l) lt s =
      rw lt
        (with_key-above k y l (lt→ltb_ℤ k (key y) (omega (arith, ltb_ℤ→lt k (key x) lt, s.0))) s.1)

  with_key-insert :
      (k : ℤ) (v : A) (l : List A)
      → IsSorted key l
      → with_key k (insert key v l) ≡ with_key k l ++ with_key k (v ∷ [])
  with_key-insert k v [] s = refl
  with_key-insert k v (x ∷ l) s = elim (Bool-cases (ltb_ℤ (key v) (key x))) [
    | inl below ↦ rw below (elim (Bool-cases (same_key k v)) [
      | inl mine ↦ rw (mine, with_key-above k x l (same-lt k (key v) (key x) mine below) s)
      | inr other ↦ rw other (sym (append-nil (with_key k (x ∷ l))))
    ])
    | inr above ↦ rw above (elim (Bool-cases (same_key k x)) [
      | inl mine ↦ rw mine (ap (◌∷◌ x) (with_key-insert k v l s.1))
      | inr other ↦ rw other (with_key-insert k v l s.1)
    ])
  ]

  with_key-one :
      (k : ℤ) (v : A) (vs : List A) → with_key k (v ∷ []) ++ with_key k vs ≡ with_key k (v ∷ vs)
  with_key-one k v vs = elim (Bool-cases (same_key k v)) [
    | inl mine ↦ rw mine
    | inr other ↦ rw other
  ]

  with_key-insert_all :
      (k : ℤ) (P vs : List A)
      → IsSorted key P
      → with_key k (insert_all P vs) ≡ with_key k P ++ with_key k vs
  with_key-insert_all k P [] s = sym (append-nil (with_key k P))
  with_key-insert_all k P (v ∷ vs) s =
      with_key-insert_all k (insert key v P) vs (insert-IsSorted v P s)
      ∙ ap (λ l. l ++ with_key k vs) (with_key-insert k v P s)
      ∙ append_assoc (with_key k P) (with_key k (v ∷ [])) (with_key k vs)
      ∙ ap (◌++◌ (with_key k P)) (with_key-one k v vs)

  -- What a sort of the first `n` elements promises: they are in order, no element is lost or made up,
  -- elements of one key stay in their order, and what follows them is left alone.
  pub record Sorts (arr : List A) (n : ℕ) (out : List A) : Type ℓ where
    pub front : List A
    pub splits : out ≡ front ++ drop n arr
    pub ordered : IsSorted key front
    pub rearranged : Perm front (take n arr)
    pub stable : (k : ℤ) → with_key k front ≡ with_key k (take n arr)

  -- The sort of the first `n` elements of an array that has at least `n` is a stable sort of them.
  pub sort_by_key-Sorts :
      (arr : List A) (n : ℕ) → n ≤ length arr → Sorts arr n (sort_by_key key arr n)
  sort_by_key-Sorts arr n h = record {
    front = insert_all [] (take n arr);
    splits =
        rw (take-append-drop n arr, long_enough) at
          (sort_by_key-insert_all (take n arr) (drop n arr));
    ordered = insert_all-IsSorted [] (take n arr) tt;
    rearranged = insert_all-perm [] (take n arr);
    stable = λ k. with_key-insert_all k [] (take n arr) tt;
  }
    where
      long_enough : length (take n arr) ≡ n
      long_enough = omega (arith, length-take n arr)

-- `insertion_sort` puts the first `n` integers of an array that has at least `n` in ascending order:
-- they are a rearrangement of the ones before, and the rest of the array stays as it is.
insertion_sort-Sorts :
    (arr : List ℤ) (n : ℕ) → n ≤ length arr → Sorts (λ x. x) arr n (insertion_sort arr n)
unfolding insertion_sort
insertion_sort-Sorts arr n h = sort_by_key-Sorts (λ x. x) arr n h
