-- ===== src/Records/Loops.antt =====
-- The loops of the sorts do to the records of a file what the insertion sort does to an array, unless
-- one of the calls fails.
use op_sys.Common.{
  ℕ, zero, suc, ◌+◌, ◌*◌, ◌≤◌, ◌<◌, ◌≡◌, ap, ◌∙◌, List, [], ◌++◌, arith, length, get_or, set, ltb,
  Bool-cases, inl, inr, length-set, length-append,
}
use op_sys.Records.{
  Access, Sorter, Outcome, finished, failed, compare_records, sift_records, sort_records,
}
use op_sys.Records.Layout.{flat, AreRecords, set-AreRecords, get_or-AreRecords, length-flat}
use op_sys.Records.Compared.{key, Lawful, Holds, Ends, compare_records-Ends, compare_swap-get}
use op_sys.Sorting.{compare_swap, sift, sort_from}

-- As many records of the same size.
abbrev pub Keeps : ℕ → ℕ → List (List ℕ) → Type 0
Keeps size n rs = AreRecords size rs × (length rs ≡ n)

compare_swap-Keeps :
    (size n j : ℕ) (rs : List (List ℕ))
    → suc j < length rs
    → Keeps size n rs
    → Keeps size n (compare_swap key j rs)
compare_swap-Keeps size n j rs below k =
    rw (compare_swap-get rs j below)
      (elim (Bool-cases (ltb (get_or (get_or rs (suc j) []) 0 0) (get_or (get_or rs j []) 0 0))) [
        | inl lt ↦ rw lt (
          set-AreRecords size (set rs j (get_or rs (suc j) [])) (suc j) (get_or rs j [])
              (set-AreRecords size rs j (get_or rs (suc j) []) k.0
                (get_or-AreRecords size rs (suc j) k.0 below))
              (get_or-AreRecords size rs j k.0 (omega arith)),
          length-set (set rs j (get_or rs (suc j) [])) (suc j) (get_or rs j [])
              ∙ length-set rs j (get_or rs (suc j) [])
              ∙ k.1,
        )
        | inr ge ↦ rw ge k
      ])

sift-Keeps :
    (size n i : ℕ) (rs : List (List ℕ)) → i < n → Keeps size n rs → Keeps size n (sift key i rs)
unfolding sift
sift-Keeps size n zero rs below k = k
sift-Keeps size n (suc j) rs below k =
    sift-Keeps size n j (compare_swap key j rs) (omega arith)
      (compare_swap-Keeps size n j rs (omega (arith, k.1)) k)

module _ {a : Access} {size total : ℕ} {Fault : Type 0} (law : Lawful a size total Fault)
    (tail : List ℕ) (n : ℕ) (whole : n * size + length tail ≡ total) where
  length_whole : (rs : List (List ℕ)) → Keeps size n rs → length (flat rs ++ tail) ≡ total
  length_whole rs k =
      length-append (flat rs) tail
      ∙ ap (λ m. m + length tail) (length-flat size rs k.0 ∙ ap (λ m. m * size) k.1)
      ∙ whole

  compare-Ends :
      (j : ℕ) (rs : List (List ℕ)) (s : Sorter)
      → Keeps size n rs
      → Holds size tail rs s
      → suc j < n
      → Ends size tail Fault (compare_swap key j rs) (compare_records a size j s)
  compare-Ends j rs s k h below =
      compare_records-Ends law tail j rs s (k.0, rw k.1 (omega arith)) (length_whole rs k) h
        (omega (arith, k.1))

  then_Ends :
      (next : Sorter → Outcome) (rs rs' : List (List ℕ)) (o : Outcome)
      → Ends size tail Fault rs o
      → ((s' : Sorter) → Holds size tail rs s' → Ends size tail Fault rs' (next s'))
      → Ends size tail Fault rs' (elim o [ finished s' ↦ next s' | failed s' ↦ failed s' ])
  then_Ends next rs rs' (finished s') h go = go s' h
  then_Ends next rs rs' (failed s') fault go = fault

  sift_records-Ends :
      (i : ℕ) (rs : List (List ℕ)) (s : Sorter)
      → Keeps size n rs
      → Holds size tail rs s
      → i < n
      → Ends size tail Fault (sift key i rs) (sift_records a size i s)
  unfolding sift sift_records
  sift_records-Ends zero rs s k h below = h
  sift_records-Ends (suc j) rs s k h below =
      then_Ends (sift_records a size j) (compare_swap key j rs) (sift key j (compare_swap key j rs))
        (compare_records a size j s) (compare-Ends j rs s k h below)
        (λ s' h'.
          sift_records-Ends j (compare_swap key j rs) s'
            (compare_swap-Keeps size n j rs (omega (arith, k.1)) k) h' (omega arith))

  pub sort_records-Ends :
      (rounds i : ℕ) (rs : List (List ℕ)) (s : Sorter)
      → Keeps size n rs
      → Holds size tail rs s
      → (0 < rounds → rounds + i ≤ n)
      → Ends size tail Fault (sort_from key rounds i rs) (sort_records a size rounds i s)
  unfolding sort_from sort_records
  sort_records-Ends zero i rs s k h room = h
  sort_records-Ends (suc rounds) i rs s k h room =
      let below : i < n = omega (arith, room (omega arith)) in
      then_Ends (sort_records a size rounds (suc i)) (sift key i rs)
        (sort_from key rounds (suc i) (sift key i rs)) (sift_records a size i s)
        (sift_records-Ends i rs s k h below)
        (λ s' h'.
          sort_records-Ends rounds (suc i) (sift key i rs) s' (sift-Keeps size n i rs below k) h'
            (λ _. omega (arith, room (omega arith))))
