-- ===== src/Sorting.antt =====
-- The insertion sort of lab1_mem_mgmt_and_libs/libraries/sort_library.c (the same function as in
-- compiler_optimization/insertion.c) over an array as a list. The loops are generic in the element and
-- its key, since lab2_file_system/system_vs_lib_io/program.c runs them over the records of a file.
pub mod Sifting
pub mod Laws
mod Tests
use op_sys.Common.{
  ℕ, zero, suc, ◌-◌, Option, none, some, List, ltb_ℤ, ℤ, if◌then◌else◌, get_elem?, set,
}

module _ {ℓ} {A : Type ℓ} (key : A → ℤ) where
  -- The body of the inner loop, for `j` one less than the source's: `arr[j]` and `arr[j + 1]`.
  unfoldable pub compare_swap : ℕ → List A → List A
  compare_swap j arr = elim (get_elem? arr j) [
    | none ↦ arr
    | some x ↦ elim (get_elem? arr (suc j)) [
      | none ↦ arr
      | some y ↦ if ltb_ℤ (key y) (key x) then set (set arr (suc j) x) j y else arr
    ]
  ]

  -- `for (int j = i; j > 0; j--)`; it does not stop at an element that is in place.
  unfoldable pub sift : ℕ → List A → List A
  sift zero arr = arr
  sift (suc j) arr = sift j (compare_swap j arr)

  -- `for (; i < n; i++)`, with the number of rounds that are left.
  unfoldable pub sort_from : ℕ → ℕ → List A → List A
  sort_from zero i arr = arr
  sort_from (suc rounds) i arr = sort_from rounds (suc i) (sift i arr)

  unfoldable pub sort_by_key : List A → ℕ → List A
  unfolding sort_from
  sort_by_key arr n = sort_from (n - 1) 1 arr

unfoldable pub insertion_sort : List ℤ → ℕ → List ℤ
unfolding sort_by_key
insertion_sort arr n = sort_by_key (λ x. x) arr n
