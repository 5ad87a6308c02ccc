-- ===== src/Sorting/Tests.antt =====
-- A run of the insertion sort, and its theorems at concrete arrays.
use op_sys.Common.{ℕ, ◌≡◌, refl, List, [], ◌∷◌, arith, ℤ, pos, negsuc}
use op_sys.Sorting.{insertion_sort, sort_by_key, compare_swap, sift}
use op_sys.Sorting.Laws.{Sorts, sort_by_key-Sorts}

abbrev numbers : List ℤ
numbers = pos 4 ∷ negsuc 0 ∷ pos 2 ∷ pos 1 ∷ []

-- Only the first three are sorted.
insertion_sort_runs : insertion_sort numbers 3 ≡ negsuc 0 ∷ pos 2 ∷ pos 4 ∷ pos 1 ∷ []
unfolding insertion_sort sift compare_swap
insertion_sort_runs = refl

-- Numbers that are their own keys.
abbrev as_key : ℕ → ℤ
as_key n = pos n

sort_by_key-Sorts_example : Sorts as_key (3 ∷ 1 ∷ 2 ∷ []) 3 (sort_by_key as_key (3 ∷ 1 ∷ 2 ∷ []) 3)
sort_by_key-Sorts_example = sort_by_key-Sorts as_key (3 ∷ 1 ∷ 2 ∷ []) 3 (omega arith)
