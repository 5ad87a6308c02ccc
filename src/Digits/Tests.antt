-- ===== src/Digits/Tests.antt =====
-- The numbers of `main` in string_to_list.c, and the theorems at them.
use op_sys.Common.{◌+◌, ◌*◌, ◌≡◌, refl, some, [], ◌∷◌, arith}
use op_sys.Digits.{create_num_as_list, add, add_repeatedly}
use op_sys.Digits.Value.{Sums, value-add_repeatedly}

create_999 : create_num_as_list (0 ∷ []) 999 ≡ 9 ∷ 9 ∷ 9 ∷ []
unfolding create_num_as_list
create_999 = refl

-- 999 + 123456
add_in_main : add (9 ∷ 9 ∷ 9 ∷ []) (6 ∷ 5 ∷ 4 ∷ 3 ∷ 2 ∷ 1 ∷ []) ≡ some (5 ∷ 5 ∷ 4 ∷ 4 ∷ 2 ∷ 1 ∷ [])
unfolding add
add_in_main = refl

value-add_repeatedly_example : Sums (999 + 3 * 21) (add_repeatedly 3 (9 ∷ 9 ∷ 9 ∷ []) (1 ∷ 2 ∷ []))
value-add_repeatedly_example =
    value-add_repeatedly 3 9 (9 ∷ 9 ∷ []) (1 ∷ 2 ∷ []) (omega arith) (omega arith)
