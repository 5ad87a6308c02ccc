-- ===== src/Digits.antt =====
-- lab1_mem_mgmt_and_libs/compiler_optimization/string_to_list.c: decimal numbers as linked lists of
-- digits, the lowest digit first. A `struct digit *` is the list of the `dig` fields that it leads
-- to, NULL the empty list. The two arguments of `add` share no node, as in `main`.
pub mod Value
mod Tests
use mathlib.Core.WellFounded.{Acc}
use mathlib.Core.Option
use op_sys.Common.{
  ℕ, zero, suc, ◌+◌, ◌/◌, ◌%◌, ◌<◌, Bool, true, false, ◌&&◌, ◌||◌, not, Option, none, some, List,
  [], ◌∷◌, dite, arith, ◌==◌, if◌then◌else◌, dec_lt, lt_wf, length,
}

-- `while (number > 0)`: the nodes that follow the one at `trav`.
digits_acc : (number : ℕ) → Acc ◌<◌ number → List ℕ
digits_acc number (Acc.intro _ smaller) =
    dite (dec_lt 0 number)
      (λ h. (number % 10) ∷ digits_acc (number / 10) (smaller (number / 10) (omega arith)))
      (λ _. [])

unfoldable pub higher_digits : ℕ → List ℕ
unfolding digits_acc lt_wf dec_lt
higher_digits number = digits_acc number (lt_wf.apply number)

-- The root node is overwritten, and its `next` is set anew.
unfoldable pub create_num_as_list : List ℕ → ℕ → List ℕ
unfolding higher_digits
create_num_as_list [] number = []
create_num_as_list (root ∷ old) number = (number % 10) ∷ higher_digits (number / 10)

abbrev pub is_null : List ℕ → Bool
is_null [] = true
is_null (_ ∷ _) = false

-- `travb ? travb->dig : 0`
abbrev pub dig_or_zero : List ℕ → ℕ
dig_or_zero [] = 0
dig_or_zero (d ∷ _) = d

-- `if (travb) travb = travb->next;`
abbrev pub next_of : List ℕ → List ℕ
next_of [] = []
next_of (_ ∷ rest) = rest

-- `travb || leftover`
abbrev pub more_to_add : List ℕ → ℕ → Bool
more_to_add travb leftover = not (is_null travb) || not (leftover == 0)

-- A node of value 0 is appended where the result ends and digits are left to add.
abbrev pub grow : List ℕ → List ℕ → ℕ → List ℕ
grow [] travb leftover = if more_to_add travb leftover then 0 ∷ [] else []
grow (d ∷ rest) travb leftover = d ∷ rest

-- The loop of `add`. `none`: the rounds ran out, or `travadded` is NULL where it is read.
pub add_loop : ℕ → List ℕ → List ℕ → ℕ → Option (List ℕ)
add_loop zero travadded travb leftover = none
add_loop (suc rounds) [] travb leftover = if more_to_add travb leftover then none else some []
add_loop (suc rounds) (d ∷ rest) travb leftover =
    let sum = d + dig_or_zero travb + leftover in
    let b' = next_of travb in
    let tail = add_loop rounds (grow rest b' (sum / 10)) b' (sum / 10) in
    if more_to_add travb leftover then Option.map (λ ds. (sum % 10) ∷ ds) tail else some (d ∷ rest)

-- What the caller's pointer `a` leads to after `add(a, b)`. For a NULL `a` the sum goes to a node
-- that only the callee's copy of the pointer reaches, so the caller still has NULL.
unfoldable pub add : List ℕ → List ℕ → Option (List ℕ)
unfolding add_loop
add [] b = some []
add (d ∷ rest) b = add_loop (length b + suc (length rest) + 2) (d ∷ rest) b 0

-- `for (int i = 0; i < n; i++) add(total, to_add);`
pub add_repeatedly : ℕ → List ℕ → List ℕ → Option (List ℕ)
add_repeatedly zero total to_add = some total
add_repeatedly (suc n) total to_add = elim (add total to_add) [
  | none ↦ none
  | some total' ↦ add_repeatedly n total' to_add
]
