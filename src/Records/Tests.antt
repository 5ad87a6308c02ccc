-- ===== src/Records/Tests.antt =====
-- Runs of the file functions, and their theorems at concrete files.
use op_sys.Common.{
  ℕ, ◌≡◌, refl, Bool, true, false, Option, some, List, [], ◌∷◌, arith, ℤ, pos, negsuc, replicate,
  length-replicate, length, ◌*◌,
}
use op_sys.Records.{
  Sorter, Outcome, sort_sys, sort_lib, sort_records, sift_records, compare_records, swap_records,
  sys, read_starting_from, write_starting_from, finished,
}
use op_sys.Records.Compared.{key, Holds, Ends}
use op_sys.Records.Sorted.{SomeFails, sort_sys-Sorts, sort_lib-Sorts}
use op_sys.Records.Copying.{copy_sys, copy_lib, copy_loop, copy_round, cut_off}
use op_sys.Records.Copying.Prefix.{Copies, copy-Copies}
use op_sys.Records.Generating.{generate, generated}
use op_sys.Records.Generating.Written.{Brings, generate-length}
use op_sys.Records.Program.{Command, main, sort_word, sys_word, is_negative, parse, parse_sort}
use op_sys.Records.Program.Accepted.{Asks, main_zero}
use op_sys.Common.{◌↔◌}
use op_sys.Sorting.Laws.{Sorts}

abbrev three : List (List ℕ)
three = (3 ∷ 1 ∷ []) ∷ (1 ∷ 2 ∷ []) ∷ (2 ∷ 0 ∷ []) ∷ []

abbrev sorter : Sorter
sorter = record {
  disk = record { bytes = 3 ∷ 1 ∷ 1 ∷ 2 ∷ 2 ∷ 0 ∷ 7 ∷ []; calls = 0 };
  first = 0 ∷ 0 ∷ [];
  second = 0 ∷ 0 ∷ [];
}

abbrev never : ℕ → Bool
never i = false

sorter-Holds : Holds 2 (7 ∷ []) three sorter
sorter-Holds = record { content = refl; first_full = refl; second_full = refl }

abbrev content : Outcome → List ℕ
content (finished s) = s.disk.bytes
content _ = []

-- No call transfers more than four bytes.
abbrev four_at_once : ℕ → ℕ
four_at_once i = 4

sort_sys_runs : content (sort_sys never four_at_once 3 2 sorter) ≡ 1 ∷ 2 ∷ 2 ∷ 0 ∷ 3 ∷ 1 ∷ 7 ∷ []
unfolding sort_sys sort_records sift_records compare_records swap_records sys read_starting_from
    write_starting_from
sort_sys_runs = refl

-- Where a call transfers one byte only, the records are mixed up, and no call has failed.
abbrev one_at_once : ℕ → ℕ
one_at_once i = 1

short_writes : content (sort_sys never one_at_once 3 2 sorter) ≡ 1 ∷ 1 ∷ 2 ∷ 2 ∷ 3 ∷ 0 ∷ 7 ∷ []
unfolding sort_sys sort_records sift_records compare_records swap_records sys read_starting_from
    write_starting_from
short_writes = refl

sort_sys-Sorts_example :
    (out : List (List ℕ)) × Sorts key three 3 out
    × Ends 2 (7 ∷ []) (SomeFails never) out (sort_sys never four_at_once 3 2 sorter)
sort_sys-Sorts_example =
    sort_sys-Sorts never four_at_once 3 2 three (7 ∷ []) sorter (λ i. omega arith) (omega arith)
      (refl, (refl, (refl, tt))) (omega arith) sorter-Holds (omega arith)

sort_lib-Sorts_example :
    (out : List (List ℕ)) × Sorts key three 2 out
    × Ends 2 (7 ∷ []) (SomeFails never) out (sort_lib never 2 2 sorter)
sort_lib-Sorts_example =
    sort_lib-Sorts never 2 2 three (7 ∷ []) sorter (refl, (refl, (refl, tt))) (omega arith)
      sorter-Holds

abbrev many : ℕ → ℕ
many i = 100

abbrev source : List ℕ
source = 1 ∷ 2 ∷ 3 ∷ 4 ∷ 5 ∷ []

-- The disk is full after one byte.
abbrev one_byte : ℕ → ℕ
one_byte i = 1

copy_sys_runs :
    copy_sys many one_byte true true source 2 2 ≡ cut_off (record { position = 2; copied = 1 ∷ [] })
unfolding copy_sys copy_loop copy_round
copy_sys_runs = refl

copy-Copies_example :
    Copies source (copy_sys many one_byte true true source 2 2)
    × Copies source (copy_lib many one_byte true true source 2 2)
copy-Copies_example = copy-Copies many one_byte true true source 2 2

-- A random source that brings all that is wanted.
abbrev zeros : ℕ → ℕ → Option (List ℕ)
zeros call wanted = some (replicate wanted 0)

zeros-Brings : Brings zeros
zeros-Brings call wanted h = (
  replicate wanted 0,
  refl,
  omega (arith, h, length-replicate {A = ℕ} wanted 0),
  omega (arith, length-replicate {A = ℕ} wanted 0),
)

abbrev all_written : ℕ → ℤ
all_written i = pos 3

abbrev no_space : ℕ → ℤ
no_space i = negsuc 0

generate-length_example :
    (out : List ℕ) × (generate zeros all_written 3 true true [] 2 ≡ generated out)
    × (length out ≡ 2 * 3)
generate-length_example = generate-length zeros all_written 3 [] 2 zeros-Brings (λ k. refl)

-- A conversion that gives the code of the first character.
abbrev first_code : List ℕ → ℤ
first_code [] = pos 0
first_code (c ∷ _) = pos c

abbrev returns_zero : Command → ℤ
returns_zero c = pos 0

abbrev sort_line : List (List ℕ)
sort_line = sort_word ∷ (102 ∷ []) ∷ (51 ∷ []) ∷ (50 ∷ []) ∷ sys_word ∷ []

main_runs : main first_code returns_zero sort_line ≡ 0
unfolding main parse parse_sort
main_runs = refl

main_zero_example :
    (main first_code returns_zero sort_line ≡ 0)
    ↔ ((c : Command) × Asks first_code sort_line c × (is_negative (returns_zero c) ≡ false))
main_zero_example = main_zero first_code returns_zero sort_line
