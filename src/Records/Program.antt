-- ===== src/Records/Program.antt =====
-- `main` of lab2_file_system/system_vs_lib_io/program.c: which function it runs on which arguments, and
-- the exit code. A string is the list of its character codes; `strtol` is the C library's, to base 10.
pub mod Accepted
use op_sys.Common.{
  ℕ, zero, suc, Bool, true, false, ◌&&◌, ◌||◌, List, [], ◌∷◌, ℤ, pos, negsuc, ◌==◌, if◌then◌else◌,
}

-- `strcmp(a, b) == 0`
abbrev pub str_eq : List ℕ → List ℕ → Bool
str_eq [] [] = true
str_eq (a ∷ as_) (b ∷ bs) = (a == b) && str_eq as_ bs
str_eq _ _ = false

abbrev pub is_zero : ℤ → Bool
is_zero (pos n) = n == 0
is_zero (negsuc n) = false

abbrev pub is_negative : ℤ → Bool
is_negative (pos n) = false
is_negative (negsuc n) = true

-- "generate", "sort", "copy", "sys" and "lib"
abbrev pub generate_word : List ℕ
generate_word = 103 ∷ 101 ∷ 110 ∷ 101 ∷ 114 ∷ 97 ∷ 116 ∷ 101 ∷ []

abbrev pub sort_word : List ℕ
sort_word = 115 ∷ 111 ∷ 114 ∷ 116 ∷ []

abbrev pub copy_word : List ℕ
copy_word = 99 ∷ 111 ∷ 112 ∷ 121 ∷ []

abbrev pub sys_word : List ℕ
sys_word = 115 ∷ 121 ∷ 115 ∷ []

abbrev pub lib_word : List ℕ
lib_word = 108 ∷ 105 ∷ 98 ∷ []

-- The calls that `main` makes.
pub data Command : Type 0 where
  run_generate : List ℕ → ℤ → ℤ → Command
  run_sort_sys : List ℕ → ℤ → ℤ → Command
  run_sort_lib : List ℕ → ℤ → ℤ → Command
  run_copy_sys : List ℕ → List ℕ → ℤ → ℤ → Command
  run_copy_lib : List ℕ → List ℕ → ℤ → ℤ → Command

pub data Parsed : Type 0 where
  runs : Command → Parsed
  exits : ℕ → Parsed

module _ (strtol : List ℕ → ℤ) where
  unfoldable pub parse_generate : List (List ℕ) → Parsed
  parse_generate (filename ∷ records ∷ size ∷ []) =
      if is_zero (strtol records) || is_zero (strtol size)
      then exits 3
      else runs (run_generate filename (strtol records) (strtol size))
  parse_generate _ = exits 2

  unfoldable pub parse_sort : List (List ℕ) → Parsed
  parse_sort (filename ∷ records ∷ size ∷ function_type ∷ []) =
      if is_zero (strtol records) || is_zero (strtol size)
      then exits 5
      else if str_eq function_type sys_word
      then runs (run_sort_sys filename (strtol records) (strtol size))
      else if str_eq function_type lib_word
      then runs (run_sort_lib filename (strtol records) (strtol size))
      else exits 6
  parse_sort _ = exits 4

  unfoldable pub parse_copy : List (List ℕ) → Parsed
  parse_copy (src ∷ dst ∷ records ∷ size ∷ function_type ∷ []) =
      if is_zero (strtol records) || is_zero (strtol size)
      then exits 8
      else if str_eq function_type sys_word
      then runs (run_copy_sys src dst (strtol records) (strtol size))
      else if str_eq function_type lib_word
      then runs (run_copy_lib src dst (strtol records) (strtol size))
      else exits 9
  parse_copy _ = exits 7

  -- The arguments behind the name of the program.
  unfoldable pub parse : List (List ℕ) → Parsed
  unfolding parse_generate parse_sort parse_copy
  parse [] = exits 1
  parse (function ∷ args) =
      if str_eq function generate_word
      then parse_generate args
      else if str_eq function sort_word
      then parse_sort args
      else if str_eq function copy_word
      then parse_copy args
      else exits 10

abbrev pub failure_code : Command → ℕ
failure_code (run_generate _ _ _) = 4
failure_code (run_sort_sys _ _ _) = 5
failure_code (run_sort_lib _ _ _) = 5
failure_code (run_copy_sys _ _ _ _) = 8
failure_code (run_copy_lib _ _ _ _) = 8

-- `result` is what the called function returns.
unfoldable pub main : (List ℕ → ℤ) → (Command → ℤ) → List (List ℕ) → ℕ
unfolding parse
main strtol result args = elim (parse strtol args) [
  | runs c ↦ if is_negative (result c) then failure_code c else 0
  | exits code ↦ code
]
