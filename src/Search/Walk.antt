-- ===== src/Search/Walk.antt =====
-- lab2_file_system/search_dir/search_nftw.c: `nftw` walks the tree and calls `print_entry` for each object.
use op_sys.Common.{ℕ, Bool, ◌&&◌, List, [], ◌∷◌, ◌++◌, if◌then◌else◌}
use op_sys.Search.{Stat, less_than, greater_than, equal, Details, Env, passes, show}
use op_sys.Search.Single.{Sign, less, greater, same, unknown, sign_of}

-- The arguments of a call of `print_entry`; `is_file` is that the flag is `FTW_F`.
pub record Visit : Type 0 where
  pub fpath : List ℕ
  pub stat : Stat
  pub is_file : Bool

-- It returns 0, so that `nftw` goes on.
unfoldable pub print_entry : Env → (List ℕ → List ℕ → ℕ) → List ℕ → Visit → List Details
print_entry env compare input_date v =
    if v.is_file && passes env compare input_date v.stat then show env v.fpath v.stat ∷ [] else []

abbrev pub print_entries : Env → (List ℕ → List ℕ → ℕ) → List ℕ → List Visit → List Details
print_entries env compare input_date [] = []
print_entries env compare input_date (v ∷ vs) =
    print_entry env compare input_date v ++ print_entries env compare input_date vs

-- `nftw` is the caller's: what it returns, and its calls of `print_entry`.
abbrev pub walk_by : Env → (List ℕ → ℕ × List Visit) → List ℕ → List ℕ → Sign → ℕ × List Details
walk_by env nftw dir date less = ((nftw dir).0, print_entries env less_than date (nftw dir).1)
walk_by env nftw dir date greater = ((nftw dir).0, print_entries env greater_than date (nftw dir).1)
walk_by env nftw dir date same = ((nftw dir).0, print_entries env equal date (nftw dir).1)
walk_by env nftw dir date unknown = (3, [])

-- `main`: more arguments are allowed than are needed, and the date is not tested.
unfoldable pub main_nftw : Env → (List ℕ → ℕ × List Visit) → List (List ℕ) → ℕ × List Details
main_nftw env nftw (program ∷ dir ∷ (c ∷ []) ∷ date ∷ rest) = walk_by env nftw dir date (sign_of c)
main_nftw env nftw (program ∷ dir ∷ sign ∷ date ∷ rest) = (2, [])
main_nftw env nftw argv = (1, [])
