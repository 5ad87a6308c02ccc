-- ===== src/Search/Single.antt =====
-- lab2_file_system/search_dir/search_stat.c: one process reads the directories one inside the other.
use op_sys.Common.{ℕ, List, [], ◌∷◌, ◌++◌, ◌==◌, if◌then◌else◌}
use op_sys.Search.{
  Entry, regular, directory, special, Folder, unreadable, entries, Entries, end, entry, less_than,
  greater_than, equal, validate_date, Details, join_path, is_dots, Env, passes, show,
}

-- The result is what the function returns, and what it prints.
module _ (env : Env) (compare_func : List ℕ → List ℕ → ℕ) (date : List ℕ) where
  unfoldable mutual
    pub deep_search_files : List ℕ → Folder → ℕ × List Details
    deep_search_files dirname unreadable = (1, [])
    deep_search_files dirname (entries es) = (0, search_entries dirname es)

    pub search_entries : List ℕ → Entries → List Details
    search_entries dirname end = []
    search_entries dirname (entry e es) = search_entry dirname e ++ search_entries dirname es

    pub search_entry : List ℕ → Entry → List Details
    search_entry dirname (regular d_name st) =
        if passes env compare_func date st then show env (join_path dirname d_name) st ∷ [] else []
    search_entry dirname (directory d_name f) =
        let inner = deep_search_files (join_path dirname d_name) f in
        if is_dots d_name then [] else inner.1
    search_entry dirname (special d_name) = []

-- The signs, and the code for any other text.
pub data Sign : Type 0 where
  less : Sign
  greater : Sign
  same : Sign
  unknown : Sign

abbrev pub sign_of : ℕ → Sign
sign_of c =
    if c == b'<' then less else if c == b'>' then greater else if c == b'=' then same else unknown

-- `main`; `root` is what is at a path.
abbrev pub search_by : Env → (List ℕ → Folder) → List ℕ → List ℕ → Sign → ℕ × List Details
search_by env root dirname date less = deep_search_files env less_than date dirname (root dirname)
search_by env root dirname date greater =
    deep_search_files env greater_than date dirname (root dirname)
search_by env root dirname date same = deep_search_files env equal date dirname (root dirname)
search_by env root dirname date unknown = (4, [])

unfoldable pub main_stat : Env → (List ℕ → Folder) → List (List ℕ) → ℕ × List Details
main_stat env root (program ∷ dirname ∷ (c ∷ []) ∷ date ∷ []) =
    if validate_date date == 0 then search_by env root dirname date (sign_of c) else (3, [])
main_stat env root (program ∷ dirname ∷ sign ∷ date ∷ []) = (2, [])
main_stat env root argv = (1, [])
