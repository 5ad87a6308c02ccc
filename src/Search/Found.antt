-- ===== src/Search/Found.antt =====
-- What the searches of one process print, against the list of all files of the tree.
use mathlib.Core.List.{Perm, filter_map, filter_map-append}
use mathlib.Core.List
use op_sys.Common.{ℕ, ◌≡◌, refl, sym, List, [], ◌∷◌, ◌++◌, if◌then◌else◌, Option, some, none, arith}
use op_sys.Search.{
  Stat, Entry, regular, directory, special, Folder, unreadable, entries, Entries, end, entry,
  Details, join_path, is_dots, Env, passes, show, validate_date, less_than, greater_than, equal,
}
use op_sys.Search.Single.{
  deep_search_files, search_entries, search_entry, main_stat, search_by, Sign, less, greater, same,
  unknown, sign_of,
}
use op_sys.Search.Walk.{Visit, print_entry, print_entries, walk_by, main_nftw}

-- The regular files below a directory, with their paths, in the order of the directories.
unfoldable mutual
  pub regular_files : List ℕ → Folder → List (List ℕ × Stat)
  regular_files dirname unreadable = []
  regular_files dirname (entries es) = regular_files_in dirname es

  pub regular_files_in : List ℕ → Entries → List (List ℕ × Stat)
  regular_files_in dirname end = []
  regular_files_in dirname (entry e es) = regular_files_of dirname e ++ regular_files_in dirname es

  pub regular_files_of : List ℕ → Entry → List (List ℕ × Stat)
  regular_files_of dirname (regular d_name st) = (join_path dirname d_name, st) ∷ []
  regular_files_of dirname (directory d_name f) =
      let inner = regular_files (join_path dirname d_name) f in if is_dots d_name then [] else inner
  regular_files_of dirname (special d_name) = []

-- The visits that are of files.
abbrev pub files_of : List Visit → List (List ℕ × Stat)
files_of [] = []
files_of (v ∷ vs) = if v.is_file then (v.fpath, v.stat) ∷ files_of vs else files_of vs

module _ (env : Env) (compare_func : List ℕ → List ℕ → ℕ) (date : List ℕ) where
  abbrev pub shown : List ℕ × Stat → Option Details
  shown (path, st) = if passes env compare_func date st then some (show env path st) else none

  mutual
    unfolding deep_search_files regular_files filter_map

    found_in_folder :
        (dirname : List ℕ) (f : Folder)
        → (deep_search_files env compare_func date dirname f).1
          ≡ filter_map shown (regular_files dirname f)
    found_in_folder dirname unreadable = refl
    found_in_folder dirname (entries es) = found_in_entries dirname es

    found_in_entries :
        (dirname : List ℕ) (es : Entries)
        → search_entries env compare_func date dirname es
          ≡ filter_map shown (regular_files_in dirname es)
    found_in_entries dirname end = refl
    found_in_entries dirname (entry e es) =
        rw (found_in_entry dirname e, found_in_entries dirname es)
          (sym (filter_map-append shown (regular_files_of dirname e) (regular_files_in dirname es)))

    found_in_entry :
        (dirname : List ℕ) (e : Entry)
        → search_entry env compare_func date dirname e
          ≡ filter_map shown (regular_files_of dirname e)
    found_in_entry dirname (regular d_name st) = ground arith
    found_in_entry dirname (directory d_name f) =
        ground (arith, found_in_folder (join_path dirname d_name) f)
    found_in_entry dirname (special d_name) = refl

  pub deep_search_files-shown :
      (dirname : List ℕ) (f : Folder)
      → (deep_search_files env compare_func date dirname f).1
        ≡ filter_map shown (regular_files dirname f)
  deep_search_files-shown dirname f = found_in_folder dirname f

  pub print_entries-shown :
      (vs : List Visit) → print_entries env compare_func date vs ≡ filter_map shown (files_of vs)
  unfolding print_entry filter_map
  print_entries-shown [] = refl
  print_entries-shown (v ∷ vs) = ground (arith, print_entries-shown vs)

  same_lines :
      (dirname : List ℕ) (f : Folder) (vs : List Visit)
      → Perm (files_of vs) (regular_files dirname f)
      → Perm
          (print_entries env compare_func date vs)
          (deep_search_files env compare_func date dirname f).1
  same_lines dirname f vs files =
      rw (print_entries-shown vs, deep_search_files-shown dirname f)
        (List.Perm.filter_map shown files)

-- Where the files that `nftw` visits are those of the tree, in any order, both programs print the same
-- lines for a sign and a date that both accept.
pub main_nftw-main_stat :
    (env : Env) (root : List ℕ → Folder) (nftw : List ℕ → ℕ × List Visit)
    (program dirname date : List ℕ) (c : ℕ)
    → validate_date date ≡ 0
    → Perm (files_of (nftw dirname).1) (regular_files dirname (root dirname))
    → Perm
        (main_nftw env nftw (program ∷ dirname ∷ (c ∷ []) ∷ date ∷ [])).1
        (main_stat env root (program ∷ dirname ∷ (c ∷ []) ∷ date ∷ [])).1
unfolding main_nftw main_stat
main_nftw-main_stat env root nftw program dirname date c valid files =
    rw valid (by_sign (sign_of c))
  where
    by_sign :
        (sign : Sign)
        → Perm (walk_by env nftw dirname date sign).1 (search_by env root dirname date sign).1
    by_sign less = same_lines env less_than date dirname (root dirname) (nftw dirname).1 files
    by_sign greater = same_lines env greater_than date dirname (root dirname) (nftw dirname).1 files
    by_sign same = same_lines env equal date dirname (root dirname) (nftw dirname).1 files
    by_sign unknown = List.Perm.refl []
