-- ===== src/Search/Chosen.antt =====
-- The search in one process finds the files that were modified before, after or at the given date.
use mathlib.Core.Path.{fun_ext}
use mathlib.Core.List.{filter_map}
use op_sys.Common.{
  ℕ, ◌<◌, ◌≡◌, ◌≢◌, ◌↔◌, refl, ap, ◌∙◌, Bool, false, List, [], ◌∷◌, ◌==◌, ltb, if◌then◌else◌,
  Option, some, none, arith,
}
use op_sys.Search.{Stat, Folder, Details, Date, Env, show, strftime, less_than, greater_than, equal}
use op_sys.Search.Single.{Sign, less, greater, same, unknown, sign_of, search_by, main_stat}
use op_sys.Search.Order.{IsDate, moment, less_than-strftime, greater_than-strftime, equal-strftime}
use op_sys.Search.Dates.{validate_date-strftime}
use op_sys.Search.Found.{regular_files, shown, deep_search_files-shown}

-- What a sign says of the time of a file and the given one.
abbrev pub stands : Sign → ℕ → ℕ → Bool
stands less x y = ltb x y
stands greater x y = ltb y x
stands same x y = x == y
stands unknown x y = false

abbrev pub chosen : Env → Sign → Date → List ℕ × Stat → Option Details
chosen env sign b (path, st) =
    if stands sign (moment (env.localtime st.st_mtime)) (moment b)
    then some (show env path st)
    else none

zero_test : (n x y : ℕ) → (n ≡ 0) ↔ (x < y) → (n == 0) ≡ ltb x y
zero_test n x y h = ground (arith, h.0, h.1)

zero_test_eq : (n x y : ℕ) → (n ≡ 0) ↔ (x ≡ y) → (n == 0) ≡ (x == y)
zero_test_eq n x y h = ground (arith, h.0, h.1)

module _ (env : Env) (b : Date) (dates : (time : ℕ) → IsDate (env.localtime time))
    (d : IsDate b) where
  shown-less : (x : List ℕ × Stat) → shown env less_than (strftime b) x ≡ chosen env less b x
  shown-less (path, st) =
      ap (λ t. if t then some (show env path st) else none)
        (zero_test _ _ _ (less_than-strftime (env.localtime st.st_mtime) b (dates st.st_mtime) d))

  shown-greater :
      (x : List ℕ × Stat) → shown env greater_than (strftime b) x ≡ chosen env greater b x
  shown-greater (path, st) =
      ap (λ t. if t then some (show env path st) else none)
        (zero_test _ _ _
          (greater_than-strftime (env.localtime st.st_mtime) b (dates st.st_mtime) d))

  shown-same : (x : List ℕ × Stat) → shown env equal (strftime b) x ≡ chosen env same b x
  shown-same (path, st) =
      ap (λ t. if t then some (show env path st) else none)
        (zero_test_eq _ _ _ (equal-strftime (env.localtime st.st_mtime) b (dates st.st_mtime) d))

  search_by-chosen :
      (root : List ℕ → Folder) (dirname : List ℕ) (sign : Sign)
      → sign ≢ unknown
      → (search_by env root dirname (strftime b) sign).1
        ≡ filter_map (chosen env sign b) (regular_files dirname (root dirname))
  search_by-chosen root dirname less ne =
      deep_search_files-shown env less_than (strftime b) dirname (root dirname)
      ∙ ap (λ f. filter_map f (regular_files dirname (root dirname))) (fun_ext shown-less)
  search_by-chosen root dirname greater ne =
      deep_search_files-shown env greater_than (strftime b) dirname (root dirname)
      ∙ ap (λ f. filter_map f (regular_files dirname (root dirname))) (fun_ext shown-greater)
  search_by-chosen root dirname same ne =
      deep_search_files-shown env equal (strftime b) dirname (root dirname)
      ∙ ap (λ f. filter_map f (regular_files dirname (root dirname))) (fun_ext shown-same)
  search_by-chosen root dirname unknown ne = absurd (ne refl)

-- With the formatted date `b` and one of the signs, the lines printed are those of the regular files
-- below the directory whose time of modification is before, after or at `b`, in the order of the
-- directories, where all dates have years of four digits and fields of two.
pub main_stat-chosen :
    (env : Env) (root : List ℕ → Folder) (program dirname : List ℕ) (c : ℕ) (b : Date)
    → ((time : ℕ) → IsDate (env.localtime time))
    → IsDate b
    → sign_of c ≢ unknown
    → (main_stat env root (program ∷ dirname ∷ (c ∷ []) ∷ strftime b ∷ [])).1
      ≡ filter_map (chosen env (sign_of c) b) (regular_files dirname (root dirname))
unfolding main_stat
main_stat-chosen env root program dirname c b dates d known =
    rw (validate_date-strftime b d) (search_by-chosen env b dates d root dirname (sign_of c) known)
