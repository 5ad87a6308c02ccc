-- ===== src/Search.antt =====
-- lab2_file_system/search_dir/utils.c, and what the programs that search directories share: the tree of a
-- directory, the comparison of dates as texts, and the line that is printed for a file.
pub mod Single
pub mod Walk
pub mod Processes
pub mod Dates
pub mod Accepted
pub mod Order
pub mod Found
pub mod Split
pub mod Repeated
pub mod Chosen
mod Tests
use op_sys.Common.{
  ℕ, zero, suc, ◌+◌, ◌-◌, ◌/◌, ◌%◌, Bool, true, false, ◌&&◌, ◌||◌, List, [], ◌∷◌, ◌++◌, ◌==◌, ltb,
  if◌then◌else◌, length, drop, get_or, ℤ, pos, negsuc, ltb_ℤ, is_digit, is_space,
}

-- The fields of `struct stat` that are read; the time is in seconds.
pub record Stat : Type 0 where
  pub st_mode : ℕ
  pub st_mtime : ℕ
  pub st_size : ℕ

-- What `readdir` gives, in its order: `DT_REG` with what `stat` says, `DT_DIR` with what `opendir` and
-- `readdir` find there, and any other type. `unreadable` is a directory that `opendir` fails for.
mutual
  pub data Entry : Type 0 where
    regular : (d_name : List ℕ) → Stat → Entry
    directory : (d_name : List ℕ) → Folder → Entry
    special : (d_name : List ℕ) → Entry

  pub data Folder : Type 0 where
    unreadable : Folder
    entries : Entries → Folder

  pub data Entries : Type 0 where
    end : Entries
    entry : Entry → Entries → Entries

abbrev pub strcmp : List ℕ → List ℕ → ℤ
strcmp [] [] = pos 0
strcmp [] (y ∷ ys) = negsuc 0
strcmp (x ∷ xs) [] = pos 1
strcmp (x ∷ xs) (y ∷ ys) =
    let rest = strcmp xs ys in if ltb x y then negsuc 0 else if ltb y x then pos 1 else rest

abbrev pub less_than : List ℕ → List ℕ → ℕ
less_than a b = if ltb_ℤ (strcmp a b) (pos 0) then 0 else 1

abbrev pub greater_than : List ℕ → List ℕ → ℕ
greater_than a b = if ltb_ℤ (pos 0) (strcmp a b) then 0 else 1

abbrev pub is_zero_ℤ : ℤ → Bool
is_zero_ℤ (pos zero) = true
is_zero_ℤ _ = false

abbrev pub equal : List ℕ → List ℕ → ℕ
equal a b = if is_zero_ℤ (strcmp a b) then 0 else 1

-- `struct tm`, as far as the format takes it.
pub record Date : Type 0 where
  pub year : ℕ
  pub month : ℕ
  pub day : ℕ
  pub hour : ℕ
  pub minute : ℕ
  pub second : ℕ

abbrev pub two_digits : ℕ → List ℕ → List ℕ
two_digits n rest = (b'0' + n / 10) ∷ (b'0' + n % 10) ∷ rest

-- `strftime` with "%Y-%m-%d %H:%M:%S", for a year of four digits.
unfoldable pub strftime : Date → List ℕ
strftime t = two_digits (t.year / 100) (
    two_digits (t.year % 100) (
      b'-'
      ∷ two_digits t.month (
          b'-'
          ∷ two_digits t.day (
              b' '
              ∷ two_digits t.hour (b':' ∷ two_digits t.minute (b':' ∷ two_digits t.second []))))))

-- `localtime` is the caller's.
abbrev pub format_time : (ℕ → Date) → ℕ → List ℕ
format_time localtime time = strftime (localtime time)

-- The parts of the format of `sscanf`: "%*[0-9]", "%n", a character, and the space.
pub data Directive : Type 0 where
  digits : Directive
  count : Directive
  literal : ℕ → Directive
  white : Directive

abbrev pub date_format : List Directive
date_format =
    digits
    ∷ count
    ∷ literal b'-'
    ∷ digits
    ∷ count
    ∷ literal b'-'
    ∷ digits
    ∷ count
    ∷ white
    ∷ digits
    ∷ count
    ∷ literal b':'
    ∷ digits
    ∷ count
    ∷ literal b':'
    ∷ digits
    ∷ count
    ∷ []

abbrev pub span : (ℕ → Bool) → List ℕ → ℕ
span p [] = 0
span p (c ∷ cs) = let rest = span p cs in if p c then suc rest else 0

abbrev pub starts_with : ℕ → List ℕ → Bool
starts_with c [] = false
starts_with c (d ∷ _) = d == c

-- The numbers that the `%n` get, up to the first part of the format that does not match.
unfoldable pub scan_format : List Directive → ℕ → List ℕ → List ℕ
scan_format [] p s = []
scan_format (digits ∷ fs) p s =
    let k = span is_digit s in
    let rest = scan_format fs (p + k) (drop k s) in if k == 0 then [] else rest
scan_format (count ∷ fs) p s = p ∷ scan_format fs p s
scan_format (literal c ∷ fs) p s =
    let rest = scan_format fs (p + 1) (drop 1 s) in if starts_with c s then rest else []
scan_format (white ∷ fs) p s = let k = span is_space s in scan_format fs (p + k) (drop k s)

unfoldable pub validate_date : List ℕ → ℕ
unfolding scan_format
validate_date date =
    let n = scan_format date_format 0 date in
    if (get_or n 0 0 == 4)
      && (get_or n 1 0 == 7)
      && (get_or n 2 0 == 10)
      && (get_or n 3 0 == 13)
      && (get_or n 4 0 == 16)
      && (get_or n 5 0 == 19)
    then 0
    else 5

-- A line of the output: the permissions, the time, the path and the size.
pub record Details : Type 0 where
  pub permissions : List ℕ
  pub last_modified : List ℕ
  pub path : List ℕ
  pub size : ℕ

abbrev pub permission : ℕ → ℕ → ℕ → ℕ
permission mode bit letter = if (mode / bit) % 2 == 1 then letter else b'-'

unfoldable pub print_file_details : List ℕ → List ℕ → Stat → Details
print_file_details file_abs_path mod_time st = record {
  permissions =
      permission st.st_mode 256 b'r'
      ∷ permission st.st_mode 128 b'w'
      ∷ permission st.st_mode 64 b'x'
      ∷ permission st.st_mode 32 b'r'
      ∷ permission st.st_mode 16 b'w'
      ∷ permission st.st_mode 8 b'x'
      ∷ permission st.st_mode 4 b'r'
      ∷ permission st.st_mode 2 b'w'
      ∷ permission st.st_mode 1 b'x'
      ∷ [];
  last_modified = mod_time;
  path = file_abs_path;
  size = st.st_size;
}

abbrev pub ends_with : ℕ → List ℕ → Bool
ends_with c [] = false
ends_with c (d ∷ []) = d == c
ends_with c (d ∷ e ∷ s) = ends_with c (e ∷ s)

-- `cwd` is what `getcwd` gives; the arrays of 500 and 600 bytes are taken to be large enough. The slash is put by the end of `fpath`, not of `cwd`.
abbrev pub to_absolute : List ℕ → List ℕ → List ℕ
to_absolute cwd fpath = (if ends_with b'/' fpath then cwd else cwd ++ b'/' ∷ []) ++ fpath

-- The path that is printed.
abbrev pub absolute : List ℕ → List ℕ → List ℕ
absolute cwd path = if starts_with b'/' path then path else to_absolute cwd path

-- The path of a directory entry.
abbrev pub join_path : List ℕ → List ℕ → List ℕ
join_path dirname d_name =
    (if ends_with b'/' dirname then dirname else dirname ++ b'/' ∷ []) ++ d_name

-- "." and ".."
abbrev pub is_dots : List ℕ → Bool
is_dots (a ∷ []) = a == b'.'
is_dots (a ∷ b ∷ []) = (a == b'.') && (b == b'.')
is_dots _ = false

-- What the caller's environment gives.
pub record Env : Type 0 where
  pub localtime : ℕ → Date
  pub cwd : List ℕ

-- `compare_func` and `date`, and what is printed for a file that passes.
abbrev pub passes : Env → (List ℕ → List ℕ → ℕ) → List ℕ → Stat → Bool
passes env compare date st = compare (format_time env.localtime st.st_mtime) date == 0

abbrev pub show : Env → List ℕ → Stat → Details
show env path st =
    print_file_details (absolute env.cwd path) (format_time env.localtime st.st_mtime) st
