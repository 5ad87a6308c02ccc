-- ===== src/Search/Tests.antt =====
-- A directory with a file, the entry ".", and a directory with a second file in it.
use mathlib.Core.List.{Perm, filter_map}
use mathlib.Core.List
use op_sys.Common.{length, ℕ, ◌%◌, ◌≡◌, ◌↔◌, refl, true, false, List, [], ◌∷◌, ◌++◌, arith}
use op_sys.Search.{
  Stat, regular, directory, Folder, entries, end, entry, Date, Env, strftime, validate_date,
  less_than, show, print_file_details,
}
use op_sys.Search.Single.{main_stat, deep_search_files, less}
use op_sys.Search.Walk.{Visit, main_nftw}
use op_sys.Search.Processes.{Event, forked, Setting, Out, flush, main_proc, search_entries}
use op_sys.Search.Order.{IsDate}
use op_sys.Search.Dates.{Parts, text, IsForm}
use op_sys.Search.Accepted.{validate_date-accepts}
use op_sys.Search.Found.{regular_files, files_of, main_nftw-main_stat}
use op_sys.Search.Split.{found, main_proc-main_stat}
use op_sys.Search.Repeated.{buffer_repeated}
use op_sys.Search.Chosen.{chosen, main_stat-chosen}

abbrev at_second : ℕ → Date
at_second s = record { year = 2019; month = 3; day = 25; hour = 23; minute = 9; second = s % 60 }

at_second-IsDate : (s : ℕ) → IsDate (at_second s)
at_second-IsDate s = ground arith

abbrev home : Env
home = record { localtime = at_second; cwd = b'/' ∷ b'h' ∷ [] }

abbrev old_file : Stat
old_file = record { st_mode = 420; st_mtime = 5; st_size = 12 }

abbrev new_file : Stat
new_file = record { st_mode = 493; st_mtime = 30; st_size = 7 }

abbrev tree : Folder
tree = entries (
    entry (regular (b'a' ∷ []) old_file) (
      entry (directory (b'.' ∷ []) (entries end))
        (entry (directory (b's' ∷ []) (entries (entry (regular (b'b' ∷ []) new_file) end))) end)))

abbrev visits : List Visit
visits =
    record { fpath = b'd' ∷ []; stat = old_file; is_file = false }
    ∷ record { fpath = b'd' ∷ b'/' ∷ b'a' ∷ []; stat = old_file; is_file = true }
    ∷ record { fpath = b'd' ∷ b'/' ∷ b's' ∷ b'/' ∷ b'b' ∷ []; stat = new_file; is_file = true }
    ∷ []

abbrev arguments : List (List ℕ)
arguments = (b'p' ∷ []) ∷ (b'd' ∷ []) ∷ (b'<' ∷ []) ∷ strftime (at_second 20) ∷ []

-- "-rw-r--r--", without the type
old_details :
    (main_stat home (λ _. tree) arguments).1
    ≡ record {
      permissions = b'r' ∷ b'w' ∷ b'-' ∷ b'r' ∷ b'-' ∷ b'-' ∷ b'r' ∷ b'-' ∷ b'-' ∷ [];
      last_modified = strftime (at_second 5);
      path = b'/' ∷ b'h' ∷ b'/' ∷ b'd' ∷ b'/' ∷ b'a' ∷ [];
      size = 12;
    }
      ∷ []
unfolding main_stat strftime validate_date deep_search_files print_file_details
old_details = refl

-- The day and the hour have one digit each, and seconds follow that nothing reads.
abbrev odd_date : Parts
odd_date = record {
  year = b'0' ∷ b'0' ∷ b'0' ∷ b'0' ∷ [];
  month = b'9' ∷ b'9' ∷ [];
  day = b'0' ∷ b'0' ∷ [];
  gap = b' ' ∷ b' ' ∷ [];
  hour = b'7' ∷ [];
  minute = b'7' ∷ b'5' ∷ [];
  second = b'6' ∷ b'1' ∷ [];
  behind = b'x' ∷ [];
}

odd_date-IsForm : IsForm odd_date
odd_date-IsForm = record {
  year_digits = (refl, (refl, (refl, (refl, tt))));
  year_length = refl;
  month_digits = (refl, (refl, tt));
  month_length = refl;
  day_digits = (refl, (refl, tt));
  day_length = refl;
  gap_spaces = (refl, (refl, tt));
  gap_length = (λ e. cc, λ e. cc, refl);
  hour_digits = (refl, tt);
  minute_digits = (refl, (refl, tt));
  minute_length = refl;
  second_digits = (refl, (refl, tt));
  second_length = refl;
  behind_stops = refl;
}

validate_date-accepts_example :
    (validate_date (text odd_date) ≡ 0) ↔ ((t : Parts) × (text t ≡ text odd_date) × IsForm t)
validate_date-accepts_example = validate_date-accepts (text odd_date)

odd_date_accepted : validate_date (text odd_date) ≡ 0
odd_date_accepted = (validate_date-accepts (text odd_date)).1 (odd_date, refl, odd_date-IsForm)

main_stat-chosen_example :
    (main_stat home (λ _. tree) arguments).1
    ≡ filter_map (chosen home less (at_second 20)) (regular_files (b'd' ∷ []) tree)
main_stat-chosen_example =
    main_stat-chosen home (λ _. tree) (b'p' ∷ []) (b'd' ∷ []) b'<' (at_second 20) at_second-IsDate
      (at_second-IsDate 20) (λ e. cc)

visits-perm : Perm (files_of visits) (regular_files (b'd' ∷ []) tree)
unfolding regular_files
visits-perm = List.Perm.refl _

accepted : validate_date (strftime (at_second 20)) ≡ 0
unfolding validate_date strftime
accepted = refl

main_nftw-main_stat_example :
    Perm (main_nftw home (λ _. (0, visits)) arguments).1 (main_stat home (λ _. tree) arguments).1
main_nftw-main_stat_example =
    main_nftw-main_stat home (λ _. tree) (λ _. (0, visits)) (b'p' ∷ []) (b'd' ∷ [])
      (strftime (at_second 20)) b'<' accepted visits-perm

abbrev on_terminal : Setting
on_terminal = record {
  pid_of = length;
  shell = 1;
  env = home;
  compare_func = less_than;
  date = [];
  line_buffered = true;
  fork = λ _. forked;
}

main_proc-main_stat_example :
    ((main_proc on_terminal (λ _. tree) arguments).0 ≡ (main_stat home (λ _. tree) arguments).0)
    × (found (main_proc on_terminal (λ _. tree) arguments).1
        ≡ (main_stat home (λ _. tree) arguments).1)
main_proc-main_stat_example = main_proc-main_stat on_terminal refl (λ _. refl) (λ _. tree) arguments

abbrev into_file : Setting
into_file = record on_terminal { line_buffered = false }

-- The line about a file that was found before a directory.
abbrev one_line : Out
one_line = record {
  written = [];
  buffered = Event.details (show home (b'd' ∷ b'/' ∷ b'a' ∷ []) old_file) 1 1 ∷ [];
}

buffer_repeated_example :
    (before between after : List Event) × (flush
        (search_entries into_file 1 (b'd' ∷ []) (entry (directory (b's' ∷ []) tree) end) one_line).1
      ≡ [] ++ (before ++ (one_line.buffered ++ (between ++ (one_line.buffered ++ after)))))
buffer_repeated_example =
    buffer_repeated into_file 1 (b'd' ∷ []) (b's' ∷ []) tree end one_line refl refl
