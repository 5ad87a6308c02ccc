-- ===== src/Search/Processes.antt =====
-- lab3_processes/search_dir_mult_ps/search_proc.c: each directory is searched by a process of its own.
use op_sys.Common.{ℕ, Bool, true, false, List, [], ◌∷◌, ◌++◌, ◌==◌, if◌then◌else◌}
use op_sys.Search.{
  Entry, regular, directory, special, Folder, unreadable, entries, Entries, end, entry, less_than,
  greater_than, equal, validate_date, Details, join_path, is_dots, Env, passes, show,
}
use op_sys.Search.Single.{Sign, less, greater, same, unknown, sign_of}

-- A line has the numbers of its process and of the parent of that; `print_file_details` is the one of
-- lab3_processes/search_dir_mult_ps/utils.c, which prints them behind the details of a file.
pub data Event : Type 0 where
  child_process : (d_name : List ℕ) (ppid pid : ℕ) → Event
  details : Details → (ppid pid : ℕ) → Event

-- `stdout`: what has been written, and what the process still has in its buffer.
pub record Out : Type 0 where
  pub written : List Event
  pub buffered : List Event

-- A line goes out at once to a terminal, and else stays in the buffer, which is taken to be large enough.
abbrev pub print : Bool → Event → Out → Out
print line_buffered e o =
    if line_buffered
    then record o { written = o.written ++ e ∷ [] }
    else record o { buffered = o.buffered ++ e ∷ [] }

-- At the end of a process.
abbrev pub flush : Out → List Event
flush o = o.written ++ o.buffered

-- `fork` fails with a value of `cstat` that nothing has set.
pub data Fork : Type 0 where
  forked : Fork
  failed : (cstat : ℕ) → Fork

-- The parent after `waitpid`. The child began with a copy of the buffer; it returns 0 from all calls
-- and from `main`.
abbrev pub after_child : Fork → Out → ℕ × Out → Bool × Out
after_child forked o child = (true, record o { written = flush child.1 })
after_child (failed cstat) o child = (cstat == 0, o)

abbrev pub go_on : Bool × Out → (Out → ℕ × Out) → ℕ × Out
go_on (true, o) rest = rest o
go_on (false, o) rest = (2, o)

-- `pid_of` is the number of the process that searches a directory, `shell` that of the first parent.
pub record Setting : Type 0 where
  pub pid_of : List ℕ → ℕ
  pub shell : ℕ
  pub env : Env
  pub compare_func : List ℕ → List ℕ → ℕ
  pub date : List ℕ
  pub line_buffered : Bool
  pub fork : List ℕ → Fork

module _ (set : Setting) where
  open set use {pid_of, env, compare_func, date, line_buffered, fork}

  unfoldable mutual
    pub deep_search_files : ℕ → List ℕ → Folder → Out → ℕ × Out
    deep_search_files ppid dirname unreadable o = (1, o)
    deep_search_files ppid dirname (entries es) o = search_entries ppid dirname es o

    pub search_entries : ℕ → List ℕ → Entries → Out → ℕ × Out
    search_entries ppid dirname end o = (0, o)
    search_entries ppid dirname (entry e es) o =
        go_on (search_entry ppid dirname e o) (search_entries ppid dirname es)

    pub search_entry : ℕ → List ℕ → Entry → Out → Bool × Out
    search_entry ppid dirname (regular d_name st) o = (
      true,
      if passes env compare_func date st
          then print line_buffered
              (details (show env (join_path dirname d_name) st) ppid (pid_of dirname)) o
          else o,
    )
    search_entry ppid dirname (directory d_name f) o =
        let path = join_path dirname d_name in
        let child =
          deep_search_files (pid_of dirname) path f
            (print line_buffered (child_process d_name (pid_of dirname) (pid_of path)) o) in
        if is_dots d_name then (true, o) else after_child (fork path) o child
    search_entry ppid dirname (special d_name) o = (true, o)

abbrev pub search_by : Setting → (List ℕ → Folder) → List ℕ → Sign → ℕ × Out
search_by set root dirname less =
    deep_search_files (record set { compare_func = less_than }) set.shell dirname (root dirname)
      (record { written = []; buffered = [] })
search_by set root dirname greater =
    deep_search_files (record set { compare_func = greater_than }) set.shell dirname (root dirname)
      (record { written = []; buffered = [] })
search_by set root dirname same =
    deep_search_files (record set { compare_func = equal }) set.shell dirname (root dirname)
      (record { written = []; buffered = [] })
search_by set root dirname unknown = (4, record { written = []; buffered = [] })

-- `main`, with all that has been written when it ends.
unfoldable pub main_proc : Setting → (List ℕ → Folder) → List (List ℕ) → ℕ × List Event
main_proc set root (program ∷ dirname ∷ (c ∷ []) ∷ date ∷ []) =
    let r = search_by (record set { date = date }) root dirname (sign_of c) in
    if validate_date date == 0 then (r.0, flush r.1) else (3, [])
main_proc set root (program ∷ dirname ∷ sign ∷ date ∷ []) = (2, [])
main_proc set root argv = (1, [])
