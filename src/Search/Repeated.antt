-- ===== src/Search/Repeated.antt =====
-- What happens to the lines in the buffer of the search in several processes.
use mathlib.Core.List.{append-nil, append_assoc}
use op_sys.Common.{
  ℕ, ◌≡◌, refl, ap, sym, ◌∙◌, Bool, true, false, List, [], ◌∷◌, ◌++◌, inl, inr, Bool-cases,
}
use op_sys.Search.{
  Entry, regular, directory, special, Folder, unreadable, entries, Entries, end, entry, join_path,
  is_dots, passes, show,
}
use op_sys.Search.Processes.{
  Event, child_process, details, Out, print, flush, Fork, forked, failed, after_child, go_on,
  Setting, deep_search_files, search_entries, search_entry,
}

-- Nothing of the output is lost.
record Grows (o o' : Out) : Type 0 where
  more_written : List Event
  more_buffered : List Event
  written_grown : o'.written ≡ o.written ++ more_written
  buffered_grown : o'.buffered ≡ o.buffered ++ more_buffered

Grows-refl : (o : Out) → Grows o o
Grows-refl o = record {
  more_written = [];
  more_buffered = [];
  written_grown = sym (append-nil o.written);
  buffered_grown = sym (append-nil o.buffered);
}

Grows-trans : (o o' o'' : Out) → Grows o o' → Grows o' o'' → Grows o o''
Grows-trans o o' o'' g h = record {
  more_written = g.more_written ++ h.more_written;
  more_buffered = g.more_buffered ++ h.more_buffered;
  written_grown =
      h.written_grown
      ∙ ap (λ l. l ++ h.more_written) g.written_grown
      ∙ append_assoc o.written g.more_written h.more_written;
  buffered_grown =
      h.buffered_grown
      ∙ ap (λ l. l ++ h.more_buffered) g.buffered_grown
      ∙ append_assoc o.buffered g.more_buffered h.more_buffered;
}

print-Grows : (lines : Bool) (x : Event) (o : Out) → Grows o (print lines x o)
print-Grows true x o = record {
  more_written = x ∷ [];
  more_buffered = [];
  written_grown = refl;
  buffered_grown = sym (append-nil o.buffered);
}
print-Grows false x o = record {
  more_written = [];
  more_buffered = x ∷ [];
  written_grown = sym (append-nil o.written);
  buffered_grown = refl;
}

after_child-Grows :
    (k : Fork) (o : Out) (child : ℕ × Out) → Grows o child.1 → Grows o (after_child k o child).1
after_child-Grows forked o child g = record {
  more_written = g.more_written ++ child.1.buffered;
  more_buffered = [];
  written_grown =
      ap (λ l. l ++ child.1.buffered) g.written_grown
      ∙ append_assoc o.written g.more_written child.1.buffered;
  buffered_grown = sym (append-nil o.buffered);
}
after_child-Grows (failed cstat) o child g = Grows-refl o

go_on-Grows :
    (o : Out) (r : Bool × Out) (k : Out → ℕ × Out)
    → Grows o r.1
    → Grows r.1 (k r.1).1
    → Grows o (go_on r k).1
go_on-Grows o (true, o') k g h = Grows-trans o o' (k o').1 g h
go_on-Grows o (false, o') k g h = g

module _ (set : Setting) where
  mutual
    unfolding deep_search_files

    folder-Grows :
        (ppid : ℕ) (dirname : List ℕ) (f : Folder) (o : Out)
        → Grows o (deep_search_files set ppid dirname f o).1
    folder-Grows ppid dirname unreadable o = Grows-refl o
    folder-Grows ppid dirname (entries es) o = entries-Grows ppid dirname es o

    entries-Grows :
        (ppid : ℕ) (dirname : List ℕ) (es : Entries) (o : Out)
        → Grows o (search_entries set ppid dirname es o).1
    entries-Grows ppid dirname end o = Grows-refl o
    entries-Grows ppid dirname (entry x es) o =
        go_on-Grows o (search_entry set ppid dirname x o) (search_entries set ppid dirname es)
          (entry-Grows ppid dirname x o)
          (entries-Grows ppid dirname es (search_entry set ppid dirname x o).1)

    entry-Grows :
        (ppid : ℕ) (dirname : List ℕ) (x : Entry) (o : Out)
        → Grows o (search_entry set ppid dirname x o).1
    entry-Grows ppid dirname (regular d_name st) o =
        elim (Bool-cases (passes set.env set.compare_func set.date st)) [
          | inl p ↦ rw p (
              print-Grows set.line_buffered
                (details (show set.env (join_path dirname d_name) st) ppid (set.pid_of dirname)) o)
          | inr p ↦ rw p (Grows-refl o)
        ]
    entry-Grows ppid dirname (directory d_name f) o =
        let path = join_path dirname d_name in
        let start =
          print set.line_buffered (child_process d_name (set.pid_of dirname) (set.pid_of path)) o in
        elim (Bool-cases (is_dots d_name)) [
          | inl p ↦ rw p (Grows-refl o)
          | inr p ↦ rw p (
              after_child-Grows (set.fork path) o
                (deep_search_files set (set.pid_of dirname) path f start)
                (Grows-trans o start (deep_search_files set (set.pid_of dirname) path f start).1
                  (print-Grows set.line_buffered
                    (child_process d_name (set.pid_of dirname) (set.pid_of path)) o)
                  (folder-Grows (set.pid_of dirname) path f start)))
        ]
    entry-Grows ppid dirname (special d_name) o = Grows-refl o

  -- Whatever is in the buffer when a process is made for a directory is written once by that process,
  -- and once more at the end of its parent.
  pub buffer_repeated :
      (ppid : ℕ) (dirname d_name : List ℕ) (f : Folder) (es : Entries) (o : Out)
      → is_dots d_name ≡ false
      → set.fork (join_path dirname d_name) ≡ forked
      → (before between after : List Event) × (flush
            (search_entries set ppid dirname (entry (directory d_name f) es) o).1
          ≡ o.written ++ (before ++ (o.buffered ++ (between ++ (o.buffered ++ after)))))
  unfolding deep_search_files
  buffer_repeated ppid dirname d_name f es o p k = (
    g.more_written,
    g.more_buffered ++ h.more_written,
    h.more_buffered,
    rw (p, k)
        (rw (h.written_grown, h.buffered_grown, g.written_grown, g.buffered_grown)
          (simp append_assoc)),
  )
    where
      path : List ℕ
      path = join_path dirname d_name

      start : Out
      start =
          print set.line_buffered (child_process d_name (set.pid_of dirname) (set.pid_of path)) o

      g : Grows o (deep_search_files set (set.pid_of dirname) path f start).1
      g =
          Grows-trans o start (deep_search_files set (set.pid_of dirname) path f start).1
            (print-Grows set.line_buffered
              (child_process d_name (set.pid_of dirname) (set.pid_of path)) o)
            (folder-Grows (set.pid_of dirname) path f start)

      resumed : Out
      resumed = record o {
        written = flush (deep_search_files set (set.pid_of dirname) path f start).1;
      }

      h : Grows resumed (search_entries set ppid dirname es resumed).1
      h = entries-Grows ppid dirname es resumed
