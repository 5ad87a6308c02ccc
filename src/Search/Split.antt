-- ===== src/Search/Split.antt =====
-- The search in several processes prints what the search in one process prints, on a terminal; into a
-- file it repeats lines.
use mathlib.Core.List.{append-nil, append_assoc}
use op_sys.Common.{
  ℕ, ◌≡◌, refl, ap, sym, ◌∙◌, Bool, true, false, List, [], ◌∷◌, ◌++◌, ◌==◌, inl, inr, Bool-cases,
}
use op_sys.Search.{
  Entry, regular, directory, special, Folder, unreadable, entries, Entries, end, entry, Details,
  join_path, is_dots, passes, show, validate_date, less_than, greater_than, equal,
}
use op_sys.Search.Single
use op_sys.Search.Single.{Sign, less, greater, same, unknown, sign_of, main_stat}
use op_sys.Search.Processes.{
  Event, child_process, details, Out, print, flush, forked, go_on, Setting, deep_search_files,
  search_entries, search_entry, search_by, main_proc,
}

-- The lines that are about files, less the numbers of processes at their ends.
abbrev pub found : List Event → List Details
found [] = []
found (child_process d_name ppid pid ∷ es) = found es
found (details d ppid pid ∷ es) = d ∷ found es

found-append : (xs ys : List Event) → found (xs ++ ys) ≡ found xs ++ found ys
found-append [] ys = refl
found-append (child_process d_name ppid pid ∷ xs) ys = found-append xs ys
found-append (details d ppid pid ∷ xs) ys = ap (λ r. d ∷ r) (found-append xs ys)

module _ (set : Setting) (to_terminal : set.line_buffered ≡ true)
    (forks : (path : List ℕ) → set.fork path ≡ forked) where
  -- What a call adds to the output.
  record Adds (o : Out) (ds : List Details) (o' : Out) : Type 0 where
    grown : found o'.written ≡ found o.written ++ ds
    empty_buffer : o'.buffered ≡ []

  Adds-nothing : (o : Out) → o.buffered ≡ [] → Adds o [] o
  Adds-nothing o e = record { grown = sym (append-nil (found o.written)); empty_buffer = e }

  Adds-append :
      (o o' o'' : Out) (ds ds' : List Details)
      → Adds o ds o'
      → Adds o' ds' o''
      → Adds o (ds ++ ds') o''
  Adds-append o o' o'' ds ds' h h' = record {
    grown = h'.grown ∙ ap (λ l. l ++ ds') h.grown ∙ append_assoc (found o.written) ds ds';
    empty_buffer = h'.empty_buffer;
  }

  -- A line goes out at once.
  print-Adds :
      (d : Details) (ppid pid : ℕ) (o : Out)
      → o.buffered ≡ []
      → Adds o (d ∷ []) (print set.line_buffered (details d ppid pid) o)
  print-Adds d ppid pid o e =
      rw to_terminal
        (record { grown = found-append o.written (details d ppid pid ∷ []); empty_buffer = e })

  -- The child's message is not about a file, and its buffer is empty at its end.
  child-Adds :
      (d_name : List ℕ) (ppid pid : ℕ) (o : Out) (child : ℕ × Out) (ds : List Details)
      → o.buffered ≡ []
      → Adds (print set.line_buffered (child_process d_name ppid pid) o) ds child.1
      → Adds o ds (record o { written = flush child.1 })
  child-Adds d_name ppid pid o child ds e h = record {
    grown =
        ap (λ b. found (child.1.written ++ b)) h.empty_buffer
        ∙ ap found (append-nil child.1.written)
        ∙ h.grown
        ∙ ap (λ l. l ++ ds) (message to_terminal);
    empty_buffer = e;
  }
    where
      message :
          set.line_buffered ≡ true
          → found (print set.line_buffered (child_process d_name ppid pid) o).written
            ≡ found o.written
      message t = rw t (
          found-append o.written (child_process d_name ppid pid ∷ [])
          ∙ append-nil (found o.written))

  print-empty :
      (x : Event) (o : Out) → o.buffered ≡ [] → (print set.line_buffered x o).buffered ≡ []
  print-empty x o e = rw to_terminal e

  go_on-true : (r : Bool × Out) (k : Out → ℕ × Out) → r.0 ≡ true → go_on r k ≡ k r.1
  go_on-true (true, o) k e = refl
  go_on-true (false, o) k e = cc

  abbrev one : List ℕ → Folder → ℕ × List Details
  one dirname f = Single.deep_search_files set.env set.compare_func set.date dirname f

  mutual
    unfolding deep_search_files Single.deep_search_files

    folder-Adds :
        (ppid : ℕ) (dirname : List ℕ) (f : Folder) (o : Out)
        → o.buffered ≡ []
        → ((deep_search_files set ppid dirname f o).0 ≡ (one dirname f).0)
          × Adds o (one dirname f).1 (deep_search_files set ppid dirname f o).1
    folder-Adds ppid dirname unreadable o e = (refl, Adds-nothing o e)
    folder-Adds ppid dirname (entries es) o e = entries-Adds ppid dirname es o e

    entries-Adds :
        (ppid : ℕ) (dirname : List ℕ) (es : Entries) (o : Out)
        → o.buffered ≡ []
        → ((search_entries set ppid dirname es o).0 ≡ 0)
          × Adds o
              (Single.search_entries set.env set.compare_func set.date dirname es)
              (search_entries set ppid dirname es o).1
    entries-Adds ppid dirname end o e = (refl, Adds-nothing o e)
    entries-Adds ppid dirname (entry x es) o e =
        let h = entry-Adds ppid dirname x o e in
        let o' = (search_entry set ppid dirname x o).1 in
        let h' = entries-Adds ppid dirname es o' h.1.empty_buffer in
        rw (go_on-true (search_entry set ppid dirname x o) (search_entries set ppid dirname es) h.0)
          (
            h'.0,
            Adds-append o o' (search_entries set ppid dirname es o').1
                (Single.search_entry set.env set.compare_func set.date dirname x)
                (Single.search_entries set.env set.compare_func set.date dirname es) h.1 h'.1,
          )

    entry-Adds :
        (ppid : ℕ) (dirname : List ℕ) (x : Entry) (o : Out)
        → o.buffered ≡ []
        → ((search_entry set ppid dirname x o).0 ≡ true)
          × Adds o
              (Single.search_entry set.env set.compare_func set.date dirname x)
              (search_entry set ppid dirname x o).1
    entry-Adds ppid dirname (regular d_name st) o e =
        elim (Bool-cases (passes set.env set.compare_func set.date st)) [
          | inl p ↦ rw p (
            refl,
            print-Adds (show set.env (join_path dirname d_name) st) ppid (set.pid_of dirname) o e,
          )
          | inr p ↦ rw p (refl, Adds-nothing o e)
        ]
    entry-Adds ppid dirname (directory d_name f) o e =
        let path = join_path dirname d_name in
        let start =
          print set.line_buffered (child_process d_name (set.pid_of dirname) (set.pid_of path)) o in
        let h =
          folder-Adds (set.pid_of dirname) path f start
            (print-empty (child_process d_name (set.pid_of dirname) (set.pid_of path)) o e) in
        elim (Bool-cases (is_dots d_name)) [
          | inl p ↦ rw p (refl, Adds-nothing o e)
          | inr p ↦
              rw (p, forks path)
                (
                  refl,
                  child-Adds d_name (set.pid_of dirname) (set.pid_of path) o
                      (deep_search_files set (set.pid_of dirname) path f start) (one path f).1 e
                      h.1,
                )
        ]
    entry-Adds ppid dirname (special d_name) o e = (refl, Adds-nothing o e)

  pub whole_search :
      (ppid : ℕ) (dirname : List ℕ) (f : Folder)
      → let r = deep_search_files set ppid dirname f (record { written = []; buffered = [] }) in
        (r.0 ≡ (one dirname f).0) × (found (flush r.1) ≡ (one dirname f).1)
  whole_search ppid dirname f =
      let start : Out = record { written = []; buffered = [] } in
      let h = folder-Adds ppid dirname f start refl in
      let o = (deep_search_files set ppid dirname f start).1 in
      (
        h.0,
        ap (λ b. found (o.written ++ b)) h.1.empty_buffer
            ∙ ap found (append-nil o.written)
            ∙ h.1.grown,
      )

module _ (set : Setting) (to_terminal : set.line_buffered ≡ true)
    (forks : (path : List ℕ) → set.fork path ≡ forked) where
  same_search :
      (date : List ℕ) (root : List ℕ → Folder) (dirname : List ℕ) (sign : Sign)
      → let r = search_by (record set { date = date }) root dirname sign in
        let r' = Single.search_by set.env root dirname date sign in
        (r.0 ≡ r'.0) × (found (flush r.1) ≡ r'.1)
  same_search date root dirname less =
      whole_search (record set { date = date; compare_func = less_than }) to_terminal forks
        set.shell dirname (root dirname)
  same_search date root dirname greater =
      whole_search (record set { date = date; compare_func = greater_than }) to_terminal forks
        set.shell dirname (root dirname)
  same_search date root dirname same =
      whole_search (record set { date = date; compare_func = equal }) to_terminal forks set.shell
        dirname (root dirname)
  same_search date root dirname unknown = (refl, refl)

  -- On a terminal, and where each `fork` succeeds: the program with a process for each directory ends
  -- with the same code and prints the same lines about files, in the same order, as that of one process, but
  -- for the numbers of the processes at the ends of the lines.
  pub main_proc-main_stat :
      (root : List ℕ → Folder) (argv : List (List ℕ))
      → ((main_proc set root argv).0 ≡ (main_stat set.env root argv).0)
        × (found (main_proc set root argv).1 ≡ (main_stat set.env root argv).1)
  unfolding main_proc main_stat
  main_proc-main_stat root (program ∷ dirname ∷ (c ∷ []) ∷ date ∷ []) =
      elim (Bool-cases (validate_date date == 0)) [
        | inl ok ↦ rw ok (same_search date root dirname (sign_of c))
        | inr bad ↦ rw bad (refl, refl)
      ]
  main_proc-main_stat root [] = (refl, refl)
  main_proc-main_stat root (a ∷ []) = (refl, refl)
  main_proc-main_stat root (a ∷ b ∷ []) = (refl, refl)
  main_proc-main_stat root (a ∷ b ∷ [] ∷ []) = (refl, refl)
  main_proc-main_stat root (a ∷ b ∷ (c ∷ []) ∷ []) = (refl, refl)
  main_proc-main_stat root (a ∷ b ∷ (c ∷ d ∷ s) ∷ []) = (refl, refl)
  main_proc-main_stat root (a ∷ b ∷ [] ∷ date ∷ []) = (refl, refl)
  main_proc-main_stat root (a ∷ b ∷ (c ∷ d ∷ s) ∷ date ∷ []) = (refl, refl)
  main_proc-main_stat root (a ∷ b ∷ [] ∷ date ∷ x ∷ r) = (refl, refl)
  main_proc-main_stat root (a ∷ b ∷ (c ∷ []) ∷ date ∷ x ∷ r) = (refl, refl)
  main_proc-main_stat root (a ∷ b ∷ (c ∷ d ∷ s) ∷ date ∷ x ∷ r) = (refl, refl)
