-- ===== src/Buffer/Tests.antt =====
-- One producer, one cell and two lines: the producer stores the first line, the consumer takes it, the
-- producer stores the second line and finishes.
use op_sys.Common.{
  ℕ, zero, suc, ◌+◌, ◌<◌, ◌≤◌, ◌≡◌, ◌≢◌, refl, Bool, false, List, [], ◌∷◌, ◌++◌, map, arith, length,
  take, pos, negsuc,
}
use op_sys.Buffer.{
  empty, full, found_len, finished, read, end_of_file, enter, claim, lock, leave, allocate, copy,
  wait, see_empty, retry, pick, grab, take_line, post_free, post_cons, post_cell,
}
use op_sys.Buffer.System.{System, Step, move, join, Reach, created, later, roles}
use op_sys.Buffer.Invariant.{holds}
use op_sys.Buffer.Accounted.{number}
use op_sys.Buffer.Safety.{taken_in_order, one_holder, waiting_cells, all_lines}

abbrev lines : List (List ℕ)
lines = (b'o' ∷ b'n' ∷ []) ∷ (b't' ∷ b'w' ∷ b'o' ∷ []) ∷ []

abbrev Run : Type 0
Run = (s : System) × Reach 1 false (roles 1) lines s

abbrev start : Run
start = (_, created)

abbrev then : (r : Run) {t : System} → Step 1 false (roles 1) r.0 t → Run
then r {t} st = (t, later r.1 st)

-- The producer is about to store the first line, while the consumer looks at the cell.
abbrev stores_one : Run
stores_one =
    then
      (then
        (then
          (then (then (then start (move 0 (read refl))) (move 0 (enter 0 refl)))
            (move 0 (claim 0 refl)))
          (move 0 (lock 0 refl)))
        (move 0 leave))
      (move 1 (wait 0 refl))

full-filled : (l : List ℕ) → full l ≢ empty
full-filled l e = ground (arith, e)

-- The consumer has found the cell empty and holds it afterwards, with the line in it.
abbrev holds_one : Run
holds_one =
    let looked = then stores_one (move 1 (see_empty refl)) in
    let copied = then (then looked (move 0 allocate)) (move 0 copy) in
    let again = then (then copied (move 1 (retry refl))) (move 1 (wait 0 refl)) in
    then (then again (move 1 (pick (full-filled (b'o' ∷ b'n' ∷ []))))) (move 1 (grab 0 refl))

abbrev takes_one : Run
takes_one =
    then (then (then (then holds_one (move 1 take_line)) (move 1 post_free)) (move 1 post_cons))
      (move 1 post_cell)

-- The producer has stored the second line and finished, and `main` has noticed.
abbrev two_stored : Run
two_stored =
    let claimed =
      then (then (then takes_one (move 0 (read refl))) (move 0 (enter 0 refl)))
        (move 0 (claim 0 refl)) in
    let written =
      then (then (then (then claimed (move 0 (lock 0 refl))) (move 0 leave)) (move 0 allocate))
        (move 0 copy) in
    then written (move 0 (end_of_file refl))

two_stored-done : (a : ℕ) → a < 1 → two_stored.0.pc a ≡ finished
two_stored-done zero h = refl
two_stored-done (suc a) h = absurd (omega arith)

joined : Run
joined = then two_stored (join (λ a e. two_stored-done a (ground (arith, e))))

-- Shorter than three characters.
abbrev is_short : List ℕ → Bool
is_short l = found_len (negsuc 0) (pos 3) (pos (length l))

found_short : number is_short lines ≡ 1
found_short = refl

taken_in_order_example :
    (two_stored.0.mem.taken ≡ map full (take 1 two_stored.0.mem.claims))
    × (1 ≤ length two_stored.0.mem.claims)
    × (length two_stored.0.mem.claims ≤ 1 + 1)
taken_in_order_example = taken_in_order (omega arith) two_stored.1

one_holder_example : holds 1 (holds_one.0.pc 0) 0 ≡ false
one_holder_example = one_holder (omega arith) holds_one.1 1 0 0 (omega arith) refl

all_lines_example :
    (number is_short two_stored.0.mem.claims ≡ number is_short lines)
    × (two_stored.0.mem.taken ++ waiting_cells 1 two_stored.0.mem.cells 1 1
        ≡ map full two_stored.0.mem.claims)
all_lines_example = all_lines (omega arith) (omega arith) two_stored.1 two_stored-done is_short
