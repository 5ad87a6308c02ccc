-- ===== src/Monitor/Overtaken.antt =====
-- A run of one producer and two consumers over two cells, in which the second consumer gets round the array
-- before the first has emptied its cell.
use op_sys.Common.{ℕ, zero, suc, ◌≡◌, ◌≢◌, List, [], ◌∷◌, refl, arith}
use op_sys.Buffer.{empty, full}
use op_sys.Monitor.{
  finished, read, end_of_file, enter, claim, lock, allocate, copy, announce, unlock, leave,
  see_empty, stop, pick, release, take_line, System, Step, created, Steps, here, later, produces,
  consumes, join, broadcast,
}

full-filled : (l : List ℕ) → full l ≢ empty
full-filled l e = ground (arith, e)

module _ (x y z : List ℕ) where
  abbrev Run : Type 0
  Run = (s : System) × Steps 2 (created 1 2 (x ∷ y ∷ z ∷ [])) s

  abbrev step : (r : Run) {t : System} → Step 2 r.0 t → Run
  step r {t} st = (t, later r.1 st)

  abbrev start : Run
  start = (_, here)

  abbrev both_stored : Run
  both_stored =
      let r0 = step start (produces 0 (read refl)) in
      let r1 = step r0 (produces 0 (enter refl)) in
      let r2 = step r1 (produces 0 (claim refl)) in
      let r3 = step r2 (produces 0 (lock refl)) in
      let r4 = step r3 (produces 0 allocate) in
      let r5 = step r4 (produces 0 copy) in
      let r6 = step r5 (produces 0 announce) in
      let r7 = step r6 (produces 0 unlock) in
      let r8 = step r7 (produces 0 leave) in
      let r9 = step r8 (produces 0 (read refl)) in
      let r10 = step r9 (produces 0 (enter refl)) in
      let r11 = step r10 (produces 0 (claim refl)) in
      let r12 = step r11 (produces 0 (lock refl)) in
      let r13 = step r12 (produces 0 allocate) in
      let r14 = step r13 (produces 0 copy) in
      let r15 = step r14 (produces 0 announce) in
      let r16 = step r15 (produces 0 unlock) in step r16 (produces 0 leave)

  abbrev first_held : Run
  first_held =
      let r0 = step both_stored (consumes 0 (enter refl)) in
      let r1 = step r0 (consumes 0 (pick (full-filled x))) in
      let r2 = step r1 (consumes 0 (lock refl)) in step r2 (consumes 0 release)

  abbrev second_taken : Run
  second_taken =
      let r0 = step first_held (consumes 1 (enter refl)) in
      let r1 = step r0 (consumes 1 (pick (full-filled y))) in
      let r2 = step r1 (consumes 1 (lock refl)) in
      let r3 = step r2 (consumes 1 release) in
      let r4 = step r3 (consumes 1 take_line) in
      let r5 = step r4 (consumes 1 announce) in step r5 (consumes 1 unlock)

  abbrev overtaken : Run
  overtaken =
      let r0 = step second_taken (consumes 1 (enter refl)) in
      let r1 = step r0 (consumes 1 (pick (full-filled x))) in
      let r2 = step r1 (consumes 0 take_line) in
      let r3 = step r2 (consumes 0 announce) in
      let r4 = step r3 (consumes 0 unlock) in
      let r5 = step r4 (consumes 1 (lock refl)) in
      let r6 = step r5 (consumes 1 release) in
      let r7 = step r6 (consumes 1 take_line) in
      let r8 = step r7 (consumes 1 announce) in step r8 (consumes 1 unlock)

  abbrev last_stored : Run
  last_stored =
      let r0 = step overtaken (produces 0 (read refl)) in
      let r1 = step r0 (produces 0 (enter refl)) in
      let r2 = step r1 (produces 0 (claim refl)) in
      let r3 = step r2 (produces 0 (lock refl)) in
      let r4 = step r3 (produces 0 allocate) in
      let r5 = step r4 (produces 0 copy) in
      let r6 = step r5 (produces 0 announce) in
      let r7 = step r6 (produces 0 unlock) in
      let r8 = step r7 (produces 0 leave) in step r8 (produces 0 (end_of_file refl))

  all_read : (a : ℕ) → last_stored.0.producers a ≡ finished
  all_read zero = refl
  all_read (suc a) = ground arith

  abbrev all_ended : Run
  all_ended =
      let r0 = step last_stored (join refl all_read) in
      let r1 = step r0 (broadcast refl) in
      let r2 = step r1 (consumes 0 (enter refl)) in
      let r3 = step r2 (consumes 0 (see_empty refl)) in
      let r4 = step r3 (consumes 0 (stop refl)) in
      let r5 = step r4 (consumes 1 (enter refl)) in
      let r6 = step r5 (consumes 1 (see_empty refl)) in step r6 (consumes 1 (stop refl))

  all_stop : (b : ℕ) → all_ended.0.consumers b ≡ finished
  all_stop zero = refl
  all_stop (suc zero) = refl
  all_stop (suc (suc b)) = ground arith

-- For any three lines, two cells, one producer and two consumers: all threads can end with the third line
-- still in its cell; the consumers took the second line, the first, and NULL.
pub line_lost :
    (x y z : List ℕ)
    → (s : System) × Steps 2 (created 1 2 (x ∷ y ∷ z ∷ [])) s
      × ((b : ℕ) → s.consumers b ≡ finished)
      × (s.taken ≡ full y ∷ full x ∷ empty ∷ [])
      × (s.cells 0 ≡ full z)
line_lost x y z = (_, (all_ended x y z).1, all_stop x y z, refl, refl)
