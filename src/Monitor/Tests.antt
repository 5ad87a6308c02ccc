-- ===== src/Monitor/Tests.antt =====
-- The run of three lines over two cells.
use op_sys.Common.{ℕ, ◌+◌, ◌≡◌, List, [], ◌∷◌, Bool, arith, ◌==◌, length}
use op_sys.Buffer.{empty, full}
use op_sys.Buffer.Accounted.{number}
use op_sys.Monitor.{System, finished, created, Steps}
use op_sys.Monitor.Summed.{worths, filled}
use op_sys.Monitor.Kept.{lines_kept}
use op_sys.Monitor.Overtaken.{line_lost}

abbrev is_two : List ℕ → Bool
is_two l = length l == 2

abbrev lost : System
lost = (line_lost (1 ∷ 2 ∷ []) (3 ∷ []) (4 ∷ 5 ∷ [])).0

lines_kept_example :
    number is_two lost.stored ≡ worths is_two lost.taken + filled is_two lost.cells 2
lines_kept_example =
    lines_kept 1 2 ((1 ∷ 2 ∷ []) ∷ (3 ∷ []) ∷ (4 ∷ 5 ∷ []) ∷ []) is_two (omega arith)
      (line_lost (1 ∷ 2 ∷ []) (3 ∷ []) (4 ∷ 5 ∷ [])).1

line_lost_example :
    (s : System) × Steps 2 (created 1 2 ((1 ∷ []) ∷ (2 ∷ []) ∷ (3 ∷ []) ∷ [])) s
    × ((b : ℕ) → s.consumers b ≡ finished)
    × (s.taken ≡ full (2 ∷ []) ∷ full (1 ∷ []) ∷ empty ∷ [])
    × (s.cells 0 ≡ full (3 ∷ []))
line_lost_example = line_lost (1 ∷ []) (2 ∷ []) (3 ∷ [])
