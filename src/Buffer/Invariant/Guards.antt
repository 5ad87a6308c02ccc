-- ===== src/Buffer/Invariant/Guards.antt =====
-- The condition of a step, for clauses that do not name the step.
use op_sys.Common.{ℕ, suc, ◌+◌, ◌≡◌, ◌≢◌, Bool}
use op_sys.Buffer.{empty, Shared, Pc, Move, enter, claim, lock, wait, see_empty, pick, grab}

module _ {n : ℕ} {full_info : Bool} where
  abbrev pub Guard : {m m' : Shared} {p p' : Pc} → Move n full_info m p m' p' → Type 0
  Guard {m} (enter v _) = m.sems n ≡ suc v
  Guard {m} (claim v _) = m.sems (n + 2) ≡ suc v
  Guard {m} (lock {i} v _) = m.sems i ≡ suc v
  Guard {m} (wait v _) = m.sems (n + 1) ≡ suc v
  Guard {m} (see_empty _) = m.cells m.curr_cons ≡ empty
  Guard {m} (pick _) = m.cells m.curr_cons ≢ empty
  Guard {m} (grab {i} v _) = m.sems i ≡ suc v
  Guard _ = Unit

  pub guard : {m m' : Shared} {p p' : Pc} (mv : Move n full_info m p m' p') → Guard mv
  guard (enter v g) = g
  guard (claim v g) = g
  guard (lock v g) = g
  guard (wait v g) = g
  guard (see_empty g) = g
  guard (pick g) = g
  guard (grab v g) = g
  guard _ = tt
