-- ===== src/Buffer/Invariant.antt =====
-- What holds between the steps: who holds which semaphore, and where each claimed line is.
pub mod Guards
pub mod Locking
pub mod Counting
pub mod Facts
pub mod Window
pub mod Moving
pub mod Placing
pub mod Kept
use op_sys.Common.{
  ℕ, suc, ◌+◌, ◌%◌, ◌≤◌, ◌<◌, ◌≡◌, ◌≢◌, ◌⊎◌, Bool, true, false, ◌||◌, Option, none, some, List, [],
  ◌==◌, length, get_or, take, map,
}
use op_sys.Buffer.{
  Cell, empty, raw, full, Shared, Pc, inside, claiming, locked, writing, copying, checking, picking,
  holding, took, counted, leaving,
}

-- Between a `sem_wait` on the semaphore `s` and the `sem_post` that gives it back.
abbrev pub holds : ℕ → Pc → ℕ → Bool
holds n (inside l) s = s == n
holds n (claiming i k l) s = s == n
holds n (locked i k l) s = (s == n) || (s == i)
holds n (writing i k l) s = s == i
holds n (copying i k l) s = s == i
holds n checking s = s == n + 1
holds n (picking i k) s = s == n + 1
holds n (holding i k) s = (s == n + 1) || (s == i)
holds n (took i k) s = (s == n + 1) || (s == i)
holds n (counted i k) s = (s == n + 1) || (s == i)
holds n (leaving i k) s = s == i
holds n _ s = false

-- The index that a thread has is one of a cell.
abbrev pub InCells : ℕ → Pc → Type 0
InCells n (claiming i k l) = i < n
InCells n (locked i k l) = i < n
InCells n (writing i k l) = i < n
InCells n (copying i k l) = i < n
InCells n (picking i k) = i < n
InCells n (holding i k) = i < n
InCells n (took i k) = i < n
InCells n (counted i k) = i < n
InCells n (leaving i k) = i < n
InCells n _ = Unit

-- Each semaphore but the one of the free cells is a lock.
pub record Locks (n : ℕ) (sems : ℕ → ℕ) (pc : ℕ → Pc) : Type 0 where
  pub in_cells : (a : ℕ) → InCells n (pc a)
  pub binary : (s : ℕ) → s ≤ n + 1 → sems s ≤ 1
  pub held : (a s : ℕ) → holds n (pc a) s ≡ true → sems s ≡ 0
  pub unique : (a b s : ℕ) → holds n (pc a) s ≡ true → holds n (pc b) s ≡ true → a ≡ b

-- The number of the claim that a producer works for.
abbrev pub ticket : Pc → Option ℕ
ticket (claiming i k l) = some k
ticket (locked i k l) = some k
ticket (writing i k l) = some k
ticket (copying i k l) = some k
ticket _ = none

-- A claim that is not taken yet, and its cell; `t` lines have been taken.
abbrev pub Pending : ℕ → (ℕ → Cell) → List (List ℕ) → ℕ → ℕ → ℕ → List ℕ → Cell → Type 0
Pending n cells claims t i k l c =
    (i ≡ k % n) × (t ≤ k) × (k < length claims) × (get_or claims k [] ≡ l) × (cells i ≡ c)

-- The cell that was picked, and is not taken yet.
abbrev pub Picked : ℕ → List (List ℕ) → ℕ → ℕ → ℕ → ℕ → ℕ → Type 0
Picked n claims picks t freed i k =
    (i ≡ k % n) × (picks ≡ suc k) × (t ≡ k) × (freed ≡ k) × (k < length claims)

-- What a thread knows of the parts of the shared memory that its place depends on.
abbrev pub Knows : ℕ → (ℕ → Cell) → List (List ℕ) → ℕ → ℕ → ℕ → Pc → Type 0
Knows n cells claims picks t freed (claiming i k l) = Pending n cells claims t i k l empty
Knows n cells claims picks t freed (locked i k l) = Pending n cells claims t i k l empty
Knows n cells claims picks t freed (writing i k l) = Pending n cells claims t i k l empty
Knows n cells claims picks t freed (copying i k l) = Pending n cells claims t i k l raw
Knows n cells claims picks t freed checking = (picks ≡ t) × (freed ≡ t)
Knows n cells claims picks t freed (picking i k) =
    Picked n claims picks t freed i k × (cells i ≢ empty)
Knows n cells claims picks t freed (holding i k) =
    Picked n claims picks t freed i k × (cells i ≡ full (get_or claims k []))
Knows n cells claims picks t freed (took i k) = (picks ≡ t) × (t ≡ suc freed)
Knows n cells claims picks t freed (counted i k) = (picks ≡ t) × (freed ≡ t)
Knows n cells claims picks t freed _ = Unit

abbrev pub Fact : ℕ → Shared → Pc → Type 0
Fact n m p = Knows n m.cells m.claims m.picks (length m.taken) m.freed p

-- All that was picked has been taken and counted.
abbrev pub AllEven : Shared → Type 0
AllEven m = (m.picks ≡ length m.taken) × (m.freed ≡ length m.taken)

pub record Counts (n : ℕ) (m : Shared) : Type 0 where
  pub prod_at : m.curr_prod ≡ length m.claims % n
  pub cons_at : m.curr_cons ≡ m.picks % n
  pub free_cells : m.sems (n + 2) + length m.claims ≡ n + m.freed
  pub behind : m.freed ≤ length m.taken
  pub taken_claims : length m.taken ≤ length m.claims
  pub quiet : m.sems (n + 1) ≢ 0 → AllEven m
  pub in_order : m.taken ≡ map full (take (length m.taken) m.claims)

pub record Places (n : ℕ) (m : Shared) (pc : ℕ → Pc) : Type 0 where
  pub fact : (a : ℕ) → Fact n m (pc a)
  pub one_ticket : (a b k : ℕ) → ticket (pc a) ≡ some k → ticket (pc b) ≡ some k → a ≡ b
  pub pending :
      (k : ℕ)
      → length m.taken ≤ k
      → k < length m.claims
      → (m.cells (k % n) ≡ full (get_or m.claims k [])) ⊎ ((a : ℕ) × (ticket (pc a) ≡ some k))
  pub unused : (k : ℕ) → length m.claims ≤ k → k < length m.taken + n → m.cells (k % n) ≡ empty

pub record Inv (n : ℕ) (m : Shared) (pc : ℕ → Pc) : Type 0 where
  pub locks : Locks n m.sems pc
  pub counts : Counts n m
  pub places : Places n m pc
