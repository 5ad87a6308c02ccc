-- ===== src/Buffer/System.antt =====
-- Producers and consumers over one array, interleaved in any order, and the thread of `main`, which joins
-- the producers and then sets `done_producing`.
use op_sys.Common.{ℕ, ◌+◌, ◌≡◌, Bool, true, false, List, [], ◌==◌, ltb, if◌then◌else◌}
use op_sys.Buffer.{
  empty, update, Shared, Pc, reading, outside, finished, Move, Role, producer, consumer,
}

pub record System : Type 0 where
  pub mem : Shared
  pub pc : ℕ → Pc

abbrev pub begins : Role → Pc
begins producer = reading
begins consumer = outside

-- `create_threads`: first the P producers.
abbrev pub roles : ℕ → ℕ → Role
roles prods a = if ltb a prods then producer else consumer

-- `set_up`: the cells are NULL, each semaphore is 1, but the one of the free cells is `n`.
abbrev pub set_up : ℕ → List (List ℕ) → Shared
set_up n file = record {
  cells = λ _. empty;
  curr_prod = 0;
  curr_cons = 0;
  sems = λ s. if s == n + 2 then n else 1;
  file = file;
  done_producing = false;
  claims = [];
  picks = 0;
  taken = [];
  freed = 0;
}

pub data Step (n : ℕ) (full_info : Bool) (role : ℕ → Role) (s : System) : System → Type 0 where
  move :
      (a : ℕ) {m : Shared} {p : Pc}
      → Move n full_info s.mem (s.pc a) m p
      → Step n full_info role s (record { mem = m; pc = update s.pc a p })
  join :
      ((a : ℕ) → role a ≡ producer → s.pc a ≡ finished)
      → Step n full_info role s (record s { mem = record s.mem { done_producing = true } })

pub data Reach (n : ℕ) (full_info : Bool) (role : ℕ → Role) (file : List (List ℕ))
    : System → Type 0 where
  created : Reach n full_info role file (record { mem = set_up n file; pc = λ a. begins (role a) })
  later :
      {s t : System}
      → Reach n full_info role file s
      → Step n full_info role s t
      → Reach n full_info role file t
