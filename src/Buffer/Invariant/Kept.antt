-- ===== src/Buffer/Invariant/Kept.antt =====
-- The invariant holds in every state that can be reached.
use native.Mathlib.Nat.{mod-lt}
use op_sys.Common.{ℕ, ◌<◌, ◌≡◌, ◌≢◌, some, refl, Bool, true, false, List, arith, length}
use op_sys.Buffer.{Pc, Role, producer, consumer, update, Shared, Move}
use op_sys.Buffer.System.{System, begins, set_up, move, join, Reach, created, later}
use op_sys.Buffer.Invariant.{holds, InCells, ticket, Fact, Inv}
use op_sys.Buffer.Invariant.Locking.{Move-Locks}
use op_sys.Buffer.Invariant.Counting.{Move-Counts}
use op_sys.Buffer.Invariant.Placing.{Move-Places}

-- The first places.
module _ (n : ℕ) (file : List (List ℕ)) (some_cell : 0 < n) where
  begins-InCells : (r : Role) → InCells n (begins r)
  begins-InCells producer = tt
  begins-InCells consumer = tt

  begins-holds : (r : Role) (s : ℕ) → holds n (begins r) s ≡ false
  begins-holds producer s = refl
  begins-holds consumer s = refl

  begins-Fact : (r : Role) → Fact n (set_up n file) (begins r)
  begins-Fact producer = tt
  begins-Fact consumer = tt

  begins-ticket : (r : Role) (k : ℕ) → ticket (begins r) ≢ some k
  begins-ticket producer k e = ground arith
  begins-ticket consumer k e = ground arith

  set_up-Inv : (role : ℕ → Role) → Inv n (set_up n file) (λ a. begins (role a))
  set_up-Inv role = record {
    locks = record {
      in_cells = λ a. begins-InCells (role a);
      binary = λ s h. ground arith;
      held = λ a s h. absurd (ground (arith, h, begins-holds (role a) s));
      unique = λ a b s h. absurd (ground (arith, h, begins-holds (role a) s));
    };
    counts = record {
      prod_at = ground arith;
      cons_at = ground arith;
      free_cells = ground arith;
      behind = ground arith;
      taken_claims = ground arith;
      quiet = λ h. (refl, refl);
      in_order = refl;
    };
    places = record {
      fact = λ a. begins-Fact (role a);
      one_ticket = λ a b k h. absurd (begins-ticket (role a) k h);
      pending = λ k h h'. absurd (ground arith);
      unused = λ k h h'. refl;
    };
  }

module _ {n : ℕ} {m : Shared} {pc : ℕ → Pc} where
  pub Move-Inv :
      {full_info : Bool} {p : Pc} {m' : Shared} (a : ℕ)
      → 0 < n
      → Inv n m pc
      → Move n full_info m (pc a) m' p
      → Inv n m' (update pc a p)
  Move-Inv a some_cell inv mv = record {
    locks =
        Move-Locks m inv.locks a mv
          (omega (arith, inv.counts.prod_at, mod-lt (length m.claims) some_cell))
          (omega (arith, inv.counts.cons_at, mod-lt m.picks some_cell));
    counts = Move-Counts m inv.locks inv.counts a mv (inv.places.fact a);
    places = Move-Places m inv.locks inv.counts inv.places a some_cell mv;
  }

  -- `main` changes nothing that the invariant is about.
  join-Inv : Inv n m pc → Inv n (record m { done_producing = true }) pc
  join-Inv inv = record {
    locks = inv.locks;
    counts = record {
      prod_at = inv.counts.prod_at;
      cons_at = inv.counts.cons_at;
      free_cells = inv.counts.free_cells;
      behind = inv.counts.behind;
      taken_claims = inv.counts.taken_claims;
      quiet = inv.counts.quiet;
      in_order = inv.counts.in_order;
    };
    places = record {
      fact = inv.places.fact;
      one_ticket = inv.places.one_ticket;
      pending = inv.places.pending;
      unused = inv.places.unused;
    };
  }

pub Reach-Inv :
    {n : ℕ} {full_info : Bool} {role : ℕ → Role} {file : List (List ℕ)} {s : System}
    → 0 < n
    → Reach n full_info role file s
    → Inv n s.mem s.pc
Reach-Inv {n} {role} {file} some_cell created = set_up-Inv n file some_cell role
Reach-Inv some_cell (later r (move a mv)) = Move-Inv a some_cell (Reach-Inv some_cell r) mv
Reach-Inv some_cell (later r (join done)) = join-Inv (Reach-Inv some_cell r)
