-- ===== src/Buffer/Invariant/Locking.antt =====
-- No step lets two threads hold one semaphore.
use op_sys.Common.{ℕ, ◌+◌, ◌≤◌, ◌<◌, ◌≡◌, refl, Bool, true, arith}
use op_sys.Buffer.{inside, update, Shared, Pc, Move, read}
use op_sys.Buffer.Invariant.{holds, InCells, Locks}
use op_sys.Buffer.Invariant.Guards.{guard}

holds-bound : (n : ℕ) (p : Pc) (s : ℕ) → InCells n p → holds n p s ≡ true → s ≤ n + 1
holds-bound n (inside l) s h q = ground arith
holds-bound n p s h q = ground arith

module _ {n : ℕ} (m : Shared) {pc : ℕ → Pc} (inv : Locks n m.sems pc) (a : ℕ) where
  open inv use {in_cells, binary, held, unique}

  bound : (b s : ℕ) → holds n (pc b) s ≡ true → s ≤ n + 1
  bound b s q = holds-bound n (pc b) s (in_cells b) q

  -- `p` is where thread `a` stands.
  record Mover (p : Pc) : Type 0 where
    here : pc a ≡ p
    own : InCells n p

  Move-binary :
      {full_info : Bool} {p p' : Pc} {m' : Shared}
      → Move n full_info m p m' p'
      → Mover p
      → (s : ℕ) → s ≤ n + 1
      → m'.sems s ≤ 1
  Move-binary (read g) f s h = binary s h
  Move-binary mv f s h = ground (arith, guard mv, binary s h, held a s)

  Move-held :
      {full_info : Bool} {p p' : Pc} {m' : Shared}
      → Move n full_info m p m' p'
      → Mover p
      → (b s : ℕ) → holds n (update pc a p' b) s ≡ true
      → m'.sems s ≡ 0
  Move-held (read g) f b s q = ground (arith, held b s)
  Move-held mv f b s q =
      ground (arith, guard mv, held b s, held a s, unique a b s, binary s, bound b s)

  Move-unique :
      {full_info : Bool} {p p' : Pc} {m' : Shared}
      → Move n full_info m p m' p'
      → Mover p
      → (b c s : ℕ) → holds n (update pc a p' b) s ≡ true
      → holds n (update pc a p' c) s ≡ true
      → b ≡ c
  Move-unique (read g) f b c s q r = ground (arith, unique b c s)
  Move-unique mv f b c s q r =
      ground (arith, guard mv, unique b c s, unique a c s, unique b a s, held b s, held c s)

  Move-InCells :
      {full_info : Bool} {p p' : Pc} {m' : Shared}
      → Move n full_info m p m' p'
      → Mover p
      → m.curr_prod < n
      → m.curr_cons < n
      → (b : ℕ) → InCells n (update pc a p' b)
  Move-InCells (read g) f prod cons b = ground (arith, in_cells b)
  Move-InCells mv f prod cons b = ground (arith, in_cells b)

  pub Move-Locks :
      {full_info : Bool} {p' : Pc} {m' : Shared}
      → Move n full_info m (pc a) m' p'
      → m.curr_prod < n
      → m.curr_cons < n
      → Locks n m'.sems (update pc a p')
  Move-Locks mv prod cons = record {
    in_cells = Move-InCells mv here prod cons;
    binary = Move-binary mv here;
    held = Move-held mv here;
    unique = Move-unique mv here;
  }
    where
      here : Mover (pc a)
      here = record { here = refl; own = in_cells a }
