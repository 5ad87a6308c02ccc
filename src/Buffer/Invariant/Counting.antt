-- ===== src/Buffer/Invariant/Counting.antt =====
-- The counters go together, and what is taken are the claimed lines in their order.
use mathlib.Core.List.{map-append}
use native.Mathlib.Nat.{mod-add-mod}
use op_sys.Common.{
  ℕ, suc, ◌+◌, ◌%◌, ◌≤◌, ◌<◌, ◌≡◌, ◌≢◌, ◌∙◌, ap, sym, Bool, true, List, [], ◌∷◌, ◌++◌, map, arith,
  length, get_or, take, length-append, take-suc, take_inside,
}
use op_sys.Buffer.{Cell, full, Shared, Pc, Move, read, claim, wait, pick, take_line}
use op_sys.Buffer.Invariant.{holds, InCells, Locks, Counts, Fact, AllEven}
use op_sys.Buffer.Invariant.Guards.{guard}

mod_suc : (c k n : ℕ) → c ≡ k % n → (c + 1) % n ≡ suc k % n
mod_suc c k n e = ap (λ x. (x + 1) % n) e ∙ mod-add-mod k n 1 ∙ ap (λ x. x % n) (omega arith)

pub length-snoc : (xs : List (List ℕ)) (x : List ℕ) → length (xs ++ x ∷ []) ≡ suc (length xs)
length-snoc xs x = omega (arith, length-append xs (x ∷ []))

pub length-snoc_cell : (xs : List Cell) (x : Cell) → length (xs ++ x ∷ []) ≡ suc (length xs)
length-snoc_cell xs x = omega (arith, length-append xs (x ∷ []))

module _ {n : ℕ} (m : Shared) {pc : ℕ → Pc} (locks : Locks n m.sems pc) (inv : Counts n m)
    (a : ℕ) where
  open inv use {prod_at, cons_at, free_cells, behind, taken_claims, quiet, in_order}

  -- What is known where thread `a` stands.
  record Mover (p : Pc) : Type 0 where
    own : InCells n p
    mine : Fact n m p
    held : (s : ℕ) → holds n p s ≡ true → m.sems s ≡ 0

  Move-prod_at :
      {full_info : Bool} {p p' : Pc} {m' : Shared}
      → Move n full_info m p m' p'
      → m'.curr_prod ≡ length m'.claims % n
  Move-prod_at (claim {l} v g) =
      mod_suc m.curr_prod (length m.claims) n prod_at
      ∙ ap (λ k. k % n) (sym (length-snoc m.claims l))
  Move-prod_at mv = prod_at

  Move-cons_at :
      {full_info : Bool} {p p' : Pc} {m' : Shared}
      → Move n full_info m p m' p'
      → m'.curr_cons ≡ m'.picks % n
  Move-cons_at (pick g) = mod_suc m.curr_cons m.picks n cons_at
  Move-cons_at mv = cons_at

  Move-numbers :
      {full_info : Bool} {p p' : Pc} {m' : Shared} → Move n full_info m p m' p' → Mover p → record {
        free_after : m'.sems (n + 2) + length m'.claims ≡ n + m'.freed;
        behind_after : m'.freed ≤ length m'.taken;
        taken_after : length m'.taken ≤ length m'.claims;
      }
  Move-numbers (claim {l} v g) f = ground (arith, length-snoc m.claims l)
  Move-numbers (take_line {i} {k}) f = ground (arith, length-snoc_cell m.taken (m.cells i))
  Move-numbers mv f = ground (arith, guard mv)

  Move-quiet :
      {full_info : Bool} {p p' : Pc} {m' : Shared}
      → Move n full_info m p m' p'
      → Mover p
      → m'.sems (n + 1) ≢ 0
      → AllEven m'
  Move-quiet (read g) f q = quiet q
  Move-quiet (wait v g) f q = absurd (ground (arith, locks.binary (n + 1)))
  Move-quiet (take_line {i} {k}) f q = absurd (ground (arith, f.held (n + 1)))
  Move-quiet mv f q = ground (arith, guard mv, quiet, f.held (n + 1))

  -- The line that is taken is the next one.
  next_taken :
      (i k : ℕ)
      → length m.taken ≡ k
      → k < length m.claims
      → m.cells i ≡ full (get_or m.claims k [])
      → m.taken ++ m.cells i ∷ [] ≡ map full (take (length (m.taken ++ m.cells i ∷ [])) m.claims)
  next_taken i k e h c =
      let n' = length m.taken in
      ap (λ t. t ++ m.cells i ∷ []) in_order
      ∙ ap (λ x. map full (take n' m.claims) ++ x ∷ [])
          (c ∙ ap (λ j. full (get_or m.claims j [])) (sym e))
      ∙ sym (map-append full (take n' m.claims) (get_or m.claims n' [] ∷ []))
      ∙ ap (map full) (sym (take-suc n' m.claims [] (omega (arith, e, h))))
      ∙ ap (λ j. map full (take j m.claims)) (sym (length-snoc_cell m.taken (m.cells i)))

  Move-in_order :
      {full_info : Bool} {p p' : Pc} {m' : Shared}
      → Move n full_info m p m' p'
      → Mover p
      → m'.taken ≡ map full (take (length m'.taken) m'.claims)
  Move-in_order (claim {l} v g) f =
      in_order ∙ ap (map full) (sym (take_inside (length m.taken) m.claims (l ∷ []) taken_claims))
  Move-in_order (take_line {i} {k}) f = next_taken i k f.mine.0.2 f.mine.0.4 f.mine.1
  Move-in_order mv f = in_order

  pub Move-Counts :
      {full_info : Bool} {p' : Pc} {m' : Shared}
      → Move n full_info m (pc a) m' p'
      → Fact n m (pc a)
      → Counts n m'
  Move-Counts mv mine = record {
    prod_at = Move-prod_at mv;
    cons_at = Move-cons_at mv;
    free_cells = free_after;
    behind = behind_after;
    taken_claims = taken_after;
    quiet = Move-quiet mv here;
    in_order = Move-in_order mv here;
  }
    where
      here : Mover (pc a)
      here = record { own = locks.in_cells a; mine = mine; held = locks.held a }

      open (Move-numbers mv here) use {free_after, behind_after, taken_after}
