-- ===== src/Buffer/Invariant/Moving.antt =====
-- A step keeps what the threads know of the cells.
use mathlib.Core.Path.{subst}
use op_sys.Common.{
  ℕ, suc, ◌+◌, ◌%◌, ◌≤◌, ◌<◌, ◌≡◌, ◌≢◌, ◌∙◌, ap, sym, refl, Bool, true, some, [], ◌∷◌, ◌++◌, ◌==◌,
  arith, length, get_or, get_or-append, inl, inr, dec_lt,
}
use op_sys.Buffer.{
  empty, raw, full, Shared, Pc, claiming, locked, writing, copying, checking, picking, holding,
  took, Move, claim, allocate, copy, wait, pick, grab, take_line, post_free,
}
use op_sys.Buffer.Invariant.{holds, ticket, Fact, Locks, Counts, Places}
use op_sys.Buffer.Invariant.Counting.{length-snoc, length-snoc_cell}
use op_sys.Buffer.Invariant.Facts.{claim-Knows, cell-Knows, Later, count-Knows}
use op_sys.Buffer.Invariant.Window.{fill-Elsewhere, take-Elsewhere, Knows-Later, take-Later}

module _ {n : ℕ} (m : Shared) {pc : ℕ → Pc} (locks : Locks n m.sems pc) (counts : Counts n m)
    (places : Places n m pc) (a : ℕ) where
  open places use {fact, one_ticket, pending, unused}

  abbrev t : ℕ
  t = length m.taken

  -- What is known where thread `a` stands.
  pub record Mover (p : Pc) : Type 0 where
    pub here : pc a ≡ p
    pub mine : Fact n m p

  -- The window has at most `n` claims.
  pub window : length m.claims ≤ t + n
  window = omega (arith, counts.free_cells, counts.behind)

  -- Another thread is not in the section of the consumers while `a` is.
  away :
      (b : ℕ) (p : Pc) → pc a ≡ p → holds n p (n + 1) ≡ true → a ≢ b → holds n (pc b) (n + 1) ≢ true
  away b p e h other h' = other (locks.unique a b (n + 1) (ap (λ q. holds n q (n + 1)) e ∙ h) h')

  -- Another thread does not work for the claim of `a`.
  other_ticket : (b k : ℕ) (p : Pc) → pc a ≡ p → ticket p ≡ some k → a ≢ b → ticket (pc b) ≢ some k
  other_ticket b k p e h other h' = other (one_ticket a b k (ap ticket e ∙ h) h')

  in_section : (n : ℕ) → (n + 1 == n + 1) ≡ true
  in_section n = ground arith

  pub Move-others :
      {full_info : Bool} {p p' : Pc} {m' : Shared}
      → Move n full_info m p m' p'
      → Mover p
      → (b : ℕ) → a ≢ b
      → Fact n m' (pc b)
  Move-others (claim {l} v g) f b other =
      claim-Knows n m.cells m.claims m.picks t m.freed l (pc b) (fact b)
  Move-others (allocate {i} {k} {l}) f b other =
      cell-Knows n m.cells m.claims m.picks t m.freed i raw (pc b)
        (fill-Elsewhere n m.cells m.claims m.picks t m.freed i k raw (pc b) f.mine.0 f.mine.1
          f.mine.2 window (λ l' c. ground arith) (λ c. ground arith)
          (other_ticket b k (writing i k l) f.here refl other) (fact b))
        (fact b)
  Move-others (copy {i} {k} {l}) f b other =
      cell-Knows n m.cells m.claims m.picks t m.freed i (full l) (pc b)
        (fill-Elsewhere n m.cells m.claims m.picks t m.freed i k (full l) (pc b) f.mine.0 f.mine.1
          f.mine.2 window (λ l' c. ground arith) (λ c. ground arith)
          (other_ticket b k (copying i k l) f.here refl other) (fact b))
        (fact b)
  Move-others (pick g) f b other =
      count-Knows n m.cells m.claims m.picks t m.freed (suc m.picks) t m.freed (pc b)
        (away b checking f.here (in_section n) other)
        (Knows-Later n m.cells m.claims m.picks t m.freed (pc b) (fact b)) (fact b)
  Move-others (take_line {i} {k}) f b other =
      cell-Knows n m.cells m.claims m.picks (length (m.taken ++ m.cells i ∷ [])) m.freed i empty
        (pc b)
        (take-Elsewhere n m.cells m.claims m.picks t m.freed i (get_or m.claims k []) (pc b)
          f.mine.1 out (fact b))
        (count-Knows n m.cells m.claims m.picks t m.freed m.picks
          (length (m.taken ++ m.cells i ∷ [])) m.freed (pc b) out
          (subst (λ t'. Later t' (pc b))
            (sym (length-snoc_cell m.taken (m.cells i) ∙ ap suc f.mine.0.2))
            (take-Later n m.cells m.claims m.picks t m.freed i k (get_or m.claims k []) (pc b)
              f.mine.0.0 f.mine.0.2 f.mine.1 (fact b)))
          (fact b))
    where
      out : holds n (pc b) (n + 1) ≢ true
      out = away b (holding i k) f.here (ground arith) other
  Move-others (post_free {i} {k}) f b other =
      count-Knows n m.cells m.claims m.picks t m.freed m.picks t (suc m.freed) (pc b)
        (away b (took i k) f.here (ground arith) other)
        (Knows-Later n m.cells m.claims m.picks t m.freed (pc b) (fact b)) (fact b)
  Move-others mv f b other = fact b

  -- A filled cell is there for each pick.
  picked_claim : 0 < n → m.picks ≡ t → m.cells m.curr_cons ≢ empty → m.picks < length m.claims
  picked_claim some_cell e c = elim (dec_lt m.picks (length m.claims)) [
    | yes p ↦ p
    | no p ↦
        absurd (
          c (
            ap m.cells counts.cons_at ∙ unused m.picks (omega arith) (omega (arith, e, some_cell))))
  ]

  -- Who works for a claim has its cell empty, or has its semaphore.
  ticket_cell :
      (b i k : ℕ) (q : Pc)
      → i ≡ k % n
      → Fact n m q
      → ticket q ≡ some k
      → m.cells i ≢ empty
      → holds n q i ≡ true
  ticket_cell b i k (claiming j k' l) e h h' c = absurd (c (ground arith))
  ticket_cell b i k (locked j k' l) e h h' c = absurd (c (ground arith))
  ticket_cell b i k (writing j k' l) e h h' c = absurd (c (ground arith))
  ticket_cell b i k (copying j k' l) e h h' c = ground arith
  ticket_cell b i k q e h h' c = absurd (ground arith)

  grabbed :
      (i k v : ℕ)
      → m.sems i ≡ suc v
      → Fact n m (picking i k)
      → m.cells i ≡ full (get_or m.claims k [])
  grabbed i k v g h = elim (pending k (omega (arith, h.0.2)) h.0.4) [
    | inl c ↦ ap m.cells h.0.0 ∙ c
    | inr (b, e) ↦
        absurd (omega (arith, g, locks.held b i (ticket_cell b i k (pc b) h.0.0 (fact b) e h.1)))
  ]

  pub Move-own :
      {full_info : Bool} {p p' : Pc} {m' : Shared}
      → 0 < n
      → Move n full_info m p m' p'
      → Mover p
      → Fact n m' p'
  Move-own some_cell (claim {l} v g) f = (
    counts.prod_at,
    counts.taken_claims,
    omega (arith, length-snoc m.claims l),
    get_or-append m.claims [] l [] (length m.claims) refl,
    ap m.cells counts.prod_at
        ∙ unused (length m.claims) (omega arith)
            (omega (arith, g, counts.free_cells, counts.behind)),
  )
  Move-own some_cell (wait v g) f = counts.quiet (omega (arith, g))
  Move-own some_cell (pick g) f = (
    (
      counts.cons_at,
      refl,
      sym f.mine.0,
      f.mine.1 ∙ sym f.mine.0,
      picked_claim some_cell f.mine.0 g,
    ),
    g,
  )
  Move-own some_cell (grab {i} {k} v g) f = (f.mine.0, grabbed i k v g f.mine)
  Move-own some_cell (take_line {i} {k}) f =
      ground (arith, f.mine, length-snoc_cell m.taken (m.cells i))
  Move-own some_cell mv f = ground (arith, f.mine)
