-- ===== src/Buffer/Invariant/Window.antt =====
-- A step keeps what each thread knows of its cell.
use op_sys.Common.{
  ℕ, suc, ◌+◌, ◌%◌, ◌≤◌, ◌<◌, ◌≡◌, ◌≢◌, ◌∙◌, ap, sym, true, some, List, [], arith, length, get_or,
}
use op_sys.Buffer.{
  Cell, empty, full, Pc, inside, claiming, locked, writing, copying, picking, holding,
}
use op_sys.Buffer.Invariant.{holds, ticket, Knows}
use op_sys.Buffer.Invariant.Facts.{mod_apart, Elsewhere, Later}

module _ (n : ℕ) (cells : ℕ → Cell) (claims : List (List ℕ)) (picks t freed : ℕ) where
  -- The cell of a ticket is not filled.
  pub ticket-Knows :
      (q : Pc) (k : ℕ)
      → Knows n cells claims picks t freed q
      → ticket q ≡ some k
      → (t ≤ k) × (k < length claims) × ((l : List ℕ) → cells (k % n) ≢ full l)
  ticket-Knows (claiming i j l) k h e = (ground arith, ground arith, λ l'. ground arith)
  ticket-Knows (locked i j l) k h e = (ground arith, ground arith, λ l'. ground arith)
  ticket-Knows (writing i j l) k h e = (ground arith, ground arith, λ l'. ground arith)
  ticket-Knows (copying i j l) k h e = (ground arith, ground arith, λ l'. ground arith)
  ticket-Knows q k h e = absurd (ground arith)

  -- A producer fills the cell of its ticket `k`.
  pub fill-Elsewhere :
      (i k : ℕ) (c : Cell) (q : Pc)
      → i ≡ k % n
      → t ≤ k
      → k < length claims
      → length claims ≤ t + n
      → ((l : List ℕ) → cells i ≢ full l)
      → c ≢ empty
      → ticket q ≢ some k
      → Knows n cells claims picks t freed q
      → Elsewhere i c q
  fill-Elsewhere i k c (claiming j k' l) e h below room not_full some_c other know = λ same.
      mod_apart t k' k n (ground arith) h (ground arith) (omega arith) (ground arith) (ground arith)
  fill-Elsewhere i k c (locked j k' l) e h below room not_full some_c other know = λ same.
      mod_apart t k' k n (ground arith) h (ground arith) (omega arith) (ground arith) (ground arith)
  fill-Elsewhere i k c (writing j k' l) e h below room not_full some_c other know = λ same.
      mod_apart t k' k n (ground arith) h (ground arith) (omega arith) (ground arith) (ground arith)
  fill-Elsewhere i k c (copying j k' l) e h below room not_full some_c other know = λ same.
      mod_apart t k' k n (ground arith) h (ground arith) (omega arith) (ground arith) (ground arith)
  fill-Elsewhere i k c (picking j k') e h below room not_full some_c other know = λ same. some_c
  fill-Elsewhere i k c (holding j k') e h below room not_full some_c other know =
      λ same. not_full (get_or claims k' []) (ap cells (sym same) ∙ know.1)
  fill-Elsewhere i k c q e h below room not_full some_c other know = tt

  -- A consumer empties a full cell.
  pub take-Elsewhere :
      (i : ℕ) (l : List ℕ) (q : Pc)
      → cells i ≡ full l
      → holds n q (n + 1) ≢ true
      → Knows n cells claims picks t freed q
      → Elsewhere i empty q
  take-Elsewhere i l (claiming j k' l') e out know = λ same. ground (arith, ap cells same)
  take-Elsewhere i l (locked j k' l') e out know = λ same. ground (arith, ap cells same)
  take-Elsewhere i l (writing j k' l') e out know = λ same. ground (arith, ap cells same)
  take-Elsewhere i l (copying j k' l') e out know = λ same. ground (arith, ap cells same)
  take-Elsewhere i l (picking j k') e out know = absurd (out (ground arith))
  take-Elsewhere i l (holding j k') e out know = absurd (out (ground arith))
  take-Elsewhere i l q e out know = tt

  pub Knows-Later : (q : Pc) → Knows n cells claims picks t freed q → Later t q
  Knows-Later (inside l) know = tt
  Knows-Later q know = ground arith

  -- The next claim is not one that a producer works for, where its cell is full.
  pub take-Later :
      (i k : ℕ) (l : List ℕ) (q : Pc)
      → i ≡ k % n
      → t ≡ k
      → cells i ≡ full l
      → Knows n cells claims picks t freed q
      → Later (suc k) q
  take-Later i k l (inside l') e h c know = tt
  take-Later i k l q e h c know = ground (arith)
