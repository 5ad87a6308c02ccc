-- ===== src/Buffer/Invariant/Placing.antt =====
-- A step keeps the cells and the claims together.
use native.Mathlib.Nat.{add-mod_right}
use mathlib.Core.Path.{subst}
use op_sys.Common.{
  ℕ, suc, ◌+◌, ◌%◌, ◌≤◌, ◌<◌, ◌≡◌, ◌≢◌, ◌⊎◌, ◌∙◌, ap, sym, refl, Bool, some, List, [], ◌==◌, arith,
  if◌then◌else◌, length, get_or, inl, inr, Bool-cases, dec_lt,
}
use op_sys.Buffer.{
  Cell, empty, raw, full, Shared, Pc, update, Move, claim, lock, leave, allocate, copy, take_line,
}
use op_sys.Buffer.Invariant.{ticket, Fact, Locks, Counts, Places}
use op_sys.Buffer.Invariant.Counting.{length-snoc, length-snoc_cell}
use op_sys.Buffer.Invariant.Facts.{mod_apart, get_or-claims}
use op_sys.Buffer.Invariant.Window.{ticket-Knows}
use op_sys.Buffer.Invariant.Moving.{Mover, window, Move-others, Move-own}

update_self : (f : ℕ → Cell) (i : ℕ) (c : Cell) → update f i c i ≡ c
update_self f i c = ground arith

update_other : (f : ℕ → Cell) (i j : ℕ) (c : Cell) → i ≢ j → update f i c j ≡ f j
update_other f i j c h = ground arith

module _ {n : ℕ} (m : Shared) {pc : ℕ → Pc} (locks : Locks n m.sems pc) (counts : Counts n m)
    (places : Places n m pc) (a : ℕ) (some_cell : 0 < n) where
  open places use {fact, one_ticket, pending, unused}

  abbrev t : ℕ
  t = length m.taken

  room : length m.claims ≤ t + n
  room = window m locks counts places a

  Move-Fact :
      {full_info : Bool} {p' : Pc} {m' : Shared}
      → Move n full_info m (pc a) m' p'
      → (b : ℕ) → Fact n m' (update pc a p' b)
  Move-Fact {p'} {m'} mv b = elim (Bool-cases (a == b)) [
    | inl e ↦
        subst (λ x. Fact n m' (if x then p' else pc b)) (sym e)
          (Move-own m locks counts places a some_cell mv here)
    | inr e ↦
        subst (λ x. Fact n m' (if x then p' else pc b)) (sym e)
          (Move-others m locks counts places a mv here b (ground (arith, e)))
  ]
    where
      here : Mover m locks counts places a (pc a)
      here = record { here = refl; mine = fact a }

  -- A ticket is an old one or the next.
  Move-ticket :
      {full_info : Bool} {p p' : Pc} {m' : Shared} (k : ℕ)
      → Move n full_info m p m' p'
      → ticket p' ≡ some k
      → (ticket p ≡ some k) ⊎ (k ≡ length m.claims)
  Move-ticket k (claim {l} v g) e = inr (ground arith)
  Move-ticket k (lock v g) e = inl e
  Move-ticket k (leave) e = inl e
  Move-ticket k (allocate) e = inl e
  Move-ticket k mv e = absurd (ground arith)

  ticket-bound : (b k : ℕ) → ticket (pc b) ≡ some k → k < length m.claims
  ticket-bound b k e = (ticket-Knows n m.cells m.claims m.picks t m.freed (pc b) k (fact b) e).1

  -- The ticket of `a` is of no other thread.
  Move-ticket_own :
      {full_info : Bool} {p' : Pc} {m' : Shared} (b k : ℕ)
      → Move n full_info m (pc a) m' p'
      → ticket p' ≡ some k
      → ticket (pc b) ≡ some k
      → a ≡ b
  Move-ticket_own b k mv e h = elim (Move-ticket k mv e) [
    | inl e' ↦ one_ticket a b k e' h
    | inr e' ↦ absurd (omega (arith, e', ticket-bound b k h))
  ]

  Move-one_ticket :
      {full_info : Bool} {p' : Pc} {m' : Shared}
      → Move n full_info m (pc a) m' p'
      → (b c k : ℕ) → ticket (update pc a p' b) ≡ some k
      → ticket (update pc a p' c) ≡ some k
      → b ≡ c
  Move-one_ticket mv b c k e h =
      ground (arith, one_ticket b c k, Move-ticket_own b k mv, Move-ticket_own c k mv)

  Move-bounds : {full_info : Bool} {p p' : Pc} {m' : Shared} → Move n full_info m p m' p' → record {
    more_claims : length m.claims ≤ length m'.claims;
    more_taken : t ≤ length m'.taken;
  }
  Move-bounds (claim {l} v g) = ground (arith, length-snoc m.claims l)
  Move-bounds (take_line {i} {k}) = ground (arith, length-snoc_cell m.taken (m.cells i))
  Move-bounds mv = ground arith

  -- A full cell stays full, until its line is taken.
  Move-full :
      {full_info : Bool} {p p' : Pc} {m' : Shared}
      → Move n full_info m p m' p'
      → Fact n m p
      → (j : ℕ) (x : List ℕ) → length m'.taken ≤ j
      → j < length m.claims
      → m.cells (j % n) ≡ full x
      → m'.cells (j % n) ≡ full x
  Move-full (allocate {i} {k}) f j x h h' c =
      update_other m.cells i (j % n) raw (λ e. ground (arith, ap m.cells e, f, c)) ∙ c
  Move-full (copy {i} {k} {l}) f j x h h' c =
      update_other m.cells i (j % n) (full l) (λ e. ground (arith, ap m.cells e, f, c)) ∙ c
  Move-full (take_line {i} {k}) f j x h h' c =
      update_other m.cells i (j % n) empty (λ e.
        mod_apart t j t n (omega (arith, h, length-snoc_cell m.taken (m.cells i))) (omega arith)
          (omega (arith, h', room)) (omega (arith, some_cell))
          (omega (arith, h, length-snoc_cell m.taken (m.cells i)))
          (sym e ∙ f.0.0 ∙ ap (λ k'. k' % n) (sym f.0.2)))
      ∙ c
  Move-full mv f j x h h' c = c

  -- A producer keeps its ticket until the cell is full.
  Move-filled :
      {full_info : Bool} {p p' : Pc} {m' : Shared}
      → Move n full_info m p m' p'
      → Fact n m p
      → (j : ℕ) → ticket p ≡ some j
      → (m'.cells (j % n) ≡ full (get_or m'.claims j [])) ⊎ (ticket p' ≡ some j)
  Move-filled (lock v g) f j e = inr e
  Move-filled (leave) f j e = inr e
  Move-filled (allocate) f j e = inr e
  Move-filled (copy {i} {k} {l}) f j e = inl (ground (arith, e, f))
  Move-filled mv f j e = absurd (ground (arith, e))

  Move-old :
      {full_info : Bool} {p p' : Pc} {m' : Shared}
      → Move n full_info m p m' p'
      → (j : ℕ) → j < length m'.claims
      → ((j < length m.claims) × (get_or m'.claims j [] ≡ get_or m.claims j []))
        ⊎ (ticket p' ≡ some j)
  Move-old (claim {l} v g) j h = elim (dec_lt j (length m.claims)) [
    | yes p ↦ inl (p, get_or-claims m.claims l j p)
    | no p ↦ inr (ap some (omega (arith, h, length-snoc m.claims l)))
  ]
  Move-old mv j h = inl (h, refl)

  -- The tickets of `a` before and after, among those of all.
  of_all : (p' : Pc) (j : ℕ) → ticket p' ≡ some j → (b : ℕ) × (ticket (update pc a p' b) ≡ some j)
  of_all p' j e = (a, ground (arith, e))

  Move-kept :
      {full_info : Bool} {p' : Pc} {m' : Shared}
      → Move n full_info m (pc a) m' p'
      → (b j : ℕ) → ticket (pc b) ≡ some j
      → (m'.cells (j % n) ≡ full (get_or m'.claims j []))
        ⊎ ((c : ℕ) × (ticket (update pc a p' c) ≡ some j))
  Move-kept {p'} mv b j e = elim (Bool-cases (a == b)) [
    | inr ne ↦ inr (b, ground (arith, ne, e))
    | inl same ↦
        elim (Move-filled mv (fact a) j (ap (λ c. ticket (pc c)) (ground (arith, same)) ∙ e)) [
          | inl full_now ↦ inl full_now
          | inr still ↦ inr (of_all p' j still)
        ]
  ]

  Move-pending :
      {full_info : Bool} {p' : Pc} {m' : Shared}
      → Move n full_info m (pc a) m' p'
      → (j : ℕ) → length m'.taken ≤ j
      → j < length m'.claims
      → (m'.cells (j % n) ≡ full (get_or m'.claims j []))
        ⊎ ((b : ℕ) × (ticket (update pc a p' b) ≡ some j))
  Move-pending {p'} mv j h h' = elim (Move-old mv j h') [
    | inr next ↦ inr (of_all p' j next)
    | inl (old, same) ↦ elim (pending j (omega (arith, h, (Move-bounds mv).more_taken)) old) [
      | inl c ↦ inl (Move-full mv (fact a) j (get_or m.claims j []) h old c ∙ ap full (sym same))
      | inr (b, e) ↦ Move-kept mv b j e
    ]
  ]

  -- The cells outside of the window stay empty.
  filling :
      (i k j : ℕ) (c : Cell)
      → i ≡ k % n
      → t ≤ k
      → k < length m.claims
      → length m.claims ≤ j
      → j < t + n
      → update m.cells i c (j % n) ≡ empty
  filling i k j c e h h' g g' =
      update_other m.cells i (j % n) c (λ e'.
        mod_apart t j k n (omega (arith, h, h', g)) h g' (omega (arith, h', room))
          (omega (arith, h', g)) (sym e' ∙ e))
      ∙ unused j g g'

  emptied :
      (i j : ℕ)
      → i ≡ t % n
      → length m.claims ≤ j
      → j < suc t + n
      → update m.cells i empty (j % n) ≡ empty
  emptied i j e h h' = elim (dec_lt j (t + n)) [
    | yes p ↦ ground (arith, unused j h p)
    | no p ↦
        (ap (update m.cells i empty)
            (ap (λ x. x % n) (omega (arith, p, h')) ∙ add-mod_right t n ∙ sym e)
          ∙ update_self m.cells i empty)
  ]

  Move-unused :
      {full_info : Bool} {p p' : Pc} {m' : Shared}
      → Move n full_info m p m' p'
      → Fact n m p
      → (j : ℕ) → length m'.claims ≤ j
      → j < length m'.taken + n
      → m'.cells (j % n) ≡ empty
  Move-unused (claim {l} v g) f j h h' = unused j (omega (arith, h, length-snoc m.claims l)) h'
  Move-unused (allocate {i} {k}) f j h h' = filling i k j raw f.0 f.1 f.2 h h'
  Move-unused (copy {i} {k} {l}) f j h h' = filling i k j (full l) f.0 f.1 f.2 h h'
  Move-unused (take_line {i} {k}) f j h h' =
      emptied i j (f.0.0 ∙ ap (λ x. x % n) (sym f.0.2)) h
        (omega (arith, h', length-snoc_cell m.taken (m.cells i)))
  Move-unused mv f j h h' = unused j h h'

  pub Move-Places :
      {full_info : Bool} {p' : Pc} {m' : Shared}
      → Move n full_info m (pc a) m' p'
      → Places n m' (update pc a p')
  Move-Places mv = record {
    fact = Move-Fact mv;
    one_ticket = Move-one_ticket mv;
    pending = Move-pending mv;
    unused = Move-unused mv (fact a);
  }
