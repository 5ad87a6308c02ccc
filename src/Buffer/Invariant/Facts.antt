-- ===== src/Buffer/Invariant/Facts.antt =====
-- What the other threads know stays true when one thread moves.
use native.Mathlib.Nat.{mod-add-mod, mod-eq_of_lt, mod-eq-sub-mod, mod-lt}
use native.Mathlib.Decide.{dec_lt}
use op_sys.Common.{
  ℕ, ◌+◌, ◌-◌, ◌%◌, ◌≤◌, ◌<◌, ◌≡◌, ◌≢◌, ◌∙◌, ap, sym, true, List, [], ◌∷◌, ◌++◌, arith, length,
  get_or, length-append, get_or-inside,
}
use op_sys.Buffer.{
  Cell, empty, Pc, inside, claiming, locked, writing, copying, picking, holding, update,
}
use op_sys.Buffer.Invariant.{holds, Knows}

-- Fewer than `n` steps round the array do not come back to the start.
mod_shift : (h d n : ℕ) → h < n → 0 < d → d < n → (h + d) % n ≢ h
mod_shift h d n hh hd hn = elim (dec_lt (h + d) n) [
  | yes p ↦ omega (arith, mod-eq_of_lt p)
  | no p ↦ omega (
    arith,
    mod-eq-sub-mod {n = h + d} {m = n} (omega arith),
    mod-eq_of_lt {n = h + d - n} {m = n} (omega arith),
  )
]

mod_apart_lt : (j k n : ℕ) → j < k → k < j + n → j % n ≢ k % n
mod_apart_lt j k n h h' e =
    mod_shift (j % n) (k - j) n (mod-lt j (omega arith)) (omega arith) (omega arith)
      (mod-add-mod j n (k - j) ∙ ap (λ x. x % n) (omega arith) ∙ sym e)

-- Two claims in one window have different cells.
pub mod_apart : (b j k n : ℕ) → b ≤ j → b ≤ k → j < b + n → k < b + n → j ≢ k → j % n ≢ k % n
mod_apart b j k n h h' g g' ne e = elim (dec_lt j k) [
  | yes p ↦ mod_apart_lt j k n p (omega arith) e
  | no p ↦ mod_apart_lt k j n (omega arith) (omega arith) (sym e)
]

pub get_or-claims :
    (claims : List (List ℕ)) (l : List ℕ) (k : ℕ)
    → k < length claims
    → get_or (claims ++ l ∷ []) k [] ≡ get_or claims k []
get_or-claims claims l k h = get_or-inside claims (l ∷ []) k [] [] h

-- One claim more.
pub claim-Knows :
    (n : ℕ) (cells : ℕ → Cell) (claims : List (List ℕ)) (picks t freed : ℕ) (l : List ℕ) (q : Pc)
    → Knows n cells claims picks t freed q
    → Knows n cells (claims ++ l ∷ []) picks t freed q
claim-Knows n cells claims picks t freed l (inside l') h = tt
claim-Knows n cells claims picks t freed l (claiming i k l') h =
    ground (arith, length-append claims (l ∷ []), get_or-claims claims l k)
claim-Knows n cells claims picks t freed l (locked i k l') h =
    ground (arith, length-append claims (l ∷ []), get_or-claims claims l k)
claim-Knows n cells claims picks t freed l (writing i k l') h =
    ground (arith, length-append claims (l ∷ []), get_or-claims claims l k)
claim-Knows n cells claims picks t freed l (copying i k l') h =
    ground (arith, length-append claims (l ∷ []), get_or-claims claims l k)
claim-Knows n cells claims picks t freed l (picking i k) h =
    ground (arith, length-append claims (l ∷ []))
claim-Knows n cells claims picks t freed l (holding i k) h =
    ground (arith, length-append claims (l ∷ []), get_or-claims claims l k)
claim-Knows n cells claims picks t freed l q h = h

-- The cell `i` changes to `c`; that is of no concern at `q`.
abbrev pub Elsewhere : ℕ → Cell → Pc → Type 0
Elsewhere i c (claiming j k l) = j ≢ i
Elsewhere i c (locked j k l) = j ≢ i
Elsewhere i c (writing j k l) = j ≢ i
Elsewhere i c (copying j k l) = j ≢ i
Elsewhere i c (picking j k) = j ≡ i → c ≢ empty
Elsewhere i c (holding j k) = j ≢ i
Elsewhere i c _ = Unit

pub cell-Knows :
    (n : ℕ) (cells : ℕ → Cell) (claims : List (List ℕ)) (picks t freed i : ℕ) (c : Cell) (q : Pc)
    → Elsewhere i c q
    → Knows n cells claims picks t freed q
    → Knows n (update cells i c) claims picks t freed q
cell-Knows n cells claims picks t freed i c (inside l) e h = tt
cell-Knows n cells claims picks t freed i c (holding j k) e h = (h.0, ground (arith, h.1))
cell-Knows n cells claims picks t freed i c q e h = ground arith

-- The counters of the consumers change, away from their section.
abbrev pub Later : ℕ → Pc → Type 0
Later t (claiming i k l) = t ≤ k
Later t (locked i k l) = t ≤ k
Later t (writing i k l) = t ≤ k
Later t (copying i k l) = t ≤ k
Later t _ = Unit

pub count-Knows :
    (n : ℕ) (cells : ℕ → Cell) (claims : List (List ℕ)) (picks t freed picks' t' freed' : ℕ)
    (q : Pc)
    → holds n q (n + 1) ≢ true
    → Later t' q
    → Knows n cells claims picks t freed q
    → Knows n cells claims picks' t' freed' q
count-Knows n cells claims picks t freed picks' t' freed' (inside l) out e h = tt
count-Knows n cells claims picks t freed picks' t' freed' q out e h = ground arith
