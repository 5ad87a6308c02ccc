-- ===== src/Records/Layout.antt =====
-- A file of records: where each record lies, and what a write to its place changes.
use op_sys.Common.{
  ℕ, zero, suc, ◌+◌, ◌-◌, ◌*◌, ◌<◌, ◌≡◌, refl, ap, ◌∙◌, sym, List, [], ◌∷◌, ◌++◌, arith, length,
  take, drop, replicate, get_or, set, length-append, drop-append, take-append, drop_all,
}
use mathlib.Core.List.{append_assoc, append-nil}
use op_sys.Records.{bytes_at, splice, overlay}

abbrev pub flat : List (List ℕ) → List ℕ
flat [] = []
flat (r ∷ rs) = r ++ flat rs

-- All of one size.
abbrev pub AreRecords : ℕ → List (List ℕ) → Type 0
AreRecords size [] = Unit
AreRecords size (r ∷ rs) = (length r ≡ size) × AreRecords size rs

-- A full read replaces the buffer.
pub overlay_full : (got buffer : List ℕ) → length got ≡ length buffer → overlay got buffer ≡ got
overlay_full got buffer h =
    ap (◌++◌ got) (drop_all buffer (length got) (omega arith)) ∙ append-nil got

pub length-flat :
    (size : ℕ) (rs : List (List ℕ)) → AreRecords size rs → length (flat rs) ≡ length rs * size
length-flat size [] h = omega arith
length-flat size (r ∷ rs) h =
    length-append r (flat rs) ∙ (omega (arith, h.0, length-flat size rs h.1))

bytes_at-behind :
    (r xs : List ℕ) (n p size : ℕ)
    → p ≡ length r + n
    → bytes_at p size (r ++ xs) ≡ bytes_at n size xs
bytes_at-behind r xs n p size e = ap (take size) (drop-append r xs n p e)

splice-behind :
    (r xs v : List ℕ) (n p : ℕ) → p ≡ length r + n → splice p v (r ++ xs) ≡ r ++ splice n v xs
splice-behind r xs v n p e =
    ap (λ l. l ++ tail_from p) (take-append r xs n p e)
    ∙ append_assoc r (take n xs) (tail_from p)
    ∙ ap (λ g. r ++ (take n xs ++ (replicate g 0 ++ (v ++ drop (p + length v) (r ++ xs))))) gap_kept
    ∙ ap (λ l. r ++ (take n xs ++ (replicate (n - length xs) 0 ++ (v ++ l))))
        (drop-append r xs (n + length v) (p + length v) (omega arith))
  where
    tail_from : ℕ → List ℕ
    tail_from q = replicate (q - length (r ++ xs)) 0 ++ (v ++ drop (p + length v) (r ++ xs))

    gap_kept : p - length (r ++ xs) ≡ n - length xs
    gap_kept = omega (arith, length-append r xs)

bytes_at-front : (r xs : List ℕ) (size : ℕ) → length r ≡ size → bytes_at 0 size (r ++ xs) ≡ r
bytes_at-front r xs size e = take-append r xs 0 size (omega (arith, e)) ∙ append-nil r

splice-front : (r xs v : List ℕ) → length r ≡ length v → splice 0 v (r ++ xs) ≡ v ++ xs
splice-front r xs v e =
    ap (λ g. replicate g 0 ++ (v ++ drop (0 + length v) (r ++ xs))) no_gap
    ∙ ap (◌++◌ v) (drop-append r xs 0 (0 + length v) (omega (arith, e)))
  where
    no_gap : 0 - length (r ++ xs) ≡ 0
    no_gap = omega arith

at_start : (p size : ℕ) → p ≡ 0 * size → p ≡ 0
at_start p size e = omega arith

module _ (size : ℕ) (tail : List ℕ) where
  at_place :
      (rs : List (List ℕ)) (j p : ℕ)
      → AreRecords size rs
      → j < length rs
      → p ≡ j * size
      → bytes_at p size (flat rs ++ tail) ≡ get_or rs j []
  at_place [] j p h below e = absurd (omega arith)
  at_place (r ∷ rs) zero p h below e =
      ap (λ k. bytes_at k size ((r ++ flat rs) ++ tail)) (at_start p size e)
      ∙ ap (bytes_at 0 size) (append_assoc r (flat rs) tail)
      ∙ bytes_at-front r (flat rs ++ tail) size h.0
  at_place (r ∷ rs) (suc j) p h below e =
      ap (bytes_at p size) (append_assoc r (flat rs) tail)
      ∙ bytes_at-behind r (flat rs ++ tail) (j * size) p size (omega (arith, h.0))
      ∙ at_place rs j (j * size) h.1 (omega arith) refl

  -- A read at the place of a record brings that record.
  pub bytes_at-flat :
      (rs : List (List ℕ)) (j : ℕ)
      → AreRecords size rs
      → j < length rs
      → bytes_at (j * size) size (flat rs ++ tail) ≡ get_or rs j []
  bytes_at-flat rs j h below = at_place rs j (j * size) h below refl

  write_place :
      (rs : List (List ℕ)) (j p : ℕ) (v : List ℕ)
      → AreRecords size rs
      → j < length rs
      → length v ≡ size
      → p ≡ j * size
      → splice p v (flat rs ++ tail) ≡ flat (set rs j v) ++ tail
  write_place [] j p v h below full e = absurd (omega arith)
  write_place (r ∷ rs) zero p v h below full e =
      ap (λ k. splice k v ((r ++ flat rs) ++ tail)) (at_start p size e)
      ∙ ap (splice 0 v) (append_assoc r (flat rs) tail)
      ∙ splice-front r (flat rs ++ tail) v (omega (arith, h.0))
      ∙ sym (append_assoc v (flat rs) tail)
  write_place (r ∷ rs) (suc j) p v h below full e =
      ap (splice p v) (append_assoc r (flat rs) tail)
      ∙ splice-behind r (flat rs ++ tail) v (j * size) p (omega (arith, h.0))
      ∙ ap (◌++◌ r) (write_place rs j (j * size) v h.1 (omega arith) full refl)
      ∙ sym (append_assoc r (flat (set rs j v)) tail)

  -- A write to the place of a record replaces that record.
  pub splice-flat :
      (rs : List (List ℕ)) (j : ℕ) (v : List ℕ)
      → AreRecords size rs
      → j < length rs
      → length v ≡ size
      → splice (j * size) v (flat rs ++ tail) ≡ flat (set rs j v) ++ tail
  splice-flat rs j v h below full = write_place rs j (j * size) v h below full refl

pub set-AreRecords :
    (size : ℕ) (rs : List (List ℕ)) (j : ℕ) (v : List ℕ)
    → AreRecords size rs
    → length v ≡ size
    → AreRecords size (set rs j v)
set-AreRecords size [] j v h full = tt
set-AreRecords size (r ∷ rs) zero v h full = (full, h.1)
set-AreRecords size (r ∷ rs) (suc j) v h full = (h.0, set-AreRecords size rs j v h.1 full)

pub get_or-AreRecords :
    (size : ℕ) (rs : List (List ℕ)) (j : ℕ)
    → AreRecords size rs
    → j < length rs
    → length (get_or rs j []) ≡ size
get_or-AreRecords size [] j h below = absurd (omega arith)
get_or-AreRecords size (r ∷ rs) zero h below = h.0
get_or-AreRecords size (r ∷ rs) (suc j) h below = get_or-AreRecords size rs j h.1 (omega arith)
