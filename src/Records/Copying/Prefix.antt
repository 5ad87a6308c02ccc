-- ===== src/Records/Copying/Prefix.antt =====
-- A copy holds the beginning of the source.
use op_sys.Common.{
  ℕ, zero, suc, ◌+◌, ◌*◌, ◌≤◌, ◌≡◌, ◌∙◌, sym, refl, ap, Bool, true, false, List, [], ◌∷◌, ◌++◌,
  arith, length, take, drop, min, ltb, ◌==◌, if◌then◌else◌, Bool-cases, inl, inr, length-take,
  length-drop,
}
use mathlib.Core.List.{append-nil}
use op_sys.Records.Copying.{
  Copy, Result, success, cut_off, not_opened, copy_round, copy_loop, copy_sys, copy_lib,
}

take_nil : (n : ℕ) → take {A = ℕ} n [] ≡ []
take_nil zero = refl
take_nil (suc n) = refl

take-split : (m n p : ℕ) (xs : List ℕ) → p ≡ m + n → take m xs ++ take n (drop m xs) ≡ take p xs
take-split zero n p xs e = ap (λ k. take k xs) (omega arith)
take-split (suc m) n zero xs e = absurd (omega arith)
take-split (suc m) n (suc p) [] e = take_nil n
take-split (suc m) n (suc p) (x ∷ xs) e = ap (◌∷◌ x) (take-split m n p xs (omega arith))

take-take : (w k : ℕ) (xs : List ℕ) → w ≤ k → take w (take k xs) ≡ take w xs
take-take zero k xs h = refl
take-take (suc w) zero xs h = absurd (omega arith)
take-take (suc w) (suc k) [] h = refl
take-take (suc w) (suc k) (x ∷ xs) h = ap (◌∷◌ x) (take-take w k xs (omega arith))

take_all : (n : ℕ) (xs : List ℕ) → length xs ≤ n → take n xs ≡ xs
take_all zero [] h = refl
take_all (suc n) [] h = refl
take_all zero (x ∷ xs) h = absurd (omega arith)
take_all (suc n) (x ∷ xs) h = ap (◌∷◌ x) (take_all n xs (omega arith))

drop_nil : (n : ℕ) → drop {A = ℕ} n [] ≡ []
drop_nil zero = refl
drop_nil (suc n) = refl

drop-min : (m : ℕ) (xs : List ℕ) → drop (min m (length xs)) xs ≡ drop m xs
drop-min zero xs = ap (λ k. drop k xs) min_zero
  where
    min_zero : min 0 (length xs) ≡ 0
    min_zero = omega arith
drop-min (suc m) [] = drop_nil (min (suc m) 0)
drop-min (suc m) (x ∷ xs) = ap (λ k. drop k (x ∷ xs)) min_suc ∙ drop-min m xs
  where
    min_suc : min (suc m) (suc (length xs)) ≡ suc (min m (length xs))
    min_suc = omega arith

-- What the round does with the bytes that it has read.
abbrev written : ℕ → List ℕ → Copy → Copy
written accepted buffer c = record {
  position = c.position + length buffer;
  copied = c.copied ++ take (min accepted (length buffer)) buffer;
}

-- The destination has the first bytes of the source, on success those up to the place of reading.
abbrev pub Copies : List ℕ → Result → Type 0
Copies src (success c) = c.copied ≡ take c.position src
Copies src (cut_off c) = (n : ℕ) × (c.copied ≡ take n src)
Copies src not_opened = Unit

written-take :
    (accepted k : ℕ) (src : List ℕ) (c : Copy)
    → c.copied ≡ take c.position src
    → let buffer = take k (drop c.position src) in
      (written accepted buffer c).copied ≡ take (c.position + min accepted (length buffer)) src
written-take accepted k src c h =
    let buffer = take k (drop c.position src) in
    let w = min accepted (length buffer) in
    ap (λ l. l ++ take w buffer) h
    ∙ ap (◌++◌ (take c.position src))
        (take-take w k (drop c.position src) (omega (arith, length-take k (drop c.position src))))
    ∙ take-split c.position w (c.position + w) src refl

module _ (delivers accepts : ℕ → ℕ) (src : List ℕ) (size : ℕ) where
  round-Copies :
      (i : ℕ) (c : Copy)
      → c.copied ≡ take c.position src
      → Copies src (copy_round delivers accepts src size i c)
  unfolding copy_round
  round-Copies i c h =
      let buffer = take (min (delivers i) size) (drop c.position src) in
      let wrote = written-take (accepts i) (min (delivers i) size) src c h in
      elim (Bool-cases (ltb 0 (length buffer))) [
        | inr nothing ↦ rw nothing h
        | inl some_bytes ↦
            rw some_bytes (elim (Bool-cases (min (accepts i) (length buffer) == length buffer)) [
              | inl all ↦ rw all (wrote ∙ ap (λ k. take (c.position + k) src) (ground arith))
              | inr short ↦ rw short (c.position + min (accepts i) (length buffer), wrote)
            ])
      ]

  loop-Copies :
      (rounds i : ℕ) (c : Copy)
      → c.copied ≡ take c.position src
      → Copies src (copy_loop delivers accepts src size rounds i c)
  unfolding copy_loop
  loop-Copies zero i c h = h
  loop-Copies (suc rounds) i c h =
      go (copy_round delivers accepts src size i c) (round-Copies i c h)
        (λ c' h'. loop-Copies rounds (suc i) c' h')
    where
      go :
          (r : Result)
          → Copies src r
          → ((c' : Copy)
              → c'.copied ≡ take c'.position src
              → Copies src (copy_loop delivers accepts src size rounds (suc i) c'))
          → Copies src (elim r [
            | success c' ↦ copy_loop delivers accepts src size rounds (suc i) c'
            | cut_off c' ↦ cut_off c'
            | not_opened ↦ not_opened
          ])
      go (success c') h' next = next c' h'
      go (cut_off c') h' next = h'
      go not_opened h' next = tt

-- In both copying functions, whichever reads fail or come up short, and whichever write is cut off:
-- what the destination holds is the beginning of the source, up to the place of reading on success.
pub copy-Copies :
    (delivers accepts : ℕ → ℕ) (src_opens dst_opens : Bool) (src : List ℕ) (records buffer_size : ℕ)
    → Copies src (copy_sys delivers accepts src_opens dst_opens src records buffer_size)
      × Copies src (copy_lib delivers accepts src_opens dst_opens src records buffer_size)
unfolding copy_sys copy_lib
copy-Copies delivers accepts false dst_opens src records buffer_size = (tt, tt)
copy-Copies delivers accepts true false src records buffer_size = (tt, tt)
copy-Copies delivers accepts true true src records buffer_size =
    let from_start =
      loop-Copies delivers accepts src buffer_size records 0 (record { position = 0; copied = [] })
        refl in
    (from_start, from_start)

-- `copied` after the bytes of `m`, as far as the source has them.
abbrev up_to : List ℕ → ℕ → Copy
up_to src m = record { position = min m (length src); copied = take m src }

abbrev after : ℕ → List ℕ → Result
after position copied = success (record { position = position; copied = copied })

-- A write that takes all the bytes.
wrote_all :
    (accepted pos pos' : ℕ) (buffer old new : List ℕ)
    → length buffer ≤ accepted
    → pos + length buffer ≡ pos'
    → old ++ buffer ≡ new
    → (if ltb 0 (length buffer)
        then if min accepted (length buffer) == length buffer
          then success (written accepted buffer (record { position = pos; copied = old }))
          else cut_off (written accepted buffer (record { position = pos; copied = old }))
        else after pos old)
      ≡ after pos' new
wrote_all accepted pos pos' [] old new fits e e' =
    ap (λ k. after k old) (omega (arith, e)) ∙ ap (after pos') (sym (append-nil old) ∙ e')
wrote_all accepted pos pos' (x ∷ buffer) old new fits e e' =
    rw (some_bytes, all_fit)
      (ap (λ k. after k (old ++ take (min accepted (suc (length buffer))) (x ∷ buffer))) e
        ∙ ap (λ l. after pos' (old ++ l))
            (take_all (min accepted (suc (length buffer))) (x ∷ buffer) (omega (arith, fits)))
        ∙ ap (after pos') e')
  where
    some_bytes : ltb 0 (suc (length buffer)) ≡ true
    some_bytes = ground arith

    all_fit : (min accepted (suc (length buffer)) == suc (length buffer)) ≡ true
    all_fit = ground arith

module _ (delivers accepts : ℕ → ℕ) (src : List ℕ) (size : ℕ)
    (reads_all : (i : ℕ) → size ≤ delivers i) (writes_all : (i : ℕ) → size ≤ accepts i) where
  full_round :
      (i m : ℕ)
      → copy_round delivers accepts src size i (up_to src m) ≡ success (up_to src (m + size))
  unfolding copy_round
  full_round i m =
      let k = min (delivers i) size in
      let whole : k ≡ size = omega (arith, reads_all i) in
      let rest = drop (min m (length src)) src in
      let got : take k rest ≡ take size (drop m src) =
        ap (λ n. take n rest) whole ∙ ap (take size) (drop-min m src) in
      wrote_all (accepts i) (min m (length src)) (min (m + size) (length src)) (take k rest)
        (take m src) (take (m + size) src) (omega (arith, length-take k rest, whole, writes_all i))
        (omega (arith, length-take k rest, whole, length-drop (min m (length src)) src))
        (ap (◌++◌ (take m src)) got ∙ take-split m size (m + size) src refl)

  full_loop :
      (rounds i m : ℕ)
      → copy_loop delivers accepts src size rounds i (up_to src m)
        ≡ success (up_to src (m + rounds * size))
  unfolding copy_loop
  full_loop zero i m = ap (λ k. success (up_to src k)) (omega arith)
  full_loop (suc rounds) i m =
      rw (copy_loop, full_round i m)
        (full_loop rounds (suc i) (m + size) ∙ ap (λ k. success (up_to src k)) (omega arith))

-- If both files open, and no read or write comes up short before the end of the source, the copy
-- succeeds, and the destination holds the first `records * buffer_size` bytes of the source.
copy_sys-success :
    (delivers accepts : ℕ → ℕ) (src : List ℕ) (records buffer_size : ℕ)
    → ((i : ℕ) → buffer_size ≤ delivers i)
    → ((i : ℕ) → buffer_size ≤ accepts i)
    → copy_sys delivers accepts true true src records buffer_size
      ≡ success (record {
        position = min (records * buffer_size) (length src);
        copied = take (records * buffer_size) src;
      })
unfolding copy_sys
copy_sys-success delivers accepts src records buffer_size reads_all writes_all =
    ap (λ k. copy_loop delivers accepts src buffer_size records 0 (start k)) none_yet
    ∙ full_loop delivers accepts src buffer_size reads_all writes_all records 0 0
    ∙ ap (λ k. success (up_to src k)) (omega arith)
  where
    start : ℕ → Copy
    start k = record { position = k; copied = [] }

    none_yet : 0 ≡ min 0 (length src)
    none_yet = omega arith
