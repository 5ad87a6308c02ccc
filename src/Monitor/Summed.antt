-- ===== src/Monitor/Summed.antt =====
-- How many lines the cells hold, and the consumers have taken.
use op_sys.Common.{
  ℕ, zero, suc, ◌+◌, ◌≤◌, ◌<◌, ◌≡◌, Bool, List, [], ◌∷◌, ◌++◌, refl, ap, arith, dec_lt,
}
use op_sys.Buffer.{Cell, empty, raw, full, update}
use op_sys.Buffer.Accounted.{number, number-append}
use op_sys.Monitor.{
  wake_up, read, end_of_file, enter, see_full, wait, enter_again, claim, lock, allocate, copy,
  announce, unlock, leave, see_empty, stop, go_to_sleep, pick, release, take_line, Producer,
  Consumer, System, Produce, Consume,
}
use op_sys.Monitor.Owned.{Blank, Owns, Held}

module _ (test : List ℕ → Bool) where
  -- The lines in cells that meet the test.
  abbrev pub worth : Cell → ℕ
  worth (full l) = number test (l ∷ [])
  worth _ = 0

  abbrev pub filled : (ℕ → Cell) → ℕ → ℕ
  filled cells zero = 0
  filled cells (suc k) = worth (cells k) + filled cells k

  abbrev pub worths : List Cell → ℕ
  worths [] = 0
  worths (c ∷ cs) = worth c + worths cs

  worths-append : (xs ys : List Cell) → worths (xs ++ ys) ≡ worths xs + worths ys
  worths-append [] ys = omega arith
  worths-append (x ∷ xs) ys = omega (arith, worths-append xs ys)

  filled-away :
      (cells : ℕ → Cell) (i : ℕ) (c : Cell) (k : ℕ)
      → k ≤ i
      → filled (update cells i c) k ≡ filled cells k
  filled-away cells i c zero h = refl
  filled-away cells i c (suc k) h = ground (arith, filled-away cells i c k)

  filled-update :
      (cells : ℕ → Cell) (i : ℕ) (c : Cell) (k : ℕ)
      → i < k
      → filled (update cells i c) k + worth (cells i) ≡ filled cells k + worth c
  filled-update cells i c zero h = absurd (omega arith)
  filled-update cells i c (suc k) h = elim (dec_lt i k) [
    | yes p ↦ ground (arith, filled-update cells i c k p, p)
    | no p ↦
        (let e : i ≡ k = omega arith in
          ground (arith, filled-away cells i c k (omega arith), ap (λ j. worth (cells j)) e, e))
  ]

  worth_zero : (c : Cell) → Blank c → worth c ≡ 0
  worth_zero c h = ground (arith, h)

  abbrev pub Kept : ℕ → System → Type 0
  Kept n s = number test s.stored ≡ worths s.taken + filled s.cells n

  raw_kept :
      (cells : ℕ → Cell) (i n : ℕ)
      → i < n
      → Blank (cells i)
      → filled (update cells i raw) n ≡ filled cells n
  raw_kept cells i n h b = omega (arith, filled-update cells i raw n h, worth_zero (cells i) b)

  full_kept :
      (cells : ℕ → Cell) (i n : ℕ) (l : List ℕ)
      → i < n
      → Blank (cells i)
      → filled (update cells i (full l)) n ≡ filled cells n + number test (l ∷ [])
  full_kept cells i n l h b =
      omega (arith, filled-update cells i (full l) n h, worth_zero (cells i) b)

  pub Produce-Kept :
      {n a : ℕ} {s t : System} {p : Producer}
      → Produce n s a p t
      → Owns s.prod_mutex s.cells n a p
      → Kept n s
      → Kept n t
  Produce-Kept (read e) h k = k
  Produce-Kept (end_of_file e) h k = k
  Produce-Kept (enter e) h k = k
  Produce-Kept (see_full e) h k = k
  Produce-Kept wait h k = k
  Produce-Kept wake_up h k = k
  Produce-Kept (enter_again e) h k = k
  Produce-Kept (claim e) h k = k
  Produce-Kept (lock e) h k = k
  Produce-Kept {n} {s = s} (allocate {i} {l}) h k = omega (arith, raw_kept s.cells i n h.1 h.2, k)
  Produce-Kept {n} {s = s} (copy {i} {l}) h k =
      omega (arith, full_kept s.cells i n l h.1 h.2, number-append test s.stored (l ∷ []), k)
  Produce-Kept announce h k = k
  Produce-Kept unlock h k = k
  Produce-Kept leave h k = k

  pub Consume-Kept :
      {n a : ℕ} {s t : System} {c : Consumer} → Consume n s a c t → Held n c → Kept n s → Kept n t
  Consume-Kept (enter e) h k = k
  Consume-Kept (see_empty e) h k = k
  Consume-Kept (stop e) h k = k
  Consume-Kept (go_to_sleep e) h k = k
  Consume-Kept wait h k = k
  Consume-Kept wake_up h k = k
  Consume-Kept (enter_again e) h k = k
  Consume-Kept (pick e) h k = k
  Consume-Kept (lock e) h k = k
  Consume-Kept release h k = k
  Consume-Kept {n} {s = s} (take_line {i}) h k =
      omega (arith, filled-update s.cells i empty n h, worths-append s.taken (s.cells i ∷ []), k)
  Consume-Kept announce h k = k
  Consume-Kept unlock h k = k
