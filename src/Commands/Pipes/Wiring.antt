-- ===== src/Commands/Pipes/Wiring.antt =====
-- Each program of a pipeline reads what the one before it writes, and holds no other pipe.
use op_sys.Common.{
  ℕ, zero, suc, ◌+◌, ◌*◌, ◌≤◌, ◌<◌, ◌≡◌, ◌≢◌, ◌∙◌, ap, sym, refl, Bool, Option, none, some, arith,
  ◌==◌, Bool-cases, inl, inr,
}
use op_sys.Commands.Pipes.{End, read_end, write_end, Table, update, open_pipes, close_all}

pub update_same : (t : Table) (fd a : ℕ) (e : Option End) → fd ≡ a → update t fd e a ≡ e
update_same t fd a e h = ground arith

pub update_other : (t : Table) (fd a : ℕ) (e : Option End) → fd ≢ a → update t fd e a ≡ t a
update_other t fd a e h = ground arith

none-ne-some : (t : Table) → none ≢ some t
none-ne-some t e = absurd cc

-- What `pipe` promises: new numbers, none of them those of the standard streams.
pub record AreNew (fds : ℕ → ℕ) : Type 0 where
  pub distinct : (i j : ℕ) → fds i ≡ fds j → i ≡ j
  pub above : (i : ℕ) → 2 < fds i

module _ (fds : ℕ → ℕ) (new : AreNew fds) where
  pub close_all-other :
      (rounds i a : ℕ) (t : Table) → ((j : ℕ) → fds j ≢ a) → close_all fds rounds i t a ≡ t a
  unfolding close_all
  close_all-other zero i a t h = refl
  close_all-other (suc rounds) i a t h =
      close_all-other rounds (suc i) a (update t (fds i) none) h
      ∙ update_other t (fds i) a none (h i)

  close_all-none : (rounds i a : ℕ) (t : Table) → t a ≡ none → close_all fds rounds i t a ≡ none
  unfolding close_all
  close_all-none zero i a t h = h
  close_all-none (suc rounds) i a t h =
      close_all-none rounds (suc i) a (update t (fds i) none)
        (elim (Bool-cases (fds i == a)) [ inl same ↦ rw same refl | inr other ↦ rw other h ])

  pub close_all-own :
      (rounds i j : ℕ) (t : Table)
      → i ≤ j
      → j < i + rounds
      → close_all fds rounds i t (fds j) ≡ none
  unfolding close_all
  close_all-own zero i j t h k = absurd (omega arith)
  close_all-own (suc rounds) i j t h k = elim (Bool-cases (i == j)) [
    | inl same ↦
        close_all-none rounds (suc i) (fds j) (update t (fds i) none)
          (update_same t (fds i) (fds j) none (ap fds (ground arith)))
    | inr other ↦
        close_all-own rounds (suc i) j (update t (fds i) none) (ground arith) (omega arith)
  ]

  abbrev after_pipe : ℕ → Table → Table
  after_pipe i t =
      update (update t (fds (2 * i)) (some (read_end i))) (fds (2 * i + 1)) (some (write_end i))

  -- The pipes from number `i` on touch their own descriptors only.
  pub open_pipes-other :
      (opens : ℕ → Bool) (rounds i a : ℕ) (t t' : Table)
      → open_pipes fds opens rounds i t ≡ some t'
      → ((j : ℕ) → 2 * i ≤ j → fds j ≢ a)
      → t' a ≡ t a
  unfolding open_pipes
  open_pipes-other opens zero i a t t' e h = sym (ap (λ o. elim o [ none ↦ none | some u ↦ u a ]) e)
  open_pipes-other opens (suc rounds) i a t t' e h = elim (Bool-cases (opens i)) [
    | inr fails ↦ absurd (none-ne-some t' (rw (open_pipes, fails) at e))
    | inl opened ↦
        open_pipes-other opens rounds (suc i) a (after_pipe i t) t' (rw (open_pipes, opened) at e)
          (λ j far. h j (omega arith))
        ∙ update_other (update t (fds (2 * i)) (some (read_end i))) (fds (2 * i + 1)) a
            (some (write_end i)) (h (2 * i + 1) (omega arith))
        ∙ update_other t (fds (2 * i)) a (some (read_end i)) (h (2 * i) (omega arith))
  ]

  apart : (j k : ℕ) → j ≢ k → fds j ≢ fds k
  apart j k h e = h (new.distinct j k e)

  -- Both ends of pipe `k` are at their places.
  pub open_pipes-ends :
      (opens : ℕ → Bool) (rounds i k : ℕ) (t t' : Table)
      → open_pipes fds opens rounds i t ≡ some t'
      → i ≤ k
      → k < i + rounds
      → (t' (fds (2 * k)) ≡ some (read_end k)) × (t' (fds (2 * k + 1)) ≡ some (write_end k))
  unfolding open_pipes
  open_pipes-ends opens zero i k t t' e h h' = absurd (omega arith)
  open_pipes-ends opens (suc rounds) i k t t' e h h' = elim (Bool-cases (opens i)) [
    | inr fails ↦ absurd (none-ne-some t' (rw (open_pipes, fails) at e))
    | inl opened ↦ elim (Bool-cases (i == k)) [
      | inr other ↦
          open_pipes-ends opens rounds (suc i) k (after_pipe i t) t' (rw (open_pipes, opened) at e)
            (ground arith) (omega arith)
      | inl same ↦ own (ground arith) (rw (open_pipes, opened) at e)
    ]
  ]
    where
      own :
          i ≡ k
          → open_pipes fds opens rounds (suc i) (after_pipe i t) ≡ some t'
          → (t' (fds (2 * k)) ≡ some (read_end k)) × (t' (fds (2 * k + 1)) ≡ some (write_end k))
      own same e' = (
        open_pipes-other opens rounds (suc i) (fds (2 * k)) (after_pipe i t) t' e'
              (λ j far. apart j (2 * k) (omega arith))
            ∙ update_other (update t (fds (2 * i)) (some (read_end i))) (fds (2 * i + 1))
                (fds (2 * k)) (some (write_end i)) (apart (2 * i + 1) (2 * k) (omega arith))
            ∙ update_same t (fds (2 * i)) (fds (2 * k)) (some (read_end i))
                (ap (λ m. fds (2 * m)) same)
            ∙ ap (λ m. some (read_end m)) same,
        open_pipes-other opens rounds (suc i) (fds (2 * k + 1)) (after_pipe i t) t' e'
              (λ j far. apart j (2 * k + 1) (omega arith))
            ∙ update_same (update t (fds (2 * i)) (some (read_end i))) (fds (2 * i + 1))
                (fds (2 * k + 1)) (some (write_end i)) (ap (λ m. fds (2 * m + 1)) same)
            ∙ ap (λ m. some (write_end m)) same,
      )
