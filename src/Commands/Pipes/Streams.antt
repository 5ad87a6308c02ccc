-- ===== src/Commands/Pipes/Streams.antt =====
-- What the standard streams of a child lead to.
use op_sys.Common.{
  ℕ, suc, ◌+◌, ◌-◌, ◌*◌, ◌≤◌, ◌<◌, ◌≡◌, ◌≢◌, ◌∙◌, ap, sym, refl, Bool, true, false, ◌&&◌, none,
  some, List, arith, ltb, if◌then◌else◌,
}
use op_sys.Commands.Pipes.{
  std, read_end, write_end, Table, started_with, dup2, has_program, open_pipes, close_all, executes,
  child,
}
use op_sys.Commands.Pipes.Wiring.{
  AreNew, update_same, update_other, close_all-other, close_all-own, open_pipes-other,
  open_pipes-ends,
}

and_false : (b : Bool) → (b && false) ≡ false
and_false true = refl
and_false false = refl

module _ (fds : ℕ → ℕ) (new : AreNew fds) where
  not_std : (a : ℕ) → a ≤ 2 → (j : ℕ) → fds j ≢ a
  not_std a h j e = absurd (omega (arith, new.above j, e, h))

  abbrev pub out_table : Bool → ℕ → Table → Table
  out_table has_next c t = if has_next then dup2 (fds (c * 2 + 1)) 1 t else t

  abbrev pub in_table : Bool → ℕ → Table → Table
  in_table has_previous c t = if has_previous then dup2 (fds ((c - 1) * 2)) 0 t else t

  -- Redirecting one stream leaves the other descriptors alone.
  out_table-other : (b : Bool) (c a : ℕ) (t : Table) → 1 ≢ a → out_table b c t a ≡ t a
  out_table-other true c a t h = update_other t 1 a (t (fds (c * 2 + 1))) h
  out_table-other false c a t h = refl

  in_table-other : (b : Bool) (c a : ℕ) (t : Table) → 0 ≢ a → in_table b c t a ≡ t a
  in_table-other true c a t h = update_other t 0 a (t (fds ((c - 1) * 2))) h
  in_table-other false c a t h = refl

  module _ (opens : ℕ → Bool) (total : ℕ) (t : Table)
      (opened : open_pipes fds opens total 0 started_with ≡ some t) where
    inherited : (a : ℕ) → a ≤ 2 → t a ≡ some (std a)
    inherited a h =
        open_pipes-other fds new opens total 0 a started_with t opened (λ j _. not_std a h j)
        ∙ std_at
      where
        std_at : started_with a ≡ some (std a)
        std_at = ground arith

    out_stream :
        (b : Bool) (c : ℕ) → c < total → out_table b c t 1 ≡ some (if b then write_end c else std 1)
    out_stream true c h =
        update_same t 1 1 (t (fds (c * 2 + 1))) refl
        ∙ ap (λ k. t (fds k)) (omega arith)
        ∙ (open_pipes-ends fds new opens total 0 c started_with t opened (omega arith)
            (omega arith)).1
    out_stream false c h = inherited 1 (omega arith)

    in_stream :
        (b b' : Bool) (c : ℕ)
        → c < total
        → in_table b c (out_table b' c t) 0 ≡ some (if b then read_end (c - 1) else std 0)
    in_stream true b' c h =
        let k = fds ((c - 1) * 2) in
        update_same (out_table b' c t) 0 0 (out_table b' c t k) refl
        ∙ out_table-other b' c k t (λ e. not_std 1 (omega arith) ((c - 1) * 2) (sym e))
        ∙ ap (λ j. t (fds j)) (omega arith)
        ∙ (open_pipes-ends fds new opens total 0 (c - 1) started_with t opened (omega arith)
            (omega arith)).0
    in_stream false b' c h =
        out_table-other b' c 0 t (λ e. absurd (omega (arith, e))) ∙ inherited 0 (omega arith)

-- Program `c` of `n`, where the calls of `pipe`, `fork` and `dup2` succeed: its input is the read end of
-- the pipe that the program before it writes to, its output the write end of its own pipe; the first
-- reads the input of the interpreter, the last writes to its output. All other descriptors of pipes are
-- closed.
pub child-streams :
    (fds : ℕ → ℕ) (opens : ℕ → Bool) (pargs : List (List (List ℕ))) (n total c : ℕ) (t : Table)
    → AreNew fds
    → open_pipes fds opens total 0 started_with ≡ some t
    → ((i : ℕ) → has_program pargs i ≡ ltb i n)
    → n ≤ total
    → c < n
    → (u : Table) × (child fds pargs total c true true t ≡ executes u)
      × (u 0 ≡ some (if ltb 0 c then read_end (c - 1) else std 0))
      × (u 1 ≡ some (if ltb (suc c) n then write_end c else std 1))
      × ((i : ℕ) → i < 2 * total → u (fds i) ≡ none)
unfolding child
child-streams fds opens pargs n total c t new opened counts few below =
    let b = has_program pargs (suc c) in
    let u = close_all fds (2 * total) 0 (in_table fds new (ltb 0 c) c (out_table fds new b c t)) in
    (
      u,
      rw (child, and_false b, and_false (ltb 0 c)) refl,
      close_all-other fds new (2 * total) 0 0
            (in_table fds new (ltb 0 c) c (out_table fds new b c t))
            (not_std fds new 0 (omega arith))
          ∙ in_stream fds new opens total t opened (ltb 0 c) b c (omega arith),
      close_all-other fds new (2 * total) 0 1
            (in_table fds new (ltb 0 c) c (out_table fds new b c t))
            (not_std fds new 1 (omega arith))
          ∙ in_table-other fds new (ltb 0 c) c 1 (out_table fds new b c t)
              (λ e. absurd (omega (arith, e)))
          ∙ out_stream fds new opens total t opened b c (omega arith)
          ∙ ap (λ b'. some (if b' then write_end c else std 1)) (counts (suc c)),
      λ i h.
          close_all-own fds new (2 * total) 0 i
            (in_table fds new (ltb 0 c) c (out_table fds new b c t)) (omega arith) (omega arith),
    )
