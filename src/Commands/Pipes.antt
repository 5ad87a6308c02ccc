-- ===== src/Commands/Pipes.antt =====
-- The pipes between the programs of a line, in `main` of cmd_interpreter_extd.c. A table of file
-- descriptors tells what each one leads to; `fds` is the array that `pipe` fills. Which calls of
-- `pipe`, `fork` and `dup2` succeed is left open.
pub mod Wiring
pub mod Streams
use op_sys.Common.{
  ℕ, zero, suc, ◌+◌, ◌-◌, ◌*◌, Bool, true, false, not, ◌&&◌, Option, none, some, List, [], ◌∷◌, ltb,
  ◌==◌, if◌then◌else◌, get_or,
}

-- `std n` is what descriptor `n` of the interpreter leads to.
pub data End : Type 0 where
  std : ℕ → End
  read_end : ℕ → End
  write_end : ℕ → End

abbrev pub Table : Type 0
Table = ℕ → Option End

abbrev pub update : Table → ℕ → Option End → Table
update t fd e a = if fd == a then e else t a

abbrev pub started_with : Table
started_with a = if ltb a 3 then some (std a) else none

abbrev pub dup2 : ℕ → ℕ → Table → Table
dup2 old new t = update t new (t old)

-- `*pargs[i]` is not NULL.
abbrev pub has_program : List (List (List ℕ)) → ℕ → Bool
has_program pargs i = elim (get_or pargs i []) [ [] ↦ false | _ ∷ _ ↦ true ]

module _ (fds : ℕ → ℕ) where
  -- `pipe(fds + 2 * i)`; `none` is the return of 3.
  unfoldable pub open_pipes : (ℕ → Bool) → ℕ → ℕ → Table → Option Table
  open_pipes opens zero i t = some t
  open_pipes opens (suc rounds) i t = elim (opens i) [
    | false ↦ none
    | true ↦
        open_pipes opens rounds (suc i) (
          update (update t (fds (2 * i)) (some (read_end i))) (fds (2 * i + 1))
            (some (write_end i)))
  ]

  -- `for (…; i < 2 * totalProgs; i++) close(fds[i]);`
  unfoldable pub close_all : ℕ → ℕ → Table → Table
  close_all zero i t = t
  close_all (suc rounds) i t = close_all rounds (suc i) (update t (fds i) none)

  -- The child up to `execvp`, or its exit code.
  pub data Child : Type 0 where
    executes : Table → Child
    ends : ℕ → Child

  unfoldable pub child : List (List (List ℕ)) → ℕ → ℕ → Bool → Bool → Table → Child
  unfolding close_all
  child pargs total_progs currp out_dups in_dups t =
      let t' = if has_program pargs (suc currp) then dup2 (fds (currp * 2 + 1)) 1 t else t in
      let t'' = if ltb 0 currp then dup2 (fds ((currp - 1) * 2)) 0 t' else t' in
      if has_program pargs (suc currp) && not out_dups
      then ends 5
      else if ltb 0 currp && not in_dups
      then ends 6
      else executes (close_all (2 * total_progs) 0 t'')
