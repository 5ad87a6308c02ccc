-- ===== src/Commands/Lines.antt =====
-- `main` of cmd_interpreter_extd.c: the lines of the file, one after the other. Which calls of `pipe` and
-- `fork` succeed for a line, and which child ends first, is left open.
pub mod Started
use op_sys.Common.{
  ℕ, zero, suc, Bool, true, false, Option, none, some, List, [], ◌∷◌, length, take, strlen, ◌==◌,
  ◌*◌, ◌+◌, ◌%◌, ◌++◌,
}
use op_sys.Commands.{trim_whitespace, tokenize, programs, max_progs_piped}
use op_sys.Commands.Pipes.{Table, has_program, open_pipes, close_all, started_with}

-- From the array of the line to the number of the last program and the arguments of all.
unfoldable pub interpret : List ℕ → Option (ℕ × List (List (List ℕ)))
interpret line = elim (trim_whitespace line) [
  | none ↦ none
  | some str ↦ elim (tokenize (take (strlen str) str)) [
    | none ↦ none
    | some tokens ↦ programs tokens
  ]
]

-- `ends_first` chooses among the children that have not been waited for, as their place in the list.
pub record Calls : Type 0 where
  pub fds : ℕ → ℕ
  pub opens : ℕ → Bool
  pub forks : ℕ → Bool
  pub ends_first : List ℕ → ℕ

-- The programs for which children were made, or the exit code.
pub data Launched : Type 0 where
  started : List ℕ → Launched
  stops : ℕ → Launched

abbrev pub with_child : ℕ → Launched → Launched
with_child currp (started children) = started (currp ∷ children)
with_child currp (stops code) = stops code

-- `while (*pargs[currp])`; the last array stays empty.
unfoldable pub start_programs : (ℕ → Bool) → List (List (List ℕ)) → ℕ → ℕ → Launched
start_programs forks pargs zero currp = started []
start_programs forks pargs (suc rounds) currp = elim (has_program pargs currp) [
  | false ↦ started []
  | true ↦ elim (forks currp) [
    | false ↦ stops 4
    | true ↦ with_child currp (start_programs forks pargs rounds (suc currp))
  ]
]

abbrev pub remove_at : ℕ → List ℕ → List ℕ
remove_at i [] = []
remove_at zero (c ∷ children) = children
remove_at (suc i) (c ∷ children) = c ∷ remove_at i children

-- `wait(NULL)` takes the child that ends first; without children it returns -1.
abbrev pub wait : (List ℕ → ℕ) → List ℕ → List ℕ
wait ends_first children = remove_at (ends_first children % length children) children

-- `for (int i = 0; i < totalProgs; i++) wait(NULL);`
unfoldable pub wait_for : (List ℕ → ℕ) → ℕ → List ℕ → List ℕ
wait_for ends_first zero children = children
wait_for ends_first (suc rounds) children = wait_for ends_first rounds (wait ends_first children)

-- What a line comes to: the programs that were started, the children not waited for, and the
-- descriptors of the interpreter, or the exit code.
pub data Ran : Type 0 where
  ran : (programs : List ℕ) (left : List ℕ) → Table → Ran
  exits : ℕ → Ran

-- Behind the loop that starts the programs.
abbrev pub finish : Calls → ℕ → List ℕ → Table → Launched → Ran
finish calls total_progs before t (stops code) = exits code
finish calls total_progs before t (started children) =
    ran children (wait_for calls.ends_first total_progs (before ++ children))
      (close_all calls.fds (2 * total_progs) 0 t)

-- `before` are the children of earlier lines that have not been waited for.
unfoldable pub run_line : Calls → List ℕ → List ℕ → Option Ran
unfolding interpret start_programs wait_for
run_line calls before line = elim (interpret line) [
  | none ↦ none
  | some (prog, pargs) ↦ elim (open_pipes calls.fds calls.opens (suc prog) 0 started_with) [
    | none ↦ some (exits 3)
    | some t ↦ some (
        finish calls (suc prog) before t (start_programs calls.forks pargs (suc max_progs_piped) 0))
  ]
]

-- The exit code of the interpreter.
unfoldable pub run_lines : List (Calls × List ℕ) → List ℕ → Option ℕ
unfolding run_line
run_lines [] before = some 0
run_lines ((calls, line) ∷ lines) before = elim (run_line calls before line) [
  | none ↦ none
  | some r ↦ elim r [ ran _ left _ ↦ run_lines lines left | exits code ↦ some code ]
]
