-- ===== src/Commands/Batch.antt =====
-- lab3_processes/batch_job_interpreter/cmd_interpreter.c: one command on each line, run one after the
-- other. Its `trim_whitespace` is the one of cmd_interpreter_extd.c, and so is its `tokenize`, with an
-- array for one command.
pub mod Stopped
use mathlib.Core.Option
use op_sys.Common.{ℕ, ◌+◌, Bool, true, false, Option, none, some, List, [], ◌∷◌, take, strlen, ◌==◌}
use op_sys.Commands.{trim_whitespace, tokenize_into, max_args}

-- The program and its arguments, from the array of the line.
unfoldable pub command_of : List ℕ → Option (List (List ℕ))
command_of line = elim (trim_whitespace line) [
  | none ↦ none
  | some str ↦ tokenize_into (max_args + 2) (take (strlen str) str)
]

-- What `fork` and `waitpid` do for a line: a child runs the command, or cannot, and ends with a status,
-- or `fork` returns -1, there is no child to wait for, and `cstat` is what the stack holds.
pub data Fork : Type 0 where
  with_child : (cstat : ℕ) → Fork
  no_child : (cstat : ℕ) → Fork

abbrev pub cstat_of : Fork → ℕ
cstat_of (with_child cstat) = cstat
cstat_of (no_child cstat) = cstat

-- The commands that a child was made for.
abbrev pub made : Fork → List (List ℕ) → List (List (List ℕ)) → List (List (List ℕ))
made (with_child cstat) args ran = args ∷ ran
made (no_child cstat) args ran = ran

-- The exit code of the interpreter, and the commands that children were made for.
unfoldable pub run_batch : List (Fork × List ℕ) → Option (ℕ × List (List (List ℕ)))
unfolding command_of
run_batch [] = some (0, [])
run_batch ((fork, line) ∷ lines) = elim (command_of line) [
  | none ↦ none
  | some args ↦ elim (cstat_of fork == 0) [
    | false ↦ some (3, made fork args [])
    | true ↦ Option.map (λ (code, ran). (code, made fork args ran)) (run_batch lines)
  ]
]
