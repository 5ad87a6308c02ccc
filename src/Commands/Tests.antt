-- ===== src/Commands/Tests.antt =====
-- Runs of the interpreters, and their theorems at concrete lines.
use op_sys.Common.{
  length, ℕ, ◌+◌, ◌*◌, ◌≡◌, ◌<◌, refl, true, Bool, Option, none, some, List, [], ◌∷◌, ◌++◌, map,
  arith, ltb, if◌then◌else◌, replicate,
}
use op_sys.Commands.{tokenize, tokenize_into, scan_loop, scan_char}
use op_sys.Commands.Trimmed.{NoZero}
use op_sys.Commands.Printed.{AreWords, Word, plain, quoted, text, print_line}
use op_sys.Commands.Words.{tokenize-print_line}
use op_sys.Commands.Pipes.{
  End, update, Table, std, read_end, write_end, executes, child, open_pipes, started_with,
}
use op_sys.Commands.Pipes.Wiring.{AreNew}
use op_sys.Commands.Pipes.Streams.{child-streams}
use op_sys.Commands.Lines.{Calls, interpret, run_line, ran}
use op_sys.Commands.Lines.Started.{
  Written, line_of, interpret-line_of, run_line-started, has_program-ltb, range,
}
use op_sys.Commands.Batch.{Fork, with_child, no_child, run_batch}
use op_sys.Commands.Batch.Stopped.{Line, IsLine, in_array, with_command, Stops, run_batch-Stops}

-- ls "a b" | wc
abbrev ls_words : List Word
ls_words =
    plain (b'l' ∷ b's' ∷ [])
    ∷ quoted (b'a' ∷ b' ' ∷ b'b' ∷ [])
    ∷ plain (b'|' ∷ [])
    ∷ plain (b'w' ∷ b'c' ∷ [])
    ∷ []

abbrev ls_program : List (List ℕ)
ls_program = (b'l' ∷ b's' ∷ []) ∷ (b'a' ∷ b' ' ∷ b'b' ∷ []) ∷ []

abbrev wc_program : List (List ℕ)
wc_program = (b'w' ∷ b'c' ∷ []) ∷ []

-- A space in front, a newline behind, and the rest of the array.
abbrev garbage : List ℕ
garbage = replicate 8 0

abbrev two_programs : List (List (List ℕ))
two_programs = ls_program ∷ wc_program ∷ replicate 5 []

tokenize_runs : tokenize (print_line ls_words) ≡ some (map text ls_words)
unfolding tokenize tokenize_into scan_loop scan_char
tokenize_runs = refl

ls_words-AreWords : AreWords ls_words
ls_words-AreWords = (
  (omega arith, (refl, (refl, tt)), omega arith),
  (
    ((refl, (refl, (refl, tt))), omega arith),
    ((omega arith, (refl, tt), omega arith), ((omega arith, (refl, (refl, tt)), omega arith), tt)),
  ),
)

tokenize-print_line_example : tokenize (print_line ls_words) ≡ some (map text ls_words)
tokenize-print_line_example = tokenize-print_line ls_words ls_words-AreWords (omega arith)

ls-Written : Written (b' ' ∷ []) (10 ∷ []) garbage ls_words ls_program (wc_program ∷ [])
ls-Written = record {
  before = (refl, tt);
  behind = (refl, tt);
  no_zero = no_zeros;
  trimmed = (refl, refl);
  room = omega arith;
  words = ls_words-AreWords;
  few_words = omega arith;
  pipeline = refl;
  all_programs = (
    (((refl, omega arith), ((refl, omega arith), tt)), omega arith),
    ((((refl, omega arith), tt), omega arith), tt),
  );
  few_programs = omega arith;
}
  where
    no_zeros : NoZero (print_line ls_words)
    no_zeros = (
      omega arith,
      (
        omega arith,
        (
          omega arith,
          (
            omega arith,
            (
              omega arith,
              (
                omega arith,
                (
                  omega arith,
                  (
                    omega arith,
                    (omega arith, (omega arith, (omega arith, (omega arith, (omega arith, tt))))),
                  ),
                ),
              ),
            ),
          ),
        ),
      ),
    )

interpret-line_of_example :
    interpret (line_of (b' ' ∷ []) (10 ∷ []) garbage ls_words)
    ≡ some (1, ls_program ∷ (wc_program ∷ []) ++ replicate 5 [])
interpret-line_of_example =
    interpret-line_of (b' ' ∷ []) (10 ∷ []) garbage ls_words ls_program (wc_program ∷ []) ls-Written

-- Descriptors from 3 on; all calls succeed.
abbrev from_three : ℕ → ℕ
from_three i = i + 3

abbrev always : ℕ → Bool
always i = true

abbrev calls : Calls
calls = record { fds = from_three; opens = always; forks = always; ends_first = length }

from_three-AreNew : AreNew from_three
from_three-AreNew = record { distinct = λ i j e. omega (arith, e); above = λ i. omega arith }

run_line-started_example :
    (t : Table) × (run_line calls [] (line_of (b' ' ∷ []) (10 ∷ []) garbage ls_words)
      ≡ some (ran (range 0 2) [] t))
    × ((i : ℕ) → i < 2 * 2 → t (from_three i) ≡ none)
run_line-started_example =
    run_line-started calls (b' ' ∷ []) (10 ∷ []) garbage ls_words ls_program (wc_program ∷ [])
      ls-Written (omega arith, (omega arith, tt)) (λ i. refl) (λ i. refl) from_three-AreNew

-- The table after the two calls of `pipe`.
abbrev two_pipes : Table
two_pipes =
    let put : Table → ℕ → Option End → Table = update in
    put
      (put (put (put started_with 3 (some (read_end 0))) 4 (some (write_end 0))) 5
        (some (read_end 1)))
      6 (some (write_end 1))

two_pipes_open : open_pipes from_three always 2 0 started_with ≡ some two_pipes
unfolding open_pipes
two_pipes_open = refl

child-streams_example :
    (u : Table) × (child from_three two_programs 2 1 true true two_pipes ≡ executes u)
    × (u 0 ≡ some (if ltb 0 1 then read_end 0 else std 0))
    × (u 1 ≡ some (if ltb 2 2 then write_end 1 else std 1))
    × ((i : ℕ) → i < 2 * 2 → u (from_three i) ≡ none)
child-streams_example =
    child-streams from_three always two_programs 2 2 1 two_pipes from_three-AreNew two_pipes_open
      (λ i. has_program-ltb (ls_program ∷ wc_program ∷ []) 5 i (omega arith, (omega arith, tt)))
      (omega arith) (omega arith)

-- A line with one command.
abbrev line_with : Word → Line
line_with w = record { before = []; words = w ∷ []; behind = 10 ∷ []; rest = [] }

abbrev true_line : Line
true_line = line_with (plain (b't' ∷ []))

abbrev false_line : Line
false_line = line_with (plain (b'f' ∷ []))

true_line-IsLine : IsLine true_line
true_line-IsLine = record {
  spaces = (tt, (refl, tt));
  no_zero = (omega arith, tt);
  trimmed = (refl, refl);
  room = omega arith;
  are_words = ((omega arith, (refl, tt), omega arith), tt);
  few = omega arith;
}

false_line-IsLine : IsLine false_line
false_line-IsLine = record {
  spaces = (tt, (refl, tt));
  no_zero = (omega arith, tt);
  trimmed = (refl, refl);
  room = omega arith;
  are_words = ((omega arith, (refl, tt), omega arith), tt);
  few = omega arith;
}

-- No child is made for the second command, and the third fails.
abbrev four_lines : List (Fork × Line)
four_lines =
    (with_child 0, true_line)
    ∷ (no_child 0, true_line)
    ∷ (with_child 256, false_line)
    ∷ (with_child 0, true_line)
    ∷ []

run_batch-Stops_example :
    (code : ℕ) × (ran : List (List (List ℕ))) × (run_batch (map in_array four_lines)
      ≡ some (code, ran))
    × Stops (map with_command four_lines) code ran
run_batch-Stops_example =
    run_batch-Stops four_lines
      (true_line-IsLine, (true_line-IsLine, (false_line-IsLine, (true_line-IsLine, tt))))
