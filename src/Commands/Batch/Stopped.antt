-- ===== src/Commands/Batch/Stopped.antt =====
-- A batch stops at its first command that fails.
use op_sys.Common.{
  ℕ, ◌+◌, ◌≤◌, ◌<◌, ◌≡◌, ◌≢◌, refl, some, List, [], ◌∷◌, ◌++◌, map, arith, length, ◌==◌, Bool-cases,
  inl, inr,
}
use op_sys.Commands.{max_args}
use op_sys.Commands.Trimmed.{AllSpace, NoZero, IsTrim, trim_whitespace-Spells}
use op_sys.Commands.Printed.{Word, text, print_line, AreWords}
use op_sys.Commands.Words.{tokenize_into-print_line}
use op_sys.Commands.Lines.Started.{text-Spells, line_of}
use op_sys.Commands.Batch.{Fork, with_child, no_child, cstat_of, made, command_of, run_batch}

-- A command in its line: the spaces before and behind it, and the rest of the array.
pub record Line : Type 0 where
  pub before : List ℕ
  pub words : List Word
  pub behind : List ℕ
  pub rest : List ℕ

abbrev pub array_of : Line → List ℕ
array_of l = line_of l.before l.behind l.rest l.words

abbrev pub command : Line → List (List ℕ)
command l = map text l.words

pub record IsLine (l : Line) : Type 0 where
  pub spaces : AllSpace l.before × AllSpace l.behind
  pub no_zero : NoZero (print_line l.words)
  pub trimmed : IsTrim (print_line l.words)
  pub room : length l.before + (length l.before + length (print_line l.words)) ≤ length (array_of l)
  pub are_words : AreWords l.words
  pub few : length l.words < max_args + 2

command_of-array_of : (l : Line) → IsLine l → command_of (array_of l) ≡ some (command l)
unfolding command_of
command_of-array_of l h =
    let (str, trims, spells) =
      trim_whitespace-Spells l.before (print_line l.words) l.behind l.rest h.spaces.0 h.spaces.1
        h.no_zero h.trimmed h.room in
    rw (command_of, trims, text-Spells str (print_line l.words) h.no_zero spells)
      (tokenize_into-print_line (max_args + 2) l.words h.are_words h.few)

abbrev pub AllSucceed : List (Fork × List (List ℕ)) → Type 0
AllSucceed [] = Unit
AllSucceed ((fork, c) ∷ cs) = (cstat_of fork ≡ 0) × AllSucceed cs

-- The commands for which `fork` succeeds.
abbrev pub forked : List (Fork × List (List ℕ)) → List (List (List ℕ))
forked [] = []
forked ((with_child cstat, c) ∷ cs) = c ∷ forked cs
forked ((no_child cstat, c) ∷ cs) = forked cs

-- All statuses are 0, or those up to the first that is not.
pub data Stops : List (Fork × List (List ℕ)) → ℕ → List (List (List ℕ)) → Type 0 where
  all_ran : {cs : List (Fork × List (List ℕ))} → AllSucceed cs → Stops cs 0 (forked cs)
  stopped :
      (before : List (Fork × List (List ℕ))) (fork : Fork) (c : List (List ℕ))
      (after : List (Fork × List (List ℕ)))
      → AllSucceed before
      → cstat_of fork ≢ 0
      → Stops (before ++ (fork, c) ∷ after) 3 (forked (before ++ (fork, c) ∷ []))

Stops-cons :
    {cs : List (Fork × List (List ℕ))} {ran : List (List (List ℕ))} {code : ℕ} (fork : Fork)
    (c : List (List ℕ))
    → cstat_of fork ≡ 0
    → Stops cs code ran
    → Stops ((fork, c) ∷ cs) code (made fork c ran)
Stops-cons (with_child n) c z (all_ran h) = all_ran (z, h)
Stops-cons (no_child n) c z (all_ran h) = all_ran (z, h)
Stops-cons (with_child n) c z (stopped before f d after h ne) =
    stopped ((with_child n, c) ∷ before) f d after (z, h) ne
Stops-cons (no_child n) c z (stopped before f d after h ne) =
    stopped ((no_child n, c) ∷ before) f d after (z, h) ne

Stops-here :
    (fork : Fork) (c : List (List ℕ)) (cs : List (Fork × List (List ℕ)))
    → cstat_of fork ≢ 0
    → Stops ((fork, c) ∷ cs) 3 (made fork c [])
Stops-here (with_child n) c cs ne = stopped [] (with_child n) c cs tt ne
Stops-here (no_child n) c cs ne = stopped [] (no_child n) c cs tt ne

abbrev pub in_array : Fork × Line → Fork × List ℕ
in_array (fork, l) = (fork, array_of l)

abbrev pub with_command : Fork × Line → Fork × List (List ℕ)
with_command (fork, l) = (fork, command l)

abbrev pub AllLines : List (Fork × Line) → Type 0
AllLines [] = Unit
AllLines ((fork, l) ∷ ls) = IsLine l × AllLines ls

-- The interpreter returns 0 if all statuses that it tests are 0, and 3 at the first that is not; the
-- commands for which `fork` succeeded have run, up to there. Where `fork` fails, the status tested is
-- one that nothing has set. Each line holds a command that fits the arrays.
pub run_batch-Stops :
    (ls : List (Fork × Line))
    → AllLines ls
    → (code : ℕ) × (ran : List (List (List ℕ))) × (run_batch (map in_array ls) ≡ some (code, ran))
      × Stops (map with_command ls) code ran
unfolding run_batch
run_batch-Stops [] h = (0, [], refl, all_ran tt)
run_batch-Stops ((fork, l) ∷ ls) h =
    let (code, ran, e, stops) = run_batch-Stops ls h.1 in
    elim (Bool-cases (cstat_of fork == 0)) [
      | inl fine ↦ (
        code,
        made fork (command l) ran,
        rw (run_batch, command_of-array_of l h.0, fine, e) refl,
        Stops-cons fork (command l) (ground arith) stops,
      )
      | inr fails ↦ (
        3,
        made fork (command l) [],
        rw (run_batch, command_of-array_of l h.0, fails) refl,
        Stops-here fork (command l) (map with_command ls) (ground arith),
      )
    ]
