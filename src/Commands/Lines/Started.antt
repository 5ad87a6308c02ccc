-- ===== src/Commands/Lines/Started.antt =====
-- A line that is written from a pipeline starts the programs of that pipeline.
use native.Mathlib.Nat.{mod-lt}
use op_sys.Common.{
  ℕ, zero, suc, ◌+◌, ◌-◌, ◌*◌, ◌≤◌, ◌<◌, ◌≡◌, ◌∙◌, ap, refl, Bool, true, false, ◌%◌, none, some,
  List, [], ◌∷◌, ◌++◌, map, arith, ltb, length, get_or, take, strlen, replicate, take_front,
}
use op_sys.Commands.{max_progs_piped, max_args}
use op_sys.Commands.Trimmed.{Spells, AllSpace, NoZero, IsTrim, strlen-text, trim_whitespace-Spells}
use op_sys.Commands.Printed.{Word, text, print_line, AreWords}
use op_sys.Commands.Words.{tokenize-print_line}
use op_sys.Commands.Dealt.{print_pipeline, ArePrograms, programs-print_pipeline}
use op_sys.Commands.Pipes.{
  Table, has_program, open_pipes, started_with, update, read_end, write_end, close_all,
}
use op_sys.Commands.Pipes.Wiring.{AreNew, close_all-own}
use op_sys.Commands.Lines.{
  interpret, Calls, started, with_child, start_programs, remove_at, wait, wait_for, ran, finish,
  run_line,
}

pub text-Spells : (str s : List ℕ) → NoZero s → Spells str s → take (strlen str) str ≡ s
text-Spells str s h (rest, e) =
    ap (λ l. take (strlen l) l) e
    ∙ take_front s (0 ∷ rest) (strlen (s ++ 0 ∷ rest)) (strlen-text s rest h)

-- The array of a line: the words of a pipeline, with spaces around them and a 0 behind.
pub record Written (w w' rest : List ℕ) (ws : List Word) (p : List (List ℕ))
    (ps : List (List (List ℕ))) : Type 0 where
  pub before : AllSpace w
  pub behind : AllSpace w'
  pub no_zero : NoZero (print_line ws)
  pub trimmed : IsTrim (print_line ws)
  pub room :
      length w + (length w + length (print_line ws))
      ≤ length (w ++ (print_line ws ++ (w' ++ 0 ∷ rest)))
  pub words : AreWords ws
  pub few_words : length ws < max_progs_piped * (max_args + 2)
  pub pipeline : map text ws ≡ print_pipeline p ps
  pub all_programs : ArePrograms (p ∷ ps)
  pub few_programs : length ps < max_progs_piped

abbrev pub line_of : List ℕ → List ℕ → List ℕ → List Word → List ℕ
line_of w w' rest ws = w ++ (print_line ws ++ (w' ++ 0 ∷ rest))

-- Trimming, cutting into tokens and dealing out together give the programs that the line was made of.
pub interpret-line_of :
    (w w' rest : List ℕ) (ws : List Word) (p : List (List ℕ)) (ps : List (List (List ℕ)))
    → Written w w' rest ws p ps
    → interpret (line_of w w' rest ws)
      ≡ some (length ps, p ∷ ps ++ replicate (max_progs_piped - length ps) [])
unfolding interpret
interpret-line_of w w' rest ws p ps h =
    let (str, trims, spells) =
      trim_whitespace-Spells w (print_line ws) w' rest h.before h.behind h.no_zero h.trimmed
        h.room in
    rw
      (
        interpret,
        trims,
        text-Spells str (print_line ws) h.no_zero spells,
        tokenize-print_line ws h.words h.few_words,
        h.pipeline,
      )
      (programs-print_pipeline p ps h.all_programs h.few_programs)

-- Each program has a name.
abbrev pub AreNamed : List (List (List ℕ)) → Type 0
AreNamed [] = Unit
AreNamed (p ∷ ps) = (0 < length p) × AreNamed ps

get_or-replicate : (k i : ℕ) → get_or {A = List (List ℕ)} (replicate k []) i [] ≡ []
get_or-replicate zero i = refl
get_or-replicate (suc k) zero = refl
get_or-replicate (suc k) (suc i) = get_or-replicate k i

-- The arrays that hold a program are the first ones.
pub has_program-ltb :
    (ps : List (List (List ℕ))) (k i : ℕ)
    → AreNamed ps
    → has_program (ps ++ replicate k []) i ≡ ltb i (length ps)
has_program-ltb [] k i h = rw (has_program, get_or-replicate k i) (ground arith)
has_program-ltb ([] ∷ ps) k i h = absurd (omega (arith, h.0))
has_program-ltb ((a ∷ p) ∷ ps) k zero h = ground arith
has_program-ltb ((a ∷ p) ∷ ps) k (suc i) h = has_program-ltb ps k i h.1 ∙ ground arith

-- The numbers from `k` on.
abbrev pub range : ℕ → ℕ → List ℕ
range k zero = []
range k (suc d) = k ∷ range (suc k) d

length-range : (k d : ℕ) → length (range k d) ≡ d
length-range k zero = refl
length-range k (suc d) = omega (arith, length-range (suc k) d)

start_programs-started :
    (forks : ℕ → Bool) (pargs : List (List (List ℕ))) (n rounds currp d : ℕ)
    → ((i : ℕ) → forks i ≡ true)
    → ((i : ℕ) → has_program pargs i ≡ ltb i n)
    → currp + d ≡ n
    → d < rounds
    → start_programs forks pargs rounds currp ≡ started (range currp d)
unfolding start_programs
start_programs-started forks pargs n zero currp d fork counts e h = absurd (omega arith)
start_programs-started forks pargs n (suc rounds) currp zero fork counts e h =
    let over : ltb currp n ≡ false = ground (arith, e) in
    rw (start_programs, counts currp ∙ over) refl
start_programs-started forks pargs n (suc rounds) currp (suc d) fork counts e h =
    let more : ltb currp n ≡ true = ground (arith, e) in
    rw (start_programs, counts currp ∙ more, fork currp)
      (ap (with_child currp) (
        start_programs-started forks pargs n rounds (suc currp) d fork counts (omega (arith, e))
          (omega (arith, h))))

length-remove_at : (i : ℕ) (cs : List ℕ) → i < length cs → suc (length (remove_at i cs)) ≡ length cs
length-remove_at i [] h = absurd (omega arith)
length-remove_at zero (c ∷ cs) h = refl
length-remove_at (suc i) (c ∷ cs) h = omega (arith, length-remove_at i cs (omega arith))

-- As many calls of `wait` as there are children leave none.
wait_for-all :
    (ends_first : List ℕ → ℕ) (n : ℕ) (cs : List ℕ) → length cs ≡ n → wait_for ends_first n cs ≡ []
unfolding wait_for
wait_for-all ends_first zero [] h = refl
wait_for-all ends_first zero (c ∷ cs) h = absurd (omega arith)
wait_for-all ends_first (suc n) cs h = wait_for-all ends_first n (wait ends_first cs) (
    omega (
      arith,
      h,
      length-remove_at (ends_first cs % length cs) cs (mod-lt (ends_first cs) (omega (arith, h))),
    ))

open_pipes-some :
    (fds : ℕ → ℕ) (opens : ℕ → Bool) (rounds i : ℕ) (t : Table)
    → ((k : ℕ) → opens k ≡ true)
    → (t' : Table) × (open_pipes fds opens rounds i t ≡ some t')
unfolding open_pipes
open_pipes-some fds opens zero i t h = (t, refl)
open_pipes-some fds opens (suc rounds) i t h =
    let (t', e) =
      open_pipes-some fds opens rounds (suc i)
        (update (update t (fds (2 * i)) (some (read_end i))) (fds (2 * i + 1)) (some (write_end i)))
        h in
    (t', rw (open_pipes, h i) e)

-- Where no `pipe` or `fork` fails, and with no child left from before: a line that is written from a
-- pipeline starts the programs of the pipeline, in their order, waits for all of them, and leaves none
-- of the pipes open.
pub run_line-started :
    (calls : Calls) (w w' rest : List ℕ) (ws : List Word) (p : List (List ℕ))
    (ps : List (List (List ℕ)))
    → Written w w' rest ws p ps
    → AreNamed (p ∷ ps)
    → ((i : ℕ) → calls.opens i ≡ true)
    → ((i : ℕ) → calls.forks i ≡ true)
    → AreNew calls.fds
    → (t : Table) × (run_line calls [] (line_of w w' rest ws)
        ≡ some (ran (range 0 (suc (length ps))) [] t))
      × ((i : ℕ) → i < 2 * suc (length ps) → t (calls.fds i) ≡ none)
unfolding run_line
run_line-started calls w w' rest ws p ps h named opens forks new =
    let n = suc (length ps) in
    let (t, opened) = open_pipes-some calls.fds calls.opens n 0 started_with opens in
    let starts =
      start_programs-started calls.forks (p ∷ ps ++ replicate (max_progs_piped - length ps) []) n
        (suc max_progs_piped) 0 n forks
        (λ i. has_program-ltb (p ∷ ps) (max_progs_piped - length ps) i named) (omega arith)
        (omega (arith, h.few_programs)) in
    (
      close_all calls.fds (2 * n) 0 t,
      rw (run_line, interpret-line_of w w' rest ws p ps h, opened)
          (ap (λ s. some (finish calls n [] t s)) starts
            ∙ ap (λ left. some (ran (range 0 n) left (close_all calls.fds (2 * n) 0 t)))
                (wait_for-all calls.ends_first n (range 0 n) (length-range 0 n))),
      λ i l. close_all-own calls.fds new (2 * n) 0 i t (omega arith) (omega arith),
    )
