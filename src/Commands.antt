-- ===== src/Commands.antt =====
-- lab4_signals_and_pipes/batch_job_interpreter_pipes/cmd_interpreter_extd.c: a line of a batch file is
-- trimmed, cut into tokens, and the tokens are dealt out to the programs of a pipeline. A `char *` is the
-- list of the bytes of its array, a 0 behind the text. `none` is an access outside an array, at once
-- or in the loops that read the result.
pub mod Trimmed
pub mod Printed
pub mod Scanned
pub mod Words
pub mod Dealt
pub mod Pipes
pub mod Lines
pub mod Batch
mod Tests
use mathlib.Core.Option
use op_sys.Common.{
  ℕ, zero, suc, ◌+◌, ◌-◌, ◌*◌, Bool, true, false, not, ◌&&◌, ◌||◌, Option, none, some, List, [],
  ◌∷◌, ◌++◌, ltb, leb, ◌==◌, if◌then◌else◌, length, get_or, set, take, drop, replicate, strlen,
  is_space,
}

abbrev pub max_args : ℕ
max_args = 5

abbrev pub max_progs_piped : ℕ
max_progs_piped = 6

abbrev pub buffer_size : ℕ
buffer_size = 1024

-- `while (isspace(*trav))` stops at the 0 at the latest.
unfoldable pub leading_counter : List ℕ → ℕ
leading_counter [] = 0
leading_counter (c ∷ cs) = if is_space c then suc (leading_counter cs) else 0

-- `while (isspace(*end)) end--;` from one before `n`: the place where it stops. Before the array there
-- is no place.
unfoldable pub last_kept : ℕ → List ℕ → Option ℕ
last_kept zero str = none
last_kept (suc end) str = elim (is_space (get_or str end 0)) [
  | true ↦ last_kept end str
  | false ↦ some end
]

-- `memmove(str, str + from, n)`
abbrev pub memmove : List ℕ → ℕ → ℕ → Option (List ℕ)
memmove str from n =
    if leb (from + n) (length str) then some (take n (drop from str) ++ drop n str) else none

unfoldable pub trim_whitespace : List ℕ → Option (List ℕ)
unfolding leading_counter last_kept
trim_whitespace str = elim (strlen str == 0) [
  | true ↦ some str
  | false ↦ elim (last_kept (strlen str) str) [
    | none ↦ none
    | some end ↦
        let ended = set str (suc end) 0 in memmove ended (leading_counter str) (strlen ended)
  ]
]

-- The local variables of `tokenize`.
pub record Scan : Type 0 where
  pub i : ℕ
  pub tstart : ℕ
  pub is_quoted : Bool
  pub tokens : List (List ℕ)

-- A token goes to the next cell; its buffer keeps a 0 at the end, and the cells a NULL.
abbrev pub store : ℕ → List ℕ → List (List ℕ) → Option (List (List ℕ))
store cells token tokens =
    if ltb (suc (length tokens)) cells && ltb (length token) buffer_size
    then some (tokens ++ token ∷ [])
    else none

-- A copy of `n` bytes of the text from `start` on, or up to its end.
abbrev pub copy_of : List ℕ → ℕ → ℕ → List ℕ
copy_of str start n = take n (drop start str)

-- A round of the loop, with the `i++` of its head.
unfoldable pub scan_char : ℕ → List ℕ → Scan → Option Scan
scan_char cells str s =
    if get_or str s.i 0 == b'"'
    then if s.is_quoted
      then Option.map
          (λ ts. record { i = s.i + 2; tstart = s.i + 2; is_quoted = false; tokens = ts })
          (store cells (copy_of str s.tstart (s.i - s.tstart)) s.tokens)
      else some (record s { i = suc s.i; tstart = suc s.tstart; is_quoted = true })
    else if get_or str s.i 0 == b' ' && not s.is_quoted
    then Option.map (λ ts. record s { i = suc s.i; tstart = suc s.i; tokens = ts })
        (store cells (copy_of str s.tstart (s.i - s.tstart)) s.tokens)
    else if s.i == length str - 1
    then Option.map (λ ts. record s { i = suc s.i; tokens = ts })
        (store cells (copy_of str s.tstart (suc (s.i - s.tstart))) s.tokens)
    else some (record s { i = suc s.i })

-- The text has no more rounds than characters.
unfoldable pub scan_loop : ℕ → ℕ → List ℕ → Scan → Option Scan
unfolding scan_char
scan_loop zero cells str s = some s
scan_loop (suc rounds) cells str s = elim (ltb s.i (length str)) [
  | false ↦ some s
  | true ↦ elim (scan_char cells str s) [ none ↦ none | some s' ↦ scan_loop rounds cells str s' ]
]

abbrev pub scan_start : Scan
scan_start = record { i = 0; tstart = 0; is_quoted = false; tokens = [] }

-- `cells` is the size of the array of tokens, `str` the text without its 0.
unfoldable pub tokenize_into : ℕ → List ℕ → Option (List (List ℕ))
unfolding scan_loop
tokenize_into cells str = Option.map (λ s. s.tokens) (scan_loop (length str) cells str scan_start)

unfoldable pub tokenize : List ℕ → Option (List (List ℕ))
unfolding tokenize_into
tokenize str = tokenize_into (max_progs_piped * (max_args + 2)) str

-- `strcmp(token, "|") == 0`
abbrev pub is_bar : List ℕ → Bool
is_bar (c ∷ []) = c == b'|'
is_bar _ = false

-- An argument of program `prog`, behind those that it has; each array keeps a NULL at its end.
abbrev pub store_arg : List ℕ → ℕ → List (List (List ℕ)) → Option (List (List (List ℕ)))
store_arg token prog pargs =
    let args = get_or pargs prog [] in
    if ltb prog max_progs_piped
      && ltb (length args) (suc max_args)
      && ltb (length token) buffer_size
    then some (set pargs prog (args ++ token ∷ []))
    else none

-- `while (*ttrav)`: the number of the last program, and the arguments of each.
unfoldable pub deal : List (List ℕ) → ℕ → List (List (List ℕ)) → Option (ℕ × List (List (List ℕ)))
deal [] prog pargs = some (prog, pargs)
deal (token ∷ tokens) prog pargs = elim (is_bar token) [
  | true ↦ deal tokens (suc prog) pargs
  | false ↦ elim (store_arg token prog pargs) [
    | none ↦ none
    | some pargs' ↦ deal tokens prog pargs'
  ]
]

-- The arrays start empty.
unfoldable pub programs : List (List ℕ) → Option (ℕ × List (List (List ℕ)))
unfolding deal
programs tokens = deal tokens 0 (replicate (suc max_progs_piped) [])
