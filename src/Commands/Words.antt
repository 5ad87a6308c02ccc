-- ===== src/Commands/Words.antt =====
-- Tokens written as a line come back from `tokenize`.
use op_sys.Common.{
  ℕ, suc, ◌+◌, ◌-◌, ◌*◌, ◌≤◌, ◌<◌, ◌≡◌, ◌∙◌, ap, sym, refl, true, false, Option, some, List, [],
  ◌∷◌, ◌++◌, arith, map, length, drop, length-append, drop-suc, drop_after, drop_inside,
  length-drop,
}
use mathlib.Core.List.{append_assoc, append-nil}
use mathlib.Core.Option
use op_sys.Commands.{Scan, scan_loop, tokenize_into, tokenize, max_progs_piped, max_args}
use op_sys.Commands.Printed.{Word, plain, quoted, text, print_line, passes, AllPass, AreWords}
use op_sys.Commands.Scanned.{plain_word, quoted_word, last_word, scan_loop_end}

-- A bare word and its last character.
split_last :
    (s : List ℕ)
    → 0 < length s
    → AllPass false s
    → (t : List ℕ) × (z : ℕ) × (s ≡ t ++ z ∷ []) × AllPass false t × (passes false z ≡ true)
split_last [] h k = absurd (omega arith)
split_last (c ∷ []) h k = ([], c, refl, tt, k.0)
split_last (c ∷ d ∷ s) h k =
    let (t, z, e, k', k'') = split_last (d ∷ s) (omega arith) k.1 in
    (c ∷ t, z, ap (◌∷◌ c) e, (k.0, k'), k'')

two_more : (k : ℕ) → k + 2 ≡ suc (suc k)
two_more k = omega arith

abbrev scan_from : ℕ → List (List ℕ) → Scan
scan_from i ts = record { i = i; tstart = i; is_quoted = false; tokens = ts }

module _ (cells : ℕ) (str : List ℕ) where
  abbrev tokens_from : ℕ → ℕ → List (List ℕ) → Option (List (List ℕ))
  tokens_from n i ts = Option.map (λ s. s.tokens) (scan_loop n cells str (scan_from i ts))

  words_back :
      (ws : List Word) (n i : ℕ) (ts : List (List ℕ))
      → AreWords ws
      → length (print_line ws) ≤ n
      → length ts + length ws < cells
      → drop i str ≡ print_line ws
      → tokens_from n i ts ≡ some (ts ++ map text ws)
  words_back [] n i ts h few room here =
      ap (Option.map (λ s. s.tokens)) (
        scan_loop_end cells str n (scan_from i ts)
          (omega (arith, length-drop i str, ap length here)))
      ∙ ap some (sym (append-nil ts))
  words_back (plain s ∷ []) n i ts h few room here =
      let (t, z, e, passed, z_passes) = split_last s h.0.0 h.0.1 in
      last_word cells str t z n i ts (omega (arith, ap length e, length-append t (z ∷ []))) passed
        z_passes (omega (arith, ap length (sym e), h.0.2)) (omega arith) (here ∙ e)
      ∙ ap (λ w. some (ts ++ w ∷ [])) (sym e)
  words_back (quoted s ∷ []) n i ts h few room here =
      let rounds = n - length s - 2 in
      let size = length-append s (b'"' ∷ []) in
      let total = drop_inside i str (s ++ b'"' ∷ []) b'"' here in
      ap (Option.map (λ r. r.tokens)) (
        quoted_word cells str s n rounds i ts [] (omega (arith, size)) h.0 (omega arith) here
        ∙ scan_loop_end cells str rounds (scan_from (suc i + length s + 2) (ts ++ s ∷ []))
            (omega (arith, size, total)))
  words_back (plain s ∷ v ∷ ws) n i ts h few room here =
      let more = print_line (v ∷ ws) in
      let rounds = n - suc (length s) in
      let size = length-append s (b' ' ∷ more) in
      ap (Option.map (λ r. r.tokens))
        (plain_word cells str s n rounds i ts more (omega (arith, size)) h.0 (omega arith) here)
      ∙ words_back (v ∷ ws) rounds (suc (i + length s)) (ts ++ s ∷ []) h.1 (omega (arith, size))
          (omega (arith, length-append ts (s ∷ [])))
          (drop-suc (i + length s) str more b' ' (drop_after s i str (b' ' ∷ more) here))
      ∙ ap some (append_assoc ts (s ∷ []) (map text (v ∷ ws)))
  words_back (quoted s ∷ v ∷ ws) n i ts h few room here =
      let more = print_line (v ∷ ws) in
      let rounds = n - length s - 2 in
      let size = length-append (s ++ b'"' ∷ []) (b' ' ∷ more) in
      let size' = length-append s (b'"' ∷ []) in
      let here' = here ∙ ap (◌∷◌ b'"') (append_assoc s (b'"' ∷ []) (b' ' ∷ more)) in
      let inside = drop-suc i str (s ++ b'"' ∷ b' ' ∷ more) b'"' here' in
      let behind = drop_after s (suc i) str (b'"' ∷ b' ' ∷ more) inside in
      let k = suc i + length s in
      ap (Option.map (λ r. r.tokens)) (
        quoted_word cells str s n rounds i ts (b' ' ∷ more) (omega (arith, size, size')) h.0
          (omega arith) here')
      ∙ words_back (v ∷ ws) rounds (k + 2) (ts ++ s ∷ []) h.1 (omega (arith, size, size'))
          (omega (arith, length-append ts (s ∷ [])))
          (ap (λ j. drop j str) (two_more k)
            ∙ drop-suc (suc k) str more b' ' (drop-suc k str (b' ' ∷ more) b'"' behind))
      ∙ ap some (append_assoc ts (s ∷ []) (map text (v ∷ ws)))

pub tokenize_into-print_line :
    (cells : ℕ) (ws : List Word)
    → AreWords ws
    → length ws < cells
    → tokenize_into cells (print_line ws) ≡ some (map text ws)
unfolding tokenize_into
tokenize_into-print_line cells ws h room =
    words_back cells (print_line ws) ws (length (print_line ws)) 0 [] h (omega arith)
      (omega (arith, room)) refl

-- Words that fit the arrays, written with a space between them, are the tokens of their line.
pub tokenize-print_line :
    (ws : List Word)
    → AreWords ws
    → length ws < max_progs_piped * (max_args + 2)
    → tokenize (print_line ws) ≡ some (map text ws)
unfolding tokenize
tokenize-print_line ws h room =
    tokenize_into-print_line (max_progs_piped * (max_args + 2)) ws h room
