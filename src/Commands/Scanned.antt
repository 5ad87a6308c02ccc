-- ===== src/Commands/Scanned.antt =====
-- How the loop of `tokenize` goes over one word of a line.
use op_sys.Common.{
  ℕ, zero, suc, ◌+◌, ◌-◌, ◌≤◌, ◌<◌, ◌≡◌, ◌∙◌, ap, sym, refl, Bool, true, false, some, List, [], ◌∷◌,
  ◌++◌, arith, ◌==◌, ltb, length, get_or, take, drop, length-append, take_front, get_or-drop,
  drop-suc, drop_after, drop_inside,
}
use mathlib.Core.List.{append-nil}
use mathlib.Core.Option
use op_sys.Commands.{Scan, store, copy_of, scan_char, scan_loop, buffer_size}
use op_sys.Commands.Printed.{plain, quoted, passes, AllPass, IsWord}

store-some :
    (cells : ℕ) (token : List ℕ) (tokens : List (List ℕ))
    → suc (length tokens) < cells
    → length token < buffer_size
    → store cells token tokens ≡ some (tokens ++ token ∷ [])
store-some cells token tokens h k = ground arith

module _ (cells : ℕ) (str : List ℕ) where
  -- The loop once more, if a character is left.
  scan_loop-suc :
      (rounds i t : ℕ) (q : Bool) (ts : List (List ℕ)) (c : ℕ) (rest : List ℕ) (s' : Scan)
      → drop i str ≡ c ∷ rest
      → scan_char cells str (record { i = i; tstart = t; is_quoted = q; tokens = ts }) ≡ some s'
      → scan_loop (suc rounds) cells str (record { i = i; tstart = t; is_quoted = q; tokens = ts })
        ≡ scan_loop rounds cells str s'
  unfolding scan_loop
  scan_loop-suc rounds i t q ts c rest s' here e = rw (scan_loop, more, e) refl
    where
      more : ltb i (length str) ≡ true
      more = ground (arith, drop_inside i str rest c here)

  -- At the end of the text nothing more happens.
  pub scan_loop_end :
      (rounds : ℕ) (s : Scan) → length str ≤ s.i → scan_loop rounds cells str s ≡ some s
  unfolding scan_loop
  scan_loop_end zero s h = refl
  scan_loop_end (suc rounds) s h = rw (scan_loop, over) refl
    where
      over : ltb s.i (length str) ≡ false
      over = ground arith

  -- A character that passes, and is not the last one.
  char_pass :
      (i t : ℕ) (q : Bool) (ts : List (List ℕ)) (c : ℕ)
      → get_or str i 0 ≡ c
      → passes q c ≡ true
      → suc (suc i) ≤ length str
      → scan_char cells str (record { i = i; tstart = t; is_quoted = q; tokens = ts })
        ≡ some (record { i = suc i; tstart = t; is_quoted = q; tokens = ts })
  unfolding scan_char
  char_pass i t true ts c e h k = ground arith
  char_pass i t false ts c e h k = ground arith

  -- Characters that pass, with another one behind them.
  scan_pass :
      (s : List ℕ) (n rounds i t : ℕ) (q : Bool) (ts : List (List ℕ)) (c : ℕ) (rest : List ℕ)
      → n ≡ length s + rounds
      → AllPass q s
      → drop i str ≡ s ++ c ∷ rest
      → scan_loop n cells str (record { i = i; tstart = t; is_quoted = q; tokens = ts })
        ≡ scan_loop rounds cells str
            (record { i = i + length s; tstart = t; is_quoted = q; tokens = ts })
  scan_pass [] n rounds i t q ts c rest e h here =
      ap (λ m. scan_loop m cells str (at_ i)) (omega arith)
      ∙ ap (λ j. scan_loop rounds cells str (at_ j)) (omega arith)
    where
      at_ : ℕ → Scan
      at_ j = record { i = j; tstart = t; is_quoted = q; tokens = ts }
  scan_pass (d ∷ s) zero rounds i t q ts c rest e h here = absurd (omega arith)
  scan_pass (d ∷ s) (suc n) rounds i t q ts c rest e h here =
      let at_ : ℕ → Scan = λ j. record { i = j; tstart = t; is_quoted = q; tokens = ts } in
      let inside = drop_inside i str (s ++ c ∷ rest) d here in
      scan_loop-suc n i t q ts d (s ++ c ∷ rest) (at_ (suc i)) here (
        char_pass i t q ts d (get_or-drop i str (s ++ c ∷ rest) d 0 here) h.0
          (omega (arith, inside, length-append s (c ∷ rest))))
      ∙ scan_pass s n rounds (suc i) t q ts c rest (omega arith) h.1
          (drop-suc i str (s ++ c ∷ rest) d here)
      ∙ ap (λ j. scan_loop rounds cells str (at_ j)) (omega arith)

  -- The bytes from a place on, where the text has `s`.
  copy_of-here :
      (s rest : List ℕ) (t n : ℕ) → drop t str ≡ s ++ rest → n ≡ length s → copy_of str t n ≡ s
  copy_of-here s rest t n here e = ap (take n) here ∙ take_front s rest n e

  store-copy :
      (s rest : List ℕ) (t n : ℕ) (ts : List (List ℕ))
      → drop t str ≡ s ++ rest
      → n ≡ length s
      → suc (length ts) < cells
      → length s < buffer_size
      → store cells (copy_of str t n) ts ≡ some (ts ++ s ∷ [])
  store-copy s rest t n ts here e room small =
      ap (λ w. store cells w ts) (copy_of-here s rest t n here e) ∙ store-some cells s ts room small

  -- A bare word with a space behind it.
  pub plain_word :
      (s : List ℕ) (n rounds i : ℕ) (ts : List (List ℕ)) (rest : List ℕ)
      → n ≡ suc (length s) + rounds
      → IsWord (plain s)
      → suc (length ts) < cells
      → drop i str ≡ s ++ b' ' ∷ rest
      → scan_loop n cells str (record { i = i; tstart = i; is_quoted = false; tokens = ts })
        ≡ scan_loop rounds cells str (record {
          i = suc (i + length s);
          tstart = suc (i + length s);
          is_quoted = false;
          tokens = ts ++ s ∷ [];
        })
  unfolding scan_char
  plain_word s n rounds i ts rest e w room here =
      let behind = drop_after s i str (b' ' ∷ rest) here in
      scan_pass s n (suc rounds) i i false ts b' ' rest (omega arith) w.1 here
      ∙ scan_loop-suc rounds (i + length s) i false ts b' ' rest
          (record {
            i = suc (i + length s);
            tstart = suc (i + length s);
            is_quoted = false;
            tokens = ts ++ s ∷ [];
          })
          behind
          (rw
            (
              scan_char,
              get_or-drop (i + length s) str rest b' ' 0 behind,
              store-copy s (b' ' ∷ rest) i (i + length s - i) ts here (omega arith) room w.2,
            )
            refl)

  -- A word in quotes, with anything behind it.
  pub quoted_word :
      (s : List ℕ) (n rounds i : ℕ) (ts : List (List ℕ)) (rest : List ℕ)
      → n ≡ suc (length s + suc rounds)
      → IsWord (quoted s)
      → suc (length ts) < cells
      → drop i str ≡ b'"' ∷ (s ++ b'"' ∷ rest)
      → scan_loop n cells str (record { i = i; tstart = i; is_quoted = false; tokens = ts })
        ≡ scan_loop rounds cells str (record {
          i = suc i + length s + 2;
          tstart = suc i + length s + 2;
          is_quoted = false;
          tokens = ts ++ s ∷ [];
        })
  unfolding scan_char
  quoted_word s n rounds i ts rest e w room here =
      let inside = drop-suc i str (s ++ b'"' ∷ rest) b'"' here in
      let behind = drop_after s (suc i) str (b'"' ∷ rest) inside in
      let opened : Scan = record { i = suc i; tstart = suc i; is_quoted = true; tokens = ts } in
      ap (λ m. scan_loop m cells str (record { i = i; tstart = i; is_quoted = false; tokens = ts }))
        e
      ∙ scan_loop-suc (length s + suc rounds) i i false ts b'"' (s ++ b'"' ∷ rest) opened here
          (rw (scan_char, get_or-drop i str (s ++ b'"' ∷ rest) b'"' 0 here) refl)
      ∙ scan_pass s (length s + suc rounds) (suc rounds) (suc i) (suc i) true ts b'"' rest refl w.0
          inside
      ∙ scan_loop-suc rounds (suc i + length s) (suc i) true ts b'"' rest
          (record {
            i = suc i + length s + 2;
            tstart = suc i + length s + 2;
            is_quoted = false;
            tokens = ts ++ s ∷ [];
          })
          behind
          (rw
            (
              scan_char,
              get_or-drop (suc i + length s) str rest b'"' 0 behind,
              store-copy s (b'"' ∷ rest) (suc i) (suc i + length s - suc i) ts inside (omega arith)
                  room w.1,
            )
            refl)

  -- A bare word at the end of the text.
  pub last_word :
      (s : List ℕ) (z n i : ℕ) (ts : List (List ℕ))
      → length s < n
      → AllPass false s
      → passes false z ≡ true
      → length (s ++ z ∷ []) < buffer_size
      → suc (length ts) < cells
      → drop i str ≡ s ++ z ∷ []
      → Option.map
          (λ r. r.tokens)
          (scan_loop n cells str (record { i = i; tstart = i; is_quoted = false; tokens = ts }))
        ≡ some (ts ++ (s ++ z ∷ []) ∷ [])
  unfolding scan_char
  last_word s z n i ts few h k small room here =
      let behind = drop_after s i str (z ∷ []) here in
      let at_end : Scan = record {
        i = suc (i + length s);
        tstart = i;
        is_quoted = false;
        tokens = ts ++ (s ++ z ∷ []) ∷ [];
      } in
      let total : length str ≡ i + length s + 1 = drop_inside (i + length s) str [] z behind in
      ap (Option.map (λ r. r.tokens)) (
        scan_pass s n (suc (n - length s - 1)) i i false ts z [] (omega arith) h here
        ∙ scan_loop-suc (n - length s - 1) (i + length s) i false ts z [] at_end behind last
        ∙ scan_loop_end (n - length s - 1) at_end (omega (arith, total)))
    where
      not_quote : (z == b'"') ≡ false
      not_quote = ground arith

      not_space : (z == b' ') ≡ false
      not_space = ground arith

      is_last : (i + length s == length str - 1) ≡ true
      is_last =
          ground (arith, drop_inside (i + length s) str [] z (drop_after s i str (z ∷ []) here))

      last :
          scan_char cells str
            (record { i = i + length s; tstart = i; is_quoted = false; tokens = ts })
          ≡ some (record {
            i = suc (i + length s);
            tstart = i;
            is_quoted = false;
            tokens = ts ++ (s ++ z ∷ []) ∷ [];
          })
      last =
          rw
            (
              scan_char,
              get_or-drop (i + length s) str [] z 0 (drop_after s i str (z ∷ []) here),
              not_quote,
              not_space,
              is_last,
              store-copy (s ++ z ∷ []) [] i (suc (i + length s - i)) ts
                  (here ∙ sym (append-nil (s ++ z ∷ []))) (omega (arith, length-append s (z ∷ [])))
                  room small,
            )
            refl
