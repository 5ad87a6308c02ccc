-- ===== src/Commands/Trimmed.antt =====
-- What trimming leaves of a line.
use op_sys.Common.{
  ℕ, zero, suc, ◌+◌, ◌-◌, ◌≤◌, ◌<◌, ◌≡◌, ◌≢◌, ◌∙◌, ap, sym, refl, true, false, none, some, List, [],
  ◌∷◌, ◌++◌, arith, ◌==◌, length, get_or, set, take, drop, strlen, is_space, length-append,
  length-set, take-append, set-append, get_or-behind, get_or-inside, take_front, drop_front,
}
use mathlib.Core.List.{append_assoc}
use op_sys.Commands.{leading_counter, last_kept, memmove, trim_whitespace}

-- The array holds the text `s`, and a 0 behind it.
abbrev pub Spells : List ℕ → List ℕ → Type 0
Spells str s = (rest : List ℕ) × (str ≡ s ++ 0 ∷ rest)

abbrev pub AllSpace : List ℕ → Type 0
AllSpace [] = Unit
AllSpace (c ∷ cs) = (is_space c ≡ true) × AllSpace cs

abbrev pub NoZero : List ℕ → Type 0
NoZero [] = Unit
NoZero (c ∷ cs) = (c ≢ 0) × NoZero cs

-- Neither the first nor the last character is a space; so there is one.
abbrev pub IsTrim : List ℕ → Type 0
IsTrim s = (is_space (get_or s 0 b' ') ≡ false) × (is_space (get_or s (length s - 1) b' ') ≡ false)

space-NoZero : (s : List ℕ) → AllSpace s → NoZero s
space-NoZero [] h = tt
space-NoZero (c ∷ cs) h = (ground arith, space-NoZero cs h.1)

append-NoZero : (s t : List ℕ) → NoZero s → NoZero t → NoZero (s ++ t)
append-NoZero [] t h k = k
append-NoZero (c ∷ s) t h k = (h.0, append-NoZero s t h.1 k)

pub strlen-text : (s rest : List ℕ) → NoZero s → strlen (s ++ 0 ∷ rest) ≡ length s
unfolding strlen
strlen-text [] rest h = refl
strlen-text (c ∷ s) rest h = ground (arith, strlen-text s rest h.1)

leading-front :
    (w s : List ℕ) (rest : List ℕ)
    → AllSpace w
    → is_space (get_or s 0 b' ') ≡ false
    → leading_counter (w ++ (s ++ rest)) ≡ length w
unfolding leading_counter
leading-front [] [] rest h k = absurd (ground arith)
leading-front [] (c ∷ s) rest h k = rw k
leading-front (c ∷ w) s rest h k = rw h.0 (ap suc (leading-front w s rest h.1 k))

space_at :
    (w rest : List ℕ) (k : ℕ) → AllSpace w → k < length w → is_space (get_or (w ++ rest) k 0) ≡ true
space_at [] rest k h below = absurd (omega arith)
space_at (c ∷ w) rest zero h below = h.0
space_at (c ∷ w) rest (suc k) h below = space_at w rest k h.1 (omega arith)

module _ (pre w rest : List ℕ) (spaces : AllSpace w) where
  -- The spaces behind `pre` are passed over.
  last_kept-skip :
      (k n : ℕ)
      → n ≡ length pre + k
      → k ≤ length w
      → last_kept n (pre ++ (w ++ rest)) ≡ last_kept (length pre) (pre ++ (w ++ rest))
  unfolding last_kept
  last_kept-skip zero n e h = ap (λ m. last_kept m (pre ++ (w ++ rest))) (omega arith)
  last_kept-skip (suc k) zero e h = absurd (omega arith)
  last_kept-skip (suc k) (suc n) e h =
      let here : n ≡ length pre + k = omega arith in
      rw
        (
          last_kept,
          get_or-behind pre (w ++ rest) k n 0 here,
          space_at w rest k spaces (omega arith),
        )
        (last_kept-skip k n here (omega arith))

  last_kept-stop :
      (n : ℕ)
      → suc n ≡ length pre
      → is_space (get_or pre n b' ') ≡ false
      → last_kept (length pre + length w) (pre ++ (w ++ rest)) ≡ some n
  unfolding last_kept
  last_kept-stop n e h =
      last_kept-skip (length w) (length pre + length w) refl (omega arith)
      ∙ ap (λ m. last_kept m (pre ++ (w ++ rest))) (sym e)
      ∙ rw (last_kept, get_or-inside pre (w ++ rest) n 0 b' ' (omega (arith, e)), h) refl

trim-length : (s : List ℕ) → IsTrim s → 0 < length s
trim-length [] t = absurd (ground arith)
trim-length (c ∷ s) t = omega arith

memmove-inside :
    (str : List ℕ) (from n : ℕ)
    → from + n ≤ length str
    → memmove str from n ≡ some (take n (drop from str) ++ drop n str)
memmove-inside str from n h = ground arith

-- A 0 behind the text, where the spaces or the old 0 were.
set-cut :
    (w s ys : List ℕ) (y : ℕ)
    → set (w ++ (s ++ y ∷ ys)) (length w + length s) 0 ≡ w ++ (s ++ 0 ∷ ys)
set-cut w s ys y =
    ap (λ l. set l (length w + length s) 0) (sym (append_assoc w s (y ∷ ys)))
    ∙ set-append (w ++ s) ys y 0 (length w + length s) (sym (length-append w s))
    ∙ append_assoc w s (0 ∷ ys)

ended_text :
    (w s w' rest : List ℕ)
    → (ys : List ℕ) × (set (w ++ (s ++ (w' ++ 0 ∷ rest))) (length w + length s) 0
        ≡ w ++ (s ++ 0 ∷ ys))
ended_text w s [] rest = (rest, set-cut w s rest 0)
ended_text w s (c ∷ w') rest = (w' ++ 0 ∷ rest, set-cut w s (w' ++ 0 ∷ rest) c)

-- Moved to the front, the text still ends at its 0.
moved_text :
    (w s ys : List ℕ)
    → Spells
        (take (length w + length s) (drop (length w) (w ++ (s ++ 0 ∷ ys)))
          ++ drop (length w + length s) (w ++ (s ++ 0 ∷ ys)))
        s
moved_text [] s ys = (
  ys,
  ap (λ l. l ++ drop (0 + length s) (s ++ 0 ∷ ys))
        (take_front s (0 ∷ ys) (0 + length s) (omega arith))
      ∙ ap (◌++◌ s) (drop_front s (0 ∷ ys) (0 + length s) (omega arith)),
)
moved_text (c ∷ w) s ys =
    let n = length (c ∷ w) + length s in
    let all = (c ∷ w) ++ (s ++ 0 ∷ ys) in
    (
      take (length w) ys ++ drop n all,
      ap (λ l. take n l ++ drop n all) (drop_front (c ∷ w) (s ++ 0 ∷ ys) (suc (length w)) refl)
          ∙ ap (λ l. l ++ drop n all) (take-append s (0 ∷ ys) (suc (length w)) n (omega arith))
          ∙ append_assoc s (0 ∷ take (length w) ys) (drop n all),
    )

module _ (w s w' rest : List ℕ) (spaces : AllSpace w) (spaces' : AllSpace w') (text : NoZero s)
    (trim : IsTrim s) where
  abbrev line : List ℕ
  line = w ++ (s ++ (w' ++ 0 ∷ rest))

  strlen-line : strlen line ≡ length w + length s + length w'
  strlen-line =
      ap strlen (
        ap (◌++◌ w) (sym (append_assoc s w' (0 ∷ rest)))
        ∙ sym (append_assoc w (s ++ w') (0 ∷ rest)))
      ∙ strlen-text (w ++ (s ++ w')) rest (
          append-NoZero w (s ++ w') (space-NoZero w spaces)
            (append-NoZero s w' text (space-NoZero w' spaces')))
      ∙ omega (arith, length-append w (s ++ w'), length-append s w')

  strlen-ended : (ys : List ℕ) → strlen (w ++ (s ++ 0 ∷ ys)) ≡ length w + length s
  strlen-ended ys =
      ap strlen (sym (append_assoc w s (0 ∷ ys)))
      ∙ strlen-text (w ++ s) ys (append-NoZero w s (space-NoZero w spaces) text)
      ∙ length-append w s

  last_kept-line : last_kept (strlen line) line ≡ some (length w + length s - 1)
  last_kept-line =
      let some_text = trim-length s trim in
      ap (λ n. last_kept n line) (strlen-line ∙ omega (arith, length-append w s))
      ∙ ap (last_kept (length (w ++ s) + length w')) (sym (append_assoc w s (w' ++ 0 ∷ rest)))
      ∙ last_kept-stop (w ++ s) w' (0 ∷ rest) spaces' (length w + length s - 1)
          (omega (arith, length-append w s, some_text))
          (ap is_space (
              get_or-behind w s (length s - 1) (length w + length s - 1) b' '
                (omega (arith, some_text)))
            ∙ trim.1)

  -- A line of spaces, a text that neither begins nor ends with a space, and spaces: trimming leaves
  -- the text, if the array is long enough for what `memmove` reads.
  pub trim_whitespace-Spells :
      length w + (length w + length s) ≤ length line
      → (out : List ℕ) × (trim_whitespace line ≡ some out) × Spells out s
  unfolding trim_whitespace
  trim_whitespace-Spells room =
      let n = length w + length s in
      let (ys, cut) = ended_text w s w' rest in
      let ended = w ++ (s ++ 0 ∷ ys) in
      (
        take n (drop (length w) ended) ++ drop n ended,
        rw (trim_whitespace, not_empty, last_kept-line)
            (ap (λ l. memmove l (leading_counter line) (strlen l))
                (ap (λ k. set line k 0) (omega (arith, trim-length s trim)) ∙ cut)
              ∙ ap (λ k. memmove ended k (strlen ended))
                  (leading-front w s (w' ++ 0 ∷ rest) spaces trim.0)
              ∙ ap (memmove ended (length w)) (strlen-ended ys)
              ∙ memmove-inside ended (length w) n
                  (omega (arith, room, ap length cut, length-set line n 0))),
        moved_text w s ys,
      )
    where
      not_empty : (strlen line == 0) ≡ false
      not_empty = ground (arith, strlen-line, trim-length s trim)

-- A line of spaces only, such as the newline of an empty line, makes the search for its end leave the
-- array.
trim_whitespace-blank :
    (w rest : List ℕ) → AllSpace w → 0 < length w → trim_whitespace (w ++ 0 ∷ rest) ≡ none
unfolding trim_whitespace last_kept
trim_whitespace-blank w rest spaces some_space =
    let size = strlen-text w rest (space-NoZero w spaces) in
    rw (trim_whitespace, not_empty)
      (rw
        (ap (λ n. last_kept n (w ++ 0 ∷ rest)) size
          ∙ last_kept-skip [] w (0 ∷ rest) spaces (length w) (length w) (omega arith) (omega arith))
        refl)
  where
    not_empty : (strlen (w ++ 0 ∷ rest) == 0) ≡ false
    not_empty = ground (arith, strlen-text w rest (space-NoZero w spaces))
