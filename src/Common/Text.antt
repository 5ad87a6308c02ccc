-- ===== src/Common/Text.antt =====
-- C strings in character arrays, as far as the programs use them: a list of byte values that a 0 ends.
-- `print_int` is `sprintf("%d")`, `scan_int` is `sscanf("%d")`, from stdio.h.
use Prim.Native.Nat.{ℕ, zero, suc, ◌+◌, ◌-◌, ◌*◌, ◌/◌, ◌%◌, ◌<◌}
use mathlib.Core.Path.{◌≡◌, refl, ap, sym, ◌∙◌}
use mathlib.Core.List.{List, [], ◌∷◌, ◌++◌}
use mathlib.Core.Bool.{Bool, true, false, ◌&&◌, ◌||◌}
use mathlib.Core.Option.{Option, some, none}
use mathlib.Core.Option
use mathlib.Core.Logic.{dite}
use mathlib.Core.WellFounded.{Acc}
use native.Mathlib.Omega.{arith}
use native.Mathlib.Decide.{dec_lt}
use op_sys.Common.Lists.{length, drop}
use op_sys.Common.Tests.{leb, ◌==◌, if◌then◌else◌}
use op_sys.Common.Int.{ℤ, pos, negsuc}
use op_sys.Common.Order.{lt_wf}

-- `isspace` in the C locale.
abbrev pub is_space : ℕ → Bool
is_space c = c == 32 || (leb 9 c && leb c 13)

abbrev pub is_digit : ℕ → Bool
is_digit c = leb b'0' c && leb c b'9'

unfoldable pub strlen : List ℕ → ℕ
strlen [] = 0
strlen (c ∷ cs) = if c == 0 then 0 else suc (strlen cs)

-- The array after `sprintf(content, "%s", text)`.
unfoldable pub write_string : List ℕ → List ℕ → List ℕ
write_string text content = text ++ 0 ∷ drop (suc (length text)) content

-- The digits of `n` in front of `rest`.
unfoldable pub print_acc : (n : ℕ) → List ℕ → Acc ◌<◌ n → List ℕ
print_acc n rest (Acc.intro _ smaller) =
    dite (dec_lt 9 n)
      (λ h. print_acc (n / 10) ((b'0' + n % 10) ∷ rest) (smaller (n / 10) (omega arith)))
      (λ _. (b'0' + n) ∷ rest)

unfoldable pub print_nat : ℕ → List ℕ → List ℕ
unfolding print_acc lt_wf dec_lt
print_nat n rest = print_acc n rest (lt_wf.apply n)

unfoldable pub print_int : ℤ → List ℕ
print_int (pos n) = print_nat n []
print_int (negsuc n) = b'-' ∷ print_nat (suc n) []

unfoldable pub scan_nat : ℕ → List ℕ → ℕ
scan_nat n [] = n
scan_nat n (c ∷ cs) = elim (is_digit c) [ true ↦ scan_nat (10 * n + (c - b'0')) cs | false ↦ n ]

-- The digits must begin at once.
abbrev pub scan_digits : List ℕ → Option ℕ
scan_digits [] = none
scan_digits (c ∷ cs) = if is_digit c then some (scan_nat 0 (c ∷ cs)) else none

abbrev pub negate : ℕ → ℤ
negate zero = pos 0
negate (suc n) = negsuc n

unfoldable pub skip_space : List ℕ → List ℕ
skip_space [] = []
skip_space (c ∷ cs) = elim (is_space c) [ true ↦ skip_space cs | false ↦ c ∷ cs ]

abbrev pub scan_sign : List ℕ → Option ℤ
scan_sign [] = none
scan_sign (c ∷ cs) =
    if c == b'-'
    then Option.map negate (scan_digits cs)
    else if c == b'+'
    then Option.map pos (scan_digits cs)
    else Option.map pos (scan_digits (c ∷ cs))

-- `none`: nothing was assigned.
unfoldable pub scan_int : List ℕ → Option ℤ
unfolding skip_space scan_nat
scan_int text = scan_sign (skip_space text)

scan_digit :
    (m d : ℕ) (rest : List ℕ) → d < 10 → scan_nat m ((b'0' + d) ∷ rest) ≡ scan_nat (10 * m + d) rest
unfolding scan_nat
scan_digit m d rest h =
    let digit : is_digit (b'0' + d) ≡ true = ground arith in
    let value : 10 * m + (b'0' + d - b'0') ≡ 10 * m + d = omega arith in rw (digit, value, scan_nat)

scan_step : (n : ℕ) (rest : List ℕ) → scan_nat (n / 10) ((b'0' + n % 10) ∷ rest) ≡ scan_nat n rest
scan_step n rest =
    let whole : 10 * (n / 10) + n % 10 ≡ n = omega arith in
    scan_digit (n / 10) (n % 10) rest (omega arith) ∙ ap (λ m. scan_nat m rest) whole

-- What is printed first scans as the number, and the scan goes on behind it.
scan-print_acc :
    (n : ℕ) (rest : List ℕ) (w : Acc ◌<◌ n) → scan_nat 0 (print_acc n rest w) ≡ scan_nat n rest
unfolding print_acc
scan-print_acc n rest (Acc.intro _ smaller) = grind (
  arith,
  λ (p : n / 10 < n). scan-print_acc (n / 10) ((b'0' + n % 10) ∷ rest) (smaller (n / 10) p),
  scan_step n rest,
  scan_digit 0 n rest,
)

abbrev starts_digit : List ℕ → Bool
starts_digit [] = false
starts_digit (c ∷ cs) = is_digit c

starts-print_acc :
    (n : ℕ) (rest : List ℕ) (w : Acc ◌<◌ n) → starts_digit (print_acc n rest w) ≡ true
unfolding print_acc
starts-print_acc n rest (Acc.intro _ smaller) = grind (
  arith,
  λ (p : n / 10 < n). starts-print_acc (n / 10) ((b'0' + n % 10) ∷ rest) (smaller (n / 10) p),
)

-- A text that begins with a digit is read from there.
scan_int-digit : (cs : List ℕ) → starts_digit cs ≡ true → scan_int cs ≡ some (pos (scan_nat 0 cs))
unfolding scan_int
scan_int-digit [] h = cc
scan_int-digit (c ∷ cs) h = ground arith

print_acc-append :
    (n : ℕ) (xs ys : List ℕ) (w : Acc ◌<◌ n) → print_acc n (xs ++ ys) w ≡ print_acc n xs w ++ ys
unfolding print_acc
print_acc-append n xs ys (Acc.intro _ smaller) = grind (
  arith,
  λ (p : n / 10 < n). print_acc-append (n / 10) ((b'0' + n % 10) ∷ xs) ys (smaller (n / 10) p),
)

scan-print_nat : (n : ℕ) (rest : List ℕ) → scan_nat 0 (print_nat n rest) ≡ scan_nat n rest
unfolding print_nat
scan-print_nat n rest = scan-print_acc n rest (lt_wf.apply n)

starts-print_nat : (n : ℕ) (rest : List ℕ) → starts_digit (print_nat n rest) ≡ true
unfolding print_nat
starts-print_nat n rest = starts-print_acc n rest (lt_wf.apply n)

print_nat-append : (n : ℕ) (rest : List ℕ) → print_nat n [] ++ rest ≡ print_nat n rest
unfolding print_nat
print_nat-append n rest = sym (print_acc-append n [] rest (lt_wf.apply n))

-- `sscanf` reads back the number that `sprintf` wrote into an array.
pub scan-print_pos :
    (n : ℕ) (content : List ℕ) → scan_int (write_string (print_int (pos n)) content) ≡ some (pos n)
unfolding print_int write_string scan_nat
scan-print_pos n content =
    let tail = 0 ∷ drop (suc (length (print_nat n []))) content in
    ap scan_int (print_nat-append n tail)
    ∙ scan_int-digit (print_nat n tail) (starts-print_nat n tail)
    ∙ ap (λ m. some (pos m)) (scan-print_nat n tail ∙ refl)

-- The answer -1 is read as a negative number.
pub scan-print_minus_one :
    (content : List ℕ) → scan_int (write_string (print_int (negsuc 0)) content) ≡ some (negsuc 0)
unfolding print_int print_nat write_string scan_int
scan-print_minus_one content = refl
