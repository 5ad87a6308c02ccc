-- ===== src/Commands/Printed.antt =====
-- Lines written from words, in the form that `tokenize` reads.
use op_sys.Common.{
  ℕ, ◌<◌, ◌≡◌, Bool, true, false, not, ◌&&◌, ◌||◌, List, [], ◌∷◌, ◌++◌, ◌==◌, length,
}
use op_sys.Commands.{buffer_size}

-- A token, bare or in quotes.
pub data Word : Type 0 where
  plain : List ℕ → Word
  quoted : List ℕ → Word

abbrev pub text : Word → List ℕ
text (plain s) = s
text (quoted s) = s

abbrev pub print_word : Word → List ℕ
print_word (plain s) = s
print_word (quoted s) = b'"' ∷ (s ++ b'"' ∷ [])

-- Words with a space between them.
abbrev pub print_line : List Word → List ℕ
print_line [] = []
print_line (w ∷ []) = print_word w
print_line (w ∷ v ∷ ws) = print_word w ++ b' ' ∷ print_line (v ∷ ws)

-- Characters that a round of the loop only passes over, bare or in quotes.
abbrev pub passes : Bool → ℕ → Bool
passes is_quoted c = not (c == b'"') && (is_quoted || not (c == b' '))

abbrev pub AllPass : Bool → List ℕ → Type 0
AllPass q [] = Unit
AllPass q (c ∷ cs) = (passes q c ≡ true) × AllPass q cs

-- A bare word is not empty and has no spaces; no word has quotes, and each fits its buffer.
abbrev pub IsWord : Word → Type 0
IsWord (plain s) = (0 < length s) × AllPass false s × (length s < buffer_size)
IsWord (quoted s) = AllPass true s × (length s < buffer_size)

abbrev pub AreWords : List Word → Type 0
AreWords [] = Unit
AreWords (w ∷ ws) = IsWord w × AreWords ws
