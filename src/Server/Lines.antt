-- ===== src/Server/Lines.antt =====
-- The text that `handle_mirror` reverses: a line in an array, with or without its newline.
use op_sys.Common.{
  ℕ, zero, suc, ◌-◌, ◌<◌, ◌≡◌, ◌≢◌, ◌∙◌, refl, ap, List, [], ◌∷◌, ◌++◌, ◌⊎◌, inl, inr, false,
  length, take, drop, reverse, arith, strlen, ◌==◌, get_or, take_front, drop_front, get_or-append,
}
use op_sys.Server.{mirror_content, mirrored_length}
use op_sys.Server.Mirror.{mirror-reverse}

abbrev pub HasNoZero : List ℕ → Type 0
HasNoZero [] = Unit
HasNoZero (c ∷ cs) = (c ≢ 0) × HasNoZero cs

abbrev pub IsLine : List ℕ → Type 0
IsLine [] = Unit
IsLine (c ∷ cs) = (c ≢ 0) × (c ≢ 10) × IsLine cs

pub strlen_line :
    (line rest : List ℕ) → HasNoZero line → strlen (line ++ (10 ∷ 0 ∷ rest)) ≡ suc (length line)
unfolding strlen
strlen_line [] rest h = refl
strlen_line (x ∷ line) rest h = ground (arith, strlen_line line rest h.1)

line_mirrored :
    (line rest : List ℕ) → HasNoZero line → mirrored_length (line ++ (10 ∷ 0 ∷ rest)) ≡ length line
unfolding mirrored_length
line_mirrored line rest h =
    rw (strlen_line line rest h)
      (ground (arith, get_or-append line (0 ∷ rest) 10 0 (suc (length line) - 1) (omega arith)))

strlen_bare : (line rest : List ℕ) → IsLine line → strlen (line ++ (0 ∷ rest)) ≡ length line
unfolding strlen
strlen_bare [] rest h = refl
strlen_bare (x ∷ line) rest h = ground (arith, strlen_bare line rest h.2, h.0)

no_newline :
    (line rest : List ℕ) (i : ℕ)
    → IsLine line
    → i < length line
    → (get_or (line ++ rest) i 0 == 10) ≡ false
no_newline [] rest i h l = absurd (omega arith)
no_newline (x ∷ line) rest zero h l = ground (arith, h.1)
no_newline (x ∷ line) rest (suc i) h l = no_newline line rest i h.2 (omega arith)

bare_mirrored :
    (line rest : List ℕ) → IsLine line → mirrored_length (line ++ (0 ∷ rest)) ≡ length line
unfolding mirrored_length
bare_mirrored line rest h =
    rw (strlen_bare line rest h) (ground (arith, no_newline line (0 ∷ rest) (length line - 1) h))

mirror_front :
    (line tail : List ℕ)
    → mirrored_length (line ++ tail) ≡ length line
    → mirror_content (line ++ tail) ≡ reverse line ++ tail
mirror_front line tail h =
    mirror-reverse (line ++ tail)
    ∙ ap (λ n. reverse (take n (line ++ tail)) ++ drop n (line ++ tail)) h
    ∙ ap (λ t. reverse t ++ drop (length line) (line ++ tail))
        (take_front line tail (length line) refl)
    ∙ ap (λ t. reverse line ++ t) (drop_front line tail (length line) refl)

pub mirrored_line :
    (line rest : List ℕ)
    → HasNoZero line
    → mirror_content (line ++ (10 ∷ 0 ∷ rest)) ≡ reverse line ++ (10 ∷ 0 ∷ rest)
mirrored_line line rest h = mirror_front line (10 ∷ 0 ∷ rest) (line_mirrored line rest h)

IsLine-HasNoZero : (line : List ℕ) → IsLine line → HasNoZero line
IsLine-HasNoZero [] h = tt
IsLine-HasNoZero (x ∷ line) h = (h.0, IsLine-HasNoZero line h.2)

-- A line, with its newline or without, and the end of the text.
pub mirrored :
    (line tail rest : List ℕ)
    → IsLine line
    → (tail ≡ 10 ∷ 0 ∷ rest) ⊎ (tail ≡ 0 ∷ rest)
    → mirror_content (line ++ tail) ≡ reverse line ++ tail
mirrored line tail rest h (inl e) = rw e (mirrored_line line rest (IsLine-HasNoZero line h))
mirrored line tail rest h (inr e) = rw e (mirror_front line (0 ∷ rest) (bare_mirrored line rest h))
