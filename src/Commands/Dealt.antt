-- ===== src/Commands/Dealt.antt =====
-- The tokens of a pipeline, dealt out to its programs.
use op_sys.Common.{
  ℕ, zero, suc, ◌+◌, ◌-◌, ◌≤◌, ◌<◌, ◌≡◌, ◌∙◌, ap, sym, refl, true, false, ◌&&◌, some, List, [], ◌∷◌,
  ◌++◌, arith, ltb, length, replicate, length-append, set-append, get_or-append,
}
use mathlib.Core.List.{append_assoc, append-nil}
use op_sys.Commands.{is_bar, store_arg, deal, programs, max_args, max_progs_piped, buffer_size}

abbrev bar : List ℕ
bar = b'|' ∷ []

-- The programs of a pipeline with a bar between them.
abbrev pub print_pipeline : List (List ℕ) → List (List (List ℕ)) → List (List ℕ)
print_pipeline p [] = p
print_pipeline p (q ∷ ps) = p ++ bar ∷ print_pipeline q ps

-- Arguments that are not bars and fit their buffers.
abbrev pub AreArgs : List (List ℕ) → Type 0
AreArgs [] = Unit
AreArgs (t ∷ ts) = ((is_bar t ≡ false) × (length t < buffer_size)) × AreArgs ts

-- The program's name and at most `max_args` arguments.
abbrev pub ArePrograms : List (List (List ℕ)) → Type 0
ArePrograms [] = Unit
ArePrograms (p ∷ ps) = (AreArgs p × (length p ≤ suc max_args)) × ArePrograms ps

deal_program :
    (p cur rest : List (List ℕ)) (before after : List (List (List ℕ)))
    → AreArgs p
    → length before < max_progs_piped
    → length cur + length p ≤ suc max_args
    → deal (p ++ rest) (length before) (before ++ cur ∷ after)
      ≡ deal rest (length before) (before ++ (cur ++ p) ∷ after)
unfolding deal
deal_program [] cur rest before after h few room =
    ap (λ c. deal rest (length before) (before ++ c ∷ after)) (sym (append-nil cur))
deal_program (t ∷ p) cur rest before after h few room =
    rw (deal, h.0.0, stored)
      (deal_program p (cur ++ t ∷ []) rest before after h.1 few
          (omega (arith, length-append cur (t ∷ [])))
        ∙ ap (λ c. deal rest (length before) (before ++ c ∷ after)) (append_assoc cur (t ∷ []) p))
  where
    fits :
        (ltb (length before) max_progs_piped
          && ltb (length cur) (suc max_args)
          && ltb (length t) buffer_size)
        ≡ true
    fits = ground arith

    stored :
        store_arg t (length before) (before ++ cur ∷ after)
        ≡ some (before ++ (cur ++ t ∷ []) ∷ after)
    stored =
        rw (get_or-append before after cur [] (length before) refl, fits)
          (ap some (set-append before after cur (cur ++ t ∷ []) (length before) refl))

deal_pipeline :
    (ps : List (List (List ℕ))) (p : List (List ℕ)) (before : List (List (List ℕ))) (k : ℕ)
    → ArePrograms (p ∷ ps)
    → length before + length ps < max_progs_piped
    → length ps ≤ k
    → deal (print_pipeline p ps) (length before) (before ++ [] ∷ replicate k [])
      ≡ some (length before + length ps, before ++ (p ∷ ps ++ replicate (k - length ps) []))
unfolding deal
deal_pipeline [] p before k h few room =
    ap (λ l. deal l (length before) (before ++ [] ∷ replicate k [])) (sym (append-nil p))
    ∙ deal_program p [] [] before (replicate k []) h.0.0 (omega arith) (omega (arith, h.0.1))
    ∙ ap (λ m. some (m, before ++ p ∷ replicate k [])) (omega arith)
    ∙ ap (λ m. some (length before + 0, before ++ p ∷ replicate m [])) (omega arith)
deal_pipeline (q ∷ ps) p before zero h few room = absurd (omega arith)
deal_pipeline (q ∷ ps) p before (suc k) h few room =
    let done = before ++ p ∷ [] in
    let size : suc (length before) ≡ length done = omega (arith, length-append before (p ∷ [])) in
    let rest = replicate (k - length ps) [] in
    deal_program p [] (bar ∷ print_pipeline q ps) before (replicate (suc k) []) h.0.0 (omega arith)
      (omega (arith, h.0.1))
    ∙ ap (deal (print_pipeline q ps) (suc (length before)))
        (sym (append_assoc before (p ∷ []) ([] ∷ replicate k [])))
    ∙ ap (λ m. deal (print_pipeline q ps) m (done ++ [] ∷ replicate k [])) size
    ∙ deal_pipeline ps q done k h.1 (omega (arith, length-append before (p ∷ []))) (omega arith)
    ∙ ap (λ m. some (m, done ++ (q ∷ ps ++ rest))) (omega (arith, size))
    ∙ ap (λ l. some (length before + suc (length ps), l))
        (append_assoc before (p ∷ []) (q ∷ ps ++ rest))
    ∙ ap (λ m. some (length before + suc (length ps), before ++ (p ∷ q ∷ ps ++ replicate m [])))
        (omega arith)

-- A pipeline of at most `max_progs_piped` programs, each with at most `max_args` arguments, written
-- with bars between the programs, is dealt out to the programs that it was made of; the other arrays
-- stay empty.
pub programs-print_pipeline :
    (p : List (List ℕ)) (ps : List (List (List ℕ)))
    → ArePrograms (p ∷ ps)
    → length ps < max_progs_piped
    → programs (print_pipeline p ps)
      ≡ some (length ps, p ∷ ps ++ replicate (max_progs_piped - length ps) [])
unfolding programs
programs-print_pipeline p ps h few =
    deal_pipeline ps p [] max_progs_piped h (omega (arith, few)) (omega (arith, few))
    ∙ ap (λ m. some (m, p ∷ ps ++ replicate (max_progs_piped - length ps) [])) (omega arith)
