-- ===== src/Records/Program/Accepted.antt =====
-- Which command lines the program accepts.
use op_sys.Common.{
  ℕ, suc, ◌≡◌, ◌≢◌, refl, Bool, true, false, ◌||◌, List, [], ◌∷◌, ℤ, arith, ◌↔◌, if◌then◌else◌,
  Bool-cases, inl, inr,
}
use op_sys.Records.Program.{
  str_eq, is_zero, is_negative, generate_word, sort_word, copy_word, sys_word, lib_word, Command,
  run_generate, run_sort_sys, run_sort_lib, run_copy_sys, run_copy_lib, Parsed, runs, exits,
  parse_generate, parse_sort, parse_copy, parse, failure_code, main,
}

str_eq-eq : (a b : List ℕ) → str_eq a b ≡ true → a ≡ b
str_eq-eq [] [] h = refl
str_eq-eq [] (b ∷ bs) h = absurd (ground arith)
str_eq-eq (a ∷ as_) [] h = absurd (ground arith)
str_eq-eq (a ∷ as_) (b ∷ bs) h = ground (arith, str_eq-eq as_ bs)

abbrev pub Numbers : (List ℕ → ℤ) → List ℕ → List ℕ → Type 0
Numbers strtol r s = (is_zero (strtol r) ≡ false) × (is_zero (strtol s) ≡ false)

both_fine : (a b : Bool) → (a || b) ≡ false → (a ≡ false) × (b ≡ false)
both_fine a b h = ground arith

-- The command lines that ask for a call, by the usage messages of the program.
pub data Asks (strtol : List ℕ → ℤ) : List (List ℕ) → Command → Type 0 where
  generates :
      (f r s : List ℕ)
      → Numbers strtol r s
      → Asks strtol (generate_word ∷ f ∷ r ∷ s ∷ []) (run_generate f (strtol r) (strtol s))
  sorts_sys :
      (f r s : List ℕ)
      → Numbers strtol r s
      → Asks strtol (sort_word ∷ f ∷ r ∷ s ∷ sys_word ∷ []) (run_sort_sys f (strtol r) (strtol s))
  sorts_lib :
      (f r s : List ℕ)
      → Numbers strtol r s
      → Asks strtol (sort_word ∷ f ∷ r ∷ s ∷ lib_word ∷ []) (run_sort_lib f (strtol r) (strtol s))
  copies_sys :
      (f g r s : List ℕ)
      → Numbers strtol r s
      → Asks strtol
          (copy_word ∷ f ∷ g ∷ r ∷ s ∷ sys_word ∷ [])
          (run_copy_sys f g (strtol r) (strtol s))
  copies_lib :
      (f g r s : List ℕ)
      → Numbers strtol r s
      → Asks strtol
          (copy_word ∷ f ∷ g ∷ r ∷ s ∷ lib_word ∷ [])
          (run_copy_lib f g (strtol r) (strtol s))

-- What a call that does run was asked for.
abbrev Right : (List ℕ → ℤ) → List (List ℕ) → Parsed → Type 0
Right strtol args (runs c) = Asks strtol args c
Right strtol args (exits code) = code ≢ 0

module _ (strtol : List ℕ → ℤ) where
  generate-Right :
      (args : List (List ℕ)) → Right strtol (generate_word ∷ args) (parse_generate strtol args)
  unfolding parse_generate
  generate-Right (f ∷ r ∷ s ∷ []) = elim (Bool-cases (is_zero (strtol r) || is_zero (strtol s))) [
    | inl zero_ ↦ rw zero_ (λ e. absurd (omega arith))
    | inr fine ↦
        rw fine (generates f r s (both_fine (is_zero (strtol r)) (is_zero (strtol s)) fine))
  ]
  generate-Right [] = λ e. absurd (omega arith)
  generate-Right (_ ∷ []) = λ e. absurd (omega arith)
  generate-Right (_ ∷ _ ∷ []) = λ e. absurd (omega arith)
  generate-Right (_ ∷ _ ∷ _ ∷ _ ∷ _) = λ e. absurd (omega arith)

  -- The last argument is "sys" or "lib".
  by_way :
      (code : ℕ) (way : List ℕ) (c c' : Command) (line : List ℕ → List (List ℕ))
      → Asks strtol (line sys_word) c
      → Asks strtol (line lib_word) c'
      → Right strtol (line way) (
          if str_eq way sys_word
          then runs c
          else if str_eq way lib_word
          then runs c'
          else exits (suc code))
  by_way code way c c' line by_sys by_lib = elim (Bool-cases (str_eq way sys_word)) [
    | inl is_sys ↦ rw (is_sys, str_eq-eq way sys_word is_sys) by_sys
    | inr not_sys ↦ rw not_sys (elim (Bool-cases (str_eq way lib_word)) [
      | inl is_lib ↦ rw (is_lib, str_eq-eq way lib_word is_lib) by_lib
      | inr neither ↦ rw neither (λ e. absurd (omega arith))
    ])
  ]

  sort-Right : (args : List (List ℕ)) → Right strtol (sort_word ∷ args) (parse_sort strtol args)
  unfolding parse_sort
  sort-Right (f ∷ r ∷ s ∷ way ∷ []) = elim (Bool-cases (is_zero (strtol r) || is_zero (strtol s))) [
    | inl zero_ ↦ rw zero_ (λ e. absurd (omega arith))
    | inr fine ↦ rw fine (
        by_way _ way (run_sort_sys f (strtol r) (strtol s)) (run_sort_lib f (strtol r) (strtol s))
          (λ w. sort_word ∷ f ∷ r ∷ s ∷ w ∷ [])
          (sorts_sys f r s (both_fine (is_zero (strtol r)) (is_zero (strtol s)) fine))
          (sorts_lib f r s (both_fine (is_zero (strtol r)) (is_zero (strtol s)) fine)))
  ]
  sort-Right [] = λ e. absurd (omega arith)
  sort-Right (_ ∷ []) = λ e. absurd (omega arith)
  sort-Right (_ ∷ _ ∷ []) = λ e. absurd (omega arith)
  sort-Right (_ ∷ _ ∷ _ ∷ []) = λ e. absurd (omega arith)
  sort-Right (_ ∷ _ ∷ _ ∷ _ ∷ _ ∷ _) = λ e. absurd (omega arith)

  copy-Right : (args : List (List ℕ)) → Right strtol (copy_word ∷ args) (parse_copy strtol args)
  unfolding parse_copy
  copy-Right (f ∷ g ∷ r ∷ s ∷ way ∷ []) =
      elim (Bool-cases (is_zero (strtol r) || is_zero (strtol s))) [
        | inl zero_ ↦ rw zero_ (λ e. absurd (omega arith))
        | inr fine ↦ rw fine (
            by_way _ way (run_copy_sys f g (strtol r) (strtol s))
              (run_copy_lib f g (strtol r) (strtol s)) (λ w. copy_word ∷ f ∷ g ∷ r ∷ s ∷ w ∷ [])
              (copies_sys f g r s (both_fine (is_zero (strtol r)) (is_zero (strtol s)) fine))
              (copies_lib f g r s (both_fine (is_zero (strtol r)) (is_zero (strtol s)) fine)))
      ]
  copy-Right [] = λ e. absurd (omega arith)
  copy-Right (_ ∷ []) = λ e. absurd (omega arith)
  copy-Right (_ ∷ _ ∷ []) = λ e. absurd (omega arith)
  copy-Right (_ ∷ _ ∷ _ ∷ []) = λ e. absurd (omega arith)
  copy-Right (_ ∷ _ ∷ _ ∷ _ ∷ []) = λ e. absurd (omega arith)
  copy-Right (_ ∷ _ ∷ _ ∷ _ ∷ _ ∷ _ ∷ _) = λ e. absurd (omega arith)

  parse-Right : (args : List (List ℕ)) → Right strtol args (parse strtol args)
  unfolding parse
  parse-Right [] = λ e. absurd (omega arith)
  parse-Right (function ∷ args) = elim (Bool-cases (str_eq function generate_word)) [
    | inl e ↦ rw (e, str_eq-eq function generate_word e) (generate-Right args)
    | inr e ↦ rw e (elim (Bool-cases (str_eq function sort_word)) [
      | inl e' ↦ rw (e', str_eq-eq function sort_word e') (sort-Right args)
      | inr e' ↦ rw e' (elim (Bool-cases (str_eq function copy_word)) [
        | inl e'' ↦ rw (e'', str_eq-eq function copy_word e'') (copy-Right args)
        | inr e'' ↦ rw e'' (λ k. absurd (omega arith))
      ])
    ])
  ]

  asked-runs :
      (args : List (List ℕ)) (c : Command) → Asks strtol args c → parse strtol args ≡ runs c
  unfolding parse parse_generate parse_sort parse_copy
  asked-runs _ _ (generates f r s (n, m)) = rw (n, m) refl
  asked-runs _ _ (sorts_sys f r s (n, m)) = rw (n, m) refl
  asked-runs _ _ (sorts_lib f r s (n, m)) = rw (n, m) refl
  asked-runs _ _ (copies_sys f g r s (n, m)) = rw (n, m) refl
  asked-runs _ _ (copies_lib f g r s (n, m)) = rw (n, m) refl

failure_code-ne : (c : Command) → failure_code c ≢ 0
failure_code-ne (run_generate f n m) = λ e. absurd (omega arith)
failure_code-ne (run_sort_sys f n m) = λ e. absurd (omega arith)
failure_code-ne (run_sort_lib f n m) = λ e. absurd (omega arith)
failure_code-ne (run_copy_sys f g n m) = λ e. absurd (omega arith)
failure_code-ne (run_copy_lib f g n m) = λ e. absurd (omega arith)

-- The program exits with 0 exactly if the command line asks for a call, in one of the forms of the usage
-- messages and with numbers that are not 0, and the called function does not return a negative number.
pub main_zero :
    (strtol : List ℕ → ℤ) (result : Command → ℤ) (args : List (List ℕ))
    → (main strtol result args ≡ 0)
      ↔ ((c : Command) × Asks strtol args c × (is_negative (result c) ≡ false))
unfolding main
main_zero strtol result args = (
  went_well (parse strtol args) (parse-Right strtol args),
  λ (c, asked, fine). rw (main, asked-runs strtol args c asked, fine) refl,
)
  where
    went_well :
        (p : Parsed)
        → Right strtol args p
        → (elim p [
          | runs c ↦ if is_negative (result c) then failure_code c else 0
          | exits code ↦ code
        ])
          ≡ 0
        → (c : Command) × Asks strtol args c × (is_negative (result c) ≡ false)
    went_well (runs c) asked e = elim (Bool-cases (is_negative (result c))) [
      | inl bad ↦ absurd (failure_code-ne c (rw bad at e))
      | inr fine ↦ (c, asked, fine)
    ]
    went_well (exits code) not_zero e = absurd (not_zero e)
