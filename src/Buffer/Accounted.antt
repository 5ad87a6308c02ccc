-- ===== src/Buffer/Accounted.antt =====
-- Each line of the file is unread, in the hands of a producer, or claimed.
use op_sys.Common.{
  ℕ, zero, suc, ◌+◌, ◌<◌, ◌≤◌, ◌≡◌, refl, ap, Bool, true, false, List, [], ◌∷◌, ◌++◌, arith, dec_lt,
}
use op_sys.Buffer.{
  Pc, entering, inside, finished, Role, producer, consumer, Shared, Move, read, claim, update,
}
use op_sys.Buffer.System.{System, begins, move, join, Reach, created, later, roles}
use op_sys.Buffer.Places.{produces, Move-produces, Reach-produces}

pub roles-consumer : (prods a : ℕ) → ¬ (a < prods) → roles prods a ≡ consumer
roles-consumer prods a h = ground arith

module _ (test : List ℕ → Bool) where
  abbrev pub one : Bool → ℕ
  one true = 1
  one false = 0

  abbrev pub number : List (List ℕ) → ℕ
  number [] = 0
  number (x ∷ xs) = one (test x) + number xs

  -- A line that is read but not claimed.
  abbrev pub in_hand : Pc → ℕ
  in_hand (entering l) = one (test l)
  in_hand (inside l) = one (test l)
  in_hand _ = 0

  abbrev pub in_hands : (ℕ → Pc) → ℕ → ℕ
  in_hands pc zero = 0
  in_hands pc (suc p) = in_hand (pc p) + in_hands pc p

  pub number-append : (xs ys : List (List ℕ)) → number (xs ++ ys) ≡ number xs + number ys
  number-append [] ys = omega arith
  number-append (x ∷ xs) ys = omega (arith, number-append xs ys)

  in_hands-away :
      (pc : ℕ → Pc) (a : ℕ) (p : Pc) (k : ℕ) → k ≤ a → in_hands (update pc a p) k ≡ in_hands pc k
  in_hands-away pc a p zero h = refl
  in_hands-away pc a p (suc k) h = ground (arith, in_hands-away pc a p k)

  last : (a k : ℕ) → a < suc k → ¬ (a < k) → a ≡ k
  last a k h h' = omega arith

  in_hands-update :
      (pc : ℕ → Pc) (a : ℕ) (p : Pc) (k : ℕ)
      → a < k
      → in_hands (update pc a p) k + in_hand (pc a) ≡ in_hands pc k + in_hand p
  in_hands-update pc a p zero h = absurd (omega arith)
  in_hands-update pc a p (suc k) h = elim (dec_lt a k) [
    | yes p' ↦ ground (arith, in_hands-update pc a p k p', p')
    | no p' ↦ ground (arith, in_hands-away pc a p k (omega arith), ap pc (last a k h p'))
  ]

  pub in_hands-none :
      (pc : ℕ → Pc) (k : ℕ) → ((a : ℕ) → a < k → pc a ≡ finished) → in_hands pc k ≡ 0
  in_hands-none pc zero h = refl
  in_hands-none pc (suc k) h =
      ground (arith, ap in_hand (h k (omega arith)), in_hands-none pc k (λ a l. h a (omega arith)))

  in_hand-none : (p : Pc) → produces p ≡ false → in_hand p ≡ 0
  in_hand-none (entering l) e = absurd (ground arith)
  in_hand-none p e = ground arith

  begins-in_hand : (r : Role) → in_hand (begins r) ≡ 0
  begins-in_hand producer = refl
  begins-in_hand consumer = refl

  begins-none : (prods k : ℕ) → in_hands (λ a. begins (roles prods a)) k ≡ 0
  begins-none prods zero = refl
  begins-none prods (suc k) = ground (arith, begins-in_hand (roles prods k), begins-none prods k)

  module _ {n : ℕ} {full_info : Bool} where
    Move-number :
        {m m' : Shared} {p p' : Pc}
        → Move n full_info m p m' p'
        → number m'.claims + in_hand p' + number m'.file
          ≡ number m.claims + in_hand p + number m.file
    Move-number (read {l} {rest} g) = omega (arith, ap number g)
    Move-number {m} (claim {l} v g) = omega (arith, number-append m.claims (l ∷ []))
    Move-number mv = refl

    pub Reach-number :
        (prods : ℕ) {file : List (List ℕ)} {s : System}
        → Reach n full_info (roles prods) file s
        → number s.mem.claims + in_hands s.pc prods + number s.mem.file ≡ number file
    Reach-number prods {file} created = omega (arith, begins-none prods prods)
    Reach-number prods (later {s} r (join h)) = Reach-number prods r
    Reach-number prods (later {s} r (move a {p} mv)) = elim (dec_lt a prods) [
      | yes l ↦
          omega (arith, Reach-number prods r, Move-number mv, in_hands-update s.pc a p prods l)
      | no l ↦
          (let stays = Reach-produces r a (roles-consumer prods a l) in
            omega (
              arith,
              Reach-number prods r,
              Move-number mv,
              in_hand-none (s.pc a) stays,
              in_hand-none p (Move-produces mv stays),
              in_hands-away s.pc a p prods (omega (arith, l)),
            ))
    ]
