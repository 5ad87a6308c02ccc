-- ===== src/Buffer/Safety.antt =====
-- What the program relies on, however its threads are interleaved.
use mathlib.Core.List.{append-nil, append_assoc, map-append}
use op_sys.Common.{
  Bool-cases, zero, suc, ◌-◌, ◌∷◌, ◌++◌, dec_lt, take-suc, ℕ, ◌+◌, ◌%◌, ◌≤◌, ◌<◌, ◌≡◌, ◌≢◌, ◌∙◌,
  ◌⊎◌, inl, inr, refl, ap, sym, Bool, true, false, some, List, [], arith, length, get_or, take, map,
}
use op_sys.Buffer.{Cell, empty, full, writing, finished, Role, consumer}
use op_sys.Buffer.System.{System, Reach, roles}
use op_sys.Buffer.Invariant.{holds, ticket, Inv}
use op_sys.Buffer.Invariant.Kept.{Reach-Inv}
use op_sys.Buffer.Places.{consumes, ticket-produces, Reach-produces, Reach-consumes, Reach-finished}
use op_sys.Buffer.Accounted.{number, in_hands-none, Reach-number, roles-consumer}

-- With at least one cell, in every state that can be reached: the consumers have taken the lines in
-- the order in which the producers claimed cells for them, each once and whole, and at most as many
-- lines as there are cells are claimed and not taken.
pub taken_in_order :
    {n : ℕ} {full_info : Bool} {role : ℕ → Role} {file : List (List ℕ)} {s : System}
    → 0 < n
    → Reach n full_info role file s
    → (s.mem.taken ≡ map full (take (length s.mem.taken) s.mem.claims))
      × (length s.mem.taken ≤ length s.mem.claims)
      × (length s.mem.claims ≤ length s.mem.taken + n)
taken_in_order some_cell r =
    let inv = Reach-Inv some_cell r in
    (
      inv.counts.in_order,
      inv.counts.taken_claims,
      omega (arith, inv.counts.free_cells, inv.counts.behind),
    )

-- With at least one cell, in every state that can be reached: two threads are never both between the
-- wait for a semaphore, other than the one that counts the free cells, and the post that gives it back.
pub one_holder :
    {n : ℕ} {full_info : Bool} {role : ℕ → Role} {file : List (List ℕ)} {s : System}
    → 0 < n
    → Reach n full_info role file s
    → (a b i : ℕ) → a ≢ b
    → holds n (s.pc a) i ≡ true
    → holds n (s.pc b) i ≡ false
one_holder {n} {s} some_cell r a b i other h = elim (Bool-cases (holds n (s.pc b) i)) [
  | inl h' ↦ absurd (other ((Reach-Inv some_cell r).locks.unique a b i h h'))
  | inr h' ↦ h'
]

-- With at least one cell, in every state that can be reached: a producer that stores a line stores it in a cell that is empty.
stores_in_empty :
    {n : ℕ} {full_info : Bool} {role : ℕ → Role} {file : List (List ℕ)} {s : System}
    → 0 < n
    → Reach n full_info role file s
    → (a i k : ℕ) (l : List ℕ) → s.pc a ≡ writing i k l
    → s.mem.cells i ≡ empty
stores_in_empty {n} {s} some_cell r a i k l e =
    ground (arith, e, (Reach-Inv some_cell r).places.fact a)

-- The contents of `c` cells from that of the claim `t` on, round the array.
abbrev pub waiting_cells : (n : ℕ) (cells : ℕ → Cell) (t c : ℕ) → List Cell
waiting_cells n cells t zero = []
waiting_cells n cells t (suc c) = cells (t % n) ∷ waiting_cells n cells (suc t) c

waiting_cells-full :
    (n : ℕ) (cells : ℕ → Cell) (claims : List (List ℕ)) (t c : ℕ)
    → t + c ≤ length claims
    → ((k : ℕ) → t ≤ k → k < length claims → cells (k % n) ≡ full (get_or claims k []))
    → map full (take t claims) ++ waiting_cells n cells t c ≡ map full (take (t + c) claims)
waiting_cells-full n cells claims t zero h filled =
    append-nil (map full (take t claims)) ∙ ap (λ k. map full (take k claims)) (omega arith)
waiting_cells-full n cells claims t (suc c) h filled =
    ap (λ x. map full (take t claims) ++ x ∷ waiting_cells n cells (suc t) c)
      (filled t (omega arith) (omega arith))
    ∙ sym (
        append_assoc (map full (take t claims)) (full (get_or claims t []) ∷ [])
          (waiting_cells n cells (suc t) c))
    ∙ ap (λ r. r ++ waiting_cells n cells (suc t) c)
        (sym (map-append full (take t claims) (get_or claims t [] ∷ []))
          ∙ ap (map full) (sym (take-suc t claims [] (omega arith))))
    ∙ waiting_cells-full n cells claims (suc t) c (omega arith) (λ k g. filled k (omega arith))
    ∙ ap (λ k. map full (take k claims)) (omega arith)

take-length : (xs : List (List ℕ)) → take (length xs) xs ≡ xs
take-length [] = refl
take-length (x ∷ xs) = ap (◌∷◌ x) (take-length xs)

-- Without a producer at work no claim is pending.
stored :
    {n : ℕ} {full_info : Bool} {prods : ℕ} {file : List (List ℕ)} {s : System} {P : Type 0}
    → Reach n full_info (roles prods) file s
    → ((a : ℕ) → a < prods → s.pc a ≡ finished)
    → (k : ℕ) → P ⊎ ((a : ℕ) × (ticket (s.pc a) ≡ some k))
    → P
stored r done k (inl p) = p
stored {prods} {s} r done k (inr (a, e)) = elim (dec_lt a prods) [
  | yes l ↦ absurd (ground (arith, ap ticket (done a l), e))
  | no l ↦
      absurd (
        ground (arith, ticket-produces (s.pc a) k e, Reach-produces r a (roles-consumer prods a l)))
]

-- With at least one cell and one producer, in every state that can be reached in which all producers
-- have finished: each line of the file was claimed, that is, for any test on lines as many claimed ones
-- pass it as lines of the file, and it was taken or is in its cell, in the order of the claims.
pub all_lines :
    {n : ℕ} {full_info : Bool} {prods : ℕ} {file : List (List ℕ)} {s : System}
    → 0 < n
    → 0 < prods
    → Reach n full_info (roles prods) file s
    → ((a : ℕ) → a < prods → s.pc a ≡ finished)
    → (test : List ℕ → Bool)
    → (number test s.mem.claims ≡ number test file)
      × (s.mem.taken
            ++ waiting_cells n s.mem.cells
                (length s.mem.taken)
                (length s.mem.claims - length s.mem.taken)
          ≡ map full s.mem.claims)
all_lines {n} {prods} {file} {s} some_cell some_producer r done test = (
  omega (
    arith,
    Reach-number test prods r,
    in_hands-none test s.pc prods done,
    ap (number test) (Reach-finished r 0 (ground arith) (done 0 some_producer)),
  ),
  ap (λ c. c ++ waiting_cells n s.mem.cells (length s.mem.taken) left) inv.counts.in_order
      ∙ waiting_cells-full n s.mem.cells s.mem.claims (length s.mem.taken) left
          (omega (arith, inv.counts.taken_claims))
          (λ k h h'. stored r done k (inv.places.pending k h h'))
      ∙ ap (λ k. map full (take k s.mem.claims)) (omega (arith, inv.counts.taken_claims))
      ∙ ap (map full) (take-length s.mem.claims),
)
  where
    inv : Inv n s.mem s.pc
    inv = Reach-Inv some_cell r

    left : ℕ
    left = length s.mem.claims - length s.mem.taken

-- With `full_info` off, a consumer has not ended in any state that can be reached, also where all
-- producers have finished.
consumers_stay :
    {n : ℕ} {role : ℕ → Role} {file : List (List ℕ)} {s : System}
    → Reach n false role file s
    → (a : ℕ) → role a ≡ consumer
    → s.pc a ≢ finished
consumers_stay r a e h = ground (arith, Reach-consumes r refl a e, ap consumes h)
