-- ===== src/Digits/Value.antt =====
-- What the digit lists of string_to_list.c stand for, and that the arithmetic on them is right.
use mathlib.Core.WellFounded.{Acc}
use mathlib.Core.Option
use native.Mathlib.Numerals.{add-two}
use op_sys.Common.{
  false, ℕ, zero, suc, ◌+◌, ◌*◌, ◌/◌, ◌%◌, ◌≤◌, ◌<◌, ◌≡◌, refl, ap, Option, some, List, [], ◌∷◌,
  arith, Bool-cases, ◌⊎◌, inl, inr, lt_wf, length,
}
use op_sys.Digits.{
  digits_acc, create_num_as_list, dig_or_zero, next_of, more_to_add, grow, add_loop, add,
  add_repeatedly,
}

abbrev pub value : List ℕ → ℕ
value [] = 0
value (d ∷ ds) = d + 10 * value ds

abbrev pub AreDigits : List ℕ → Type 0
AreDigits [] = Unit
AreDigits (d ∷ ds) = (d < 10) × AreDigits ds

digits_acc-value : (n : ℕ) (w : Acc ◌<◌ n) → value (digits_acc n w) ≡ n
unfolding digits_acc
digits_acc-value n (Acc.intro _ smaller) =
    grind (arith, λ (p : n / 10 < n). digits_acc-value (n / 10) (smaller (n / 10) p))

digits_acc-AreDigits : (n : ℕ) (w : Acc ◌<◌ n) → AreDigits (digits_acc n w)
unfolding digits_acc
digits_acc-AreDigits n (Acc.intro _ smaller) =
    grind (arith, λ (p : n / 10 < n). digits_acc-AreDigits (n / 10) (smaller (n / 10) p))

-- The list made of a number stands for that number, whatever the root node held before.
value-create : (d : ℕ) (old : List ℕ) (n : ℕ) → value (create_num_as_list (d ∷ old) n) ≡ n
unfolding create_num_as_list
value-create d old n = omega (arith, digits_acc-value (n / 10) (lt_wf.apply (n / 10)))

pub create-AreDigits : (d : ℕ) (old : List ℕ) (n : ℕ) → AreDigits (create_num_as_list (d ∷ old) n)
unfolding create_num_as_list
create-AreDigits d old n = (omega arith, digits_acc-AreDigits (n / 10) (lt_wf.apply (n / 10)))

-- What a call of the loop promises: it ends, and its digits stand for the sum.
abbrev pub Sums : ℕ → Option (List ℕ) → Type 0
Sums n o = (r : List ℕ) × (o ≡ some r) × (value r ≡ n) × AreDigits r

value-grow : (a b : List ℕ) (l : ℕ) → value (grow a b l) ≡ value a
value-grow [] b l = ground arith
value-grow (d ∷ a) b l = refl

AreDigits-grow : (a b : List ℕ) (l : ℕ) → AreDigits a → AreDigits (grow a b l)
AreDigits-grow [] b l h = ground arith
AreDigits-grow (d ∷ a) b l h = h

grow_twice : (a b : List ℕ) (l : ℕ) → grow a b l ≡ grow (grow a b l) b l
grow_twice [] b l = ground arith
grow_twice (d ∷ a) b l = refl

value_next : (b : List ℕ) → value b ≡ dig_or_zero b + 10 * value (next_of b)
value_next [] = refl
value_next (d ∷ b) = refl

dig-lt : (b : List ℕ) → AreDigits b → dig_or_zero b < 10
dig-lt [] h = omega arith
dig-lt (d ∷ b) h = h.0

AreDigits-next : (b : List ℕ) → AreDigits b → AreDigits (next_of b)
AreDigits-next [] h = tt
AreDigits-next (d ∷ b) h = h.1

length-next : (k : ℕ) (b : List ℕ) → length b ≤ suc k → length (next_of b) ≤ k
length-next k [] h = omega arith
length-next k (d ∷ b) h = omega arith

-- A list that `k` rounds reach the end of, a node that was just appended not counted.
abbrev Fits : ℕ → List ℕ → Type 0
Fits k a = (length a ≤ k) ⊎ (a ≡ 0 ∷ [])

Fits-grow : (k d : ℕ) (a b : List ℕ) (l : ℕ) → Fits (suc k) (d ∷ a) → Fits k (grow a b l)
Fits-grow k d [] b l h = ground arith
Fits-grow k d (c ∷ a) b l h = ground arith

loop_step :
    (d : ℕ) (rest b : List ℕ) (l : ℕ) (tail : Option (List ℕ))
    → AreDigits b
    → let l' = (d + dig_or_zero b + l) / 10 in
      Sums (value (grow rest (next_of b) l') + value (next_of b) + l') tail
      → Sums
          (value (d ∷ rest) + value b + l)
          (Option.map (λ ds. ((d + dig_or_zero b + l) % 10) ∷ ds) tail)
loop_step d rest b l tail hb (r, e, v, D) = (
  ((d + dig_or_zero b + l) % 10) ∷ r,
  rw e,
  omega (arith, value-grow rest (next_of b) ((d + dig_or_zero b + l) / 10), value_next b),
  (omega arith, D),
)

-- Where the loop stops, nothing is left to add.
done_adding : (b : List ℕ) (l : ℕ) → more_to_add b l ≡ false → value b + l ≡ 0
done_adding [] l h = ground arith
done_adding (c ∷ b) l h = cc

-- The round for a carry into a node that was just appended.
last_round :
    (d : ℕ) (a : List ℕ) (l : ℕ)
    → d ∷ a ≡ 0 ∷ []
    → l ≤ 1
    → Sums (value (d ∷ a) + 0 + l) (add_loop 2 (d ∷ a) [] l)
unfolding add_loop
last_round d [] l e hl = (l ∷ [], ground arith, ground arith, ground arith)
last_round d (c ∷ a) l e hl = absurd (ground arith)

-- With digits in both lists and a carry of at most one, `k + 2` rounds reach the end of the loop.
add_loop_total :
    (k : ℕ) (a b : List ℕ) (l : ℕ)
    → Fits k a
    → length b ≤ k
    → l ≤ 1
    → AreDigits a
    → AreDigits b
    → a ≡ grow a b l
    → Sums (value a + value b + l) (add_loop (suc (suc k)) a b l)
unfolding add_loop
add_loop_total k [] [] l fa fb hl ha hb e = ([], ground arith, ground arith, tt)
add_loop_total k [] (c ∷ b) l fa fb hl ha hb e = cc
add_loop_total zero (d ∷ a) [] l (inl f) fb hl ha hb e = absurd (omega arith)
add_loop_total zero (d ∷ a) [] l (inr f) fb hl ha hb e = last_round d a l f hl
add_loop_total zero (d ∷ a) (c ∷ b) l fa fb hl ha hb e = absurd (omega arith)
add_loop_total (suc k) (d ∷ a) b l fa fb hl ha hb e = elim (Bool-cases (more_to_add b l)) [
  | inl more ↦
      rw (more, add_loop)
        (loop_step d a b l _ hb (
          add_loop_total k _ (next_of b) _ (Fits-grow k d a (next_of b) _ fa) (length-next k b fb)
            (omega (arith, dig-lt b hb)) (AreDigits-grow a (next_of b) _ ha.1) (AreDigits-next b hb)
            (grow_twice a (next_of b) _)))
  | inr done ↦ (d ∷ a, rw (done, add_loop), omega (arith, done_adding b l done), ha)
]

-- `add` returns: its first list then holds digits that stand for the sum of the two numbers.
value-add :
    (d : ℕ) (a b : List ℕ)
    → AreDigits (d ∷ a)
    → AreDigits b
    → Sums (value (d ∷ a) + value b) (add (d ∷ a) b)
unfolding add
value-add d a b ha hb =
    let (r, e, v, D) =
      add_loop_total (length b + suc (length a)) (d ∷ a) b 0 (inl (omega arith)) (omega arith)
        (omega arith) ha hb refl in
    (r, rw (add-two (length b + suc (length a))) e, omega (arith, v), D)

-- One addition, also for the empty list that the sum of two zeros might be.
add_any :
    (a b : List ℕ)
    → (a ≡ [] → value b ≡ 0)
    → AreDigits a
    → AreDigits b
    → Sums (value a + value b) (add a b)
unfolding add
add_any [] b z ha hb = ([], refl, omega (arith, z refl), tt)
add_any (d ∷ a) b z ha hb = value-add d a b ha hb

repeat_any :
    (n : ℕ) (a b : List ℕ)
    → (a ≡ [] → value b ≡ 0)
    → AreDigits a
    → AreDigits b
    → Sums (value a + n * value b) (add_repeatedly n a b)
unfolding add_repeatedly
repeat_any zero a b z ha hb = (a, refl, omega arith, ha)
repeat_any (suc n) a b z ha hb =
    let (r, e, v, D) = add_any a b z ha hb in
    let (q, e', v', D') = repeat_any n r b (λ p. omega (arith, v, ap value p)) D hb in
    (q, rw (e, add_repeatedly) e', grind (arith, v, v'), D')

-- The loop of `main`: after `n` additions the total stands for the first number and `n` times the
-- second.
pub value-add_repeatedly :
    (n d : ℕ) (a b : List ℕ)
    → AreDigits (d ∷ a)
    → AreDigits b
    → Sums (value (d ∷ a) + n * value b) (add_repeatedly n (d ∷ a) b)
value-add_repeatedly n d a b ha hb = repeat_any n (d ∷ a) b (λ e. cc) ha hb
