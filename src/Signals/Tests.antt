-- ===== src/Signals/Tests.antt =====
-- One signal of TYPE 2 and two of TYPE 3, and the arguments of `main`.
use op_sys.Common.{
  ℕ, suc, ◌%◌, ◌-◌, ◌≤◌, ◌≡◌, refl, arith, List, [], ◌∷◌, ℤ, pos, negsuc, ltb, if◌then◌else◌,
}
use op_sys.Signals.{
  suspending, real_time, suspended, done, System, Step, Reach, refused, runs, main,
}
use op_sys.Signals.Counted.{counts_bounded}
use op_sys.Signals.Answered.{all_answered}
use op_sys.Signals.Lost.{missed, can_hang, can_end, can_lose}

-- The first character as a digit, or a negative number for none.
abbrev first_digit : List ℕ → ℤ
first_digit (c ∷ s) = if ltb c b'0' then negsuc 0 else pos (c - b'0')
first_digit [] = pos 0

main_runs : main first_digit ([] ∷ (b'5' ∷ []) ∷ (b'3' ∷ []) ∷ []) ≡ runs 5 real_time
unfolding main
main_runs = refl

main_zero : main first_digit ([] ∷ (b'0' ∷ []) ∷ (b'3' ∷ []) ∷ []) ≡ refused 1
unfolding main
main_zero = refl

main_type : main first_digit ([] ∷ (b'5' ∷ []) ∷ (b'4' ∷ []) ∷ []) ≡ refused 1
unfolding main
main_type = refl

abbrev ended : (s : System) × Reach suspending 4 s × (s.parent ≡ done 5)
ended = can_end 4

all_answered_example :
    (ended.0.sent_to_child ≡ 4) × (ended.0.received_by_parent ≡ 4) × (5 ≡ suc 4 % 256)
all_answered_example = all_answered ended.1 ended.2

counts_bounded_example :
    (ended.0.received_by_parent ≤ 4)
    × (ended.0.received_by_parent ≤ ended.0.received_by_child)
    × (ended.0.received_by_child ≤ 5)
    × (ended.0.sent_to_child ≤ 5)
counts_bounded_example = counts_bounded ended.1

can_hang_example :
    Reach suspending 3 (missed 1)
    × ((missed 1).parent ≡ suspended)
    × ¬ Step suspending 3 (missed 1) (missed 1)
can_hang_example = can_hang 1 (omega arith) (missed 1)

can_lose_example :
    (s : System) × Reach real_time 2 s
    × (s.parent ≡ done 1)
    × (s.sent_to_child ≡ 3)
    × (s.received_by_parent ≡ 0)
can_lose_example = can_lose 2 (omega arith)
