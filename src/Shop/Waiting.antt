-- ===== src/Shop/Waiting.antt =====
-- The queue of common.h as a list: `enqueue` adds behind, `dequeue` takes the first.
use op_sys.Common.{
  take-set, take-set_ge, take-shift, length-shift, shift, negsuc, sym, ◌⊎◌, ℕ, suc, ◌+◌, ◌-◌, ◌≤◌,
  ◌<◌, ◌≡◌, ap, ◌∙◌, true, false, List, [], ◌∷◌, ◌++◌, arith, ℤ, pos, pos_part, if◌then◌else◌, ◌==◌,
  get_or, set, length, take, length-set, Bool-cases, inl, inr,
}
use op_sys.Shop.{Shop, max_clients, q_full, q_empty, enqueue, dequeue}

abbrev pub waiting : Shop → List ℕ
waiting s = take s.total_clients s.q

-- The array has its size, and no more clients wait than there are chairs.
pub record Fits (s : Shop) : Type 0 where
  pub cells : length s.q ≡ max_clients
  pub seated : s.total_clients ≤ pos_part s.waiting_room_size
  pub chairs : pos_part s.waiting_room_size ≤ max_clients

has_room : (s : Shop) → Fits s → q_full s ≡ false → s.total_clients < length s.q
unfolding q_full
has_room s f room = ground arith

-- With a free chair `enqueue` puts the client behind those who wait; otherwise the waiting clients stay
-- as they are.
pub waiting-enqueue :
    (p : ℕ) (s : Shop)
    → Fits s
    → waiting (enqueue p s) ≡ (if q_full s then waiting s else waiting s ++ p ∷ [])
unfolding enqueue
waiting-enqueue p s f = elim (Bool-cases (q_full s)) [
  | inl full ↦ rw full
  | inr room ↦ rw room (take-set s.total_clients s.q p (has_room s f room))
]

abbrev pub count : ℕ → List ℕ → ℕ
count p [] = 0
count p (x ∷ xs) = (if x == p then 1 else 0) + count p xs

count-snoc :
    (p x : ℕ) (xs : List ℕ) → count p (xs ++ x ∷ []) ≡ count p xs + (if x == p then 1 else 0)
count-snoc p x [] = omega arith
count-snoc p x (y ∷ xs) = omega (arith, count-snoc p x xs)

pub count-enqueue :
    (a p : ℕ) (s : Shop)
    → Fits s
    → count a (waiting (enqueue p s))
      ≡ count a (waiting s) + (if q_full s then 0 else if p == a then 1 else 0)
count-enqueue a p s f = elim (Bool-cases (q_full s)) [
  | inl full ↦ rw (waiting-enqueue p s f, full) (omega arith)
  | inr room ↦ rw (waiting-enqueue p s f, room) (count-snoc a p (waiting s))
]

-- The other fields of the shop.
pub enqueue-fields :
    (p : ℕ) (s : Shop)
    → ((enqueue p s).status ≡ s.status)
      × ((enqueue p s).curr_client ≡ s.curr_client)
      × ((enqueue p s).waiting_room_size ≡ s.waiting_room_size)
      × ((enqueue p s).total_clients ≡ (if q_full s then s.total_clients else suc s.total_clients))
unfolding enqueue
enqueue-fields p s = ground arith

pub dequeue-fields :
    (s : Shop)
    → ((dequeue s).1.status ≡ s.status) × ((dequeue s).1.waiting_room_size ≡ s.waiting_room_size)
unfolding dequeue
dequeue-fields s = ground arith

pub enqueue-Fits : (p : ℕ) (s : Shop) → Fits s → Fits (enqueue p s)
unfolding enqueue
enqueue-Fits p s f = ground (arith, length-set s.q s.total_clients p)

take-dequeue :
    (n : ℕ) (xs : List ℕ)
    → n < length xs
    → take (suc n) xs ≡ get_or xs 0 0 ∷ take n (set (shift 0 n 0 xs) n 0)
take-dequeue n [] h = absurd (omega arith)
take-dequeue n (x ∷ xs) h = ap (◌∷◌ x) (
    sym
      (take-set_ge n n (shift 0 n 0 (x ∷ xs)) 0 (omega arith) ∙ take-shift 0 n x xs (omega arith)))

-- The contract of `dequeue`.
abbrev pub Dequeues : Shop → ℤ × Shop → Type 0
Dequeues s r =
    ((s.total_clients ≡ 0) × (r ≡ (negsuc 0, s)))
    ⊎ ((p : ℕ) × (r.0 ≡ pos p) × (waiting s ≡ p ∷ waiting r.1) × (0 < s.total_clients))

-- `dequeue` answers -1 on an empty queue and leaves it as it is; otherwise it answers the client that
-- has waited longest and leaves the others in their order.
pub dequeue-Dequeues : (s : Shop) → Fits s → Dequeues s (dequeue s)
unfolding dequeue
dequeue-Dequeues s f = elim (Bool-cases (s.total_clients == 0)) [
  | inl empty ↦ inl (none_wait empty, rw (empty, q_empty))
  | inr some_wait ↦ inr (
    get_or s.q 0 0,
    rw (some_wait, q_empty),
    rw (some_wait, q_empty) (unroll some_wait),
    ground arith,
  )
]
  where
    none_wait : (s.total_clients == 0) ≡ true → s.total_clients ≡ 0
    none_wait e = ground arith

    unroll :
        (s.total_clients == 0) ≡ false
        → waiting s
          ≡ get_or s.q 0 0
            ∷ take
                (s.total_clients - 1)
                (set (shift 0 (s.total_clients - 1) 0 s.q) (s.total_clients - 1) 0)
    unroll e =
        let one_more : s.total_clients ≡ suc (s.total_clients - 1) = ground arith in
        ap (λ n. take n s.q) one_more ∙ take-dequeue (s.total_clients - 1) s.q (ground arith)

pub dequeue-Fits : (s : Shop) → Fits s → Fits (dequeue s).1
unfolding dequeue
dequeue-Fits s f = ground (
  arith,
  length-set (shift 0 (s.total_clients - 1) 0 s.q) (s.total_clients - 1) 0,
  length-shift 0 (s.total_clients - 1) 0 s.q,
)
