-- ===== src/Shop/Invariant.antt =====
-- What holds whenever the semaphore is free: who waits, who is called, and who sits in the chair.
pub mod Barber
pub mod Moves
pub mod Turns
pub mod Reached
use op_sys.Common.{
  if_cases, not, ltb_ℤ, leb_ℤ, ℕ, zero, suc, ◌+◌, ◌≤◌, ◌<◌, ◌≡◌, ◌≢◌, refl, ap, ◌∙◌, Bool, true,
  false, ◌&&◌, List, [], ◌∷◌, arith, ℤ, pos, pos_part, if◌then◌else◌, ◌==◌, length, Bool-cases, inl,
  inr, some,
}
use op_sys.Shop.{
  Shop, BarberStatus, sleeping, woken_up, inviting, start_shaving, end_shaving, free, q_full,
  q_empty, enqueue, dequeue, invite_client, serve, fall_asleep, shave, barber_turn, open_shop,
  is_sleeping, is_inviting, is_end_shaving, is_pid, max_clients,
}
use op_sys.Shop.Client.{
  visit, Client, ClientStatus, invited, shaven, Place, arriving, awaiting_chair, in_chair, left,
  start_client, arrive, await_chair, leave_chair, await_shave, client_turn, invited_test,
  shaven_test, next_shave, loop_test, is_waiting, is_invited, is_shaven,
}
use op_sys.Shop.Waiting.{
  waiting, Fits, count, count-enqueue, enqueue-fields, enqueue-Fits, Dequeues, dequeue-Dequeues,
  dequeue-Fits, dequeue-fields,
}
use op_sys.Shop.System.{
  System, update, after_barber, after_client, Step, barber, client, Reach, opened, later,
}

-- A client has taken the chair.
abbrev pub is_busy : BarberStatus → Bool
is_busy start_shaving = true
is_busy end_shaving = true
is_busy _ = false

-- `curr_client` names a client.
abbrev pub is_called : BarberStatus → Bool
is_called inviting = true
is_called st = is_busy st

-- 1 for the client that is called to the chair.
abbrev pub called : Shop → ℕ → ℕ
called s p = if is_inviting s.status && is_pid s.curr_client p then 1 else 0

-- 1 for a client that has queued up, also for its next shave, and has not taken the chair yet.
abbrev pub expects : Client → ℕ
expects c = elim c.place [ arriving ↦ if c.first_shave then 0 else 1 | awaiting_chair ↦ 1 | _ ↦ 0 ]

abbrev pub is_in_chair : Client → Bool
is_in_chair c = elim c.place [ in_chair ↦ true | _ ↦ false ]

-- The local variables fit the place in the program.
abbrev pub IsConsistent : Client → Type 0
IsConsistent c = elim c.place [
  | arriving ↦ is_waiting c.status ≡ c.first_shave × (is_invited c.status ≡ false)
  | awaiting_chair ↦ is_invited c.status ≡ false
  | in_chair ↦ is_invited c.status ≡ true
  | left ↦ Unit
]

-- The shop by itself.
pub record ShopOk (s : Shop) : Type 0 where
  pub fits : Fits s
  pub asleep : is_sleeping s.status ≡ true → s.total_clients ≡ 0
  pub woken : s.status ≡ woken_up → 0 < s.total_clients
  pub named : is_called s.status ≡ true → is_pid s.curr_client (pos_part s.curr_client) ≡ true

-- One client, as the shop has it.
pub record ClientOk (s : Shop) (p : ℕ) (c : Client) : Type 0 where
  pub once : count p (waiting s) + called s p ≡ expects c
  pub sits : is_in_chair c ≡ (is_busy s.status && is_pid s.curr_client p)
  pub consistent : IsConsistent c

pub record Inv (s : System) : Type 0 where
  pub shop : ShopOk s.shop
  pub client : (p : ℕ) → ClientOk s.shop p (s.client p)

-- A turn that takes the client `p` from `c` to `c'` keeps what holds of the shop and of everybody.
pub record TurnOk (s : Shop) (p : ℕ) (s' : Shop) (c' : Client) : Type 0 where
  pub shop' : ShopOk s'
  pub self : ClientOk s' p c'
  pub others : (a : ℕ) (d : Client) → p ≢ a → ClientOk s a d → ClientOk s' a d

-- A turn of the barber keeps what holds of the shop and of every client.
abbrev pub Keeps : Shop → Shop → Type 0
Keeps s s' = ShopOk s' × ((p : ℕ) (c : Client) → ClientOk s p c → ClientOk s' p c)
