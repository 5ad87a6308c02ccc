-- ===== src/Shop/Safety.antt =====
-- What the clients of the barbershop rely on, in every state between two turns.
use op_sys.Common.{
  ℕ, ◌+◌, ◌≤◌, ◌<◌, ◌≡◌, refl, true, false, ◌∷◌, arith, ℤ, pos, pos_part, ◌==◌, length, Bool-cases,
  inl, inr,
}
use op_sys.Shop.{
  Shop, BarberStatus, sleeping, woken_up, inviting, start_shaving, end_shaving, free, max_clients,
  barber_turn, serve, invite_client, dequeue, fall_asleep, shave, is_inviting,
}
use op_sys.Shop.Client.{awaiting_chair, in_chair, left}
use op_sys.Shop.Waiting.{waiting, Fits, count, Dequeues, dequeue-Dequeues}
use op_sys.Shop.System.{System, Reach}
use op_sys.Shop.Invariant.{called, ShopOk}
use op_sys.Shop.Invariant.Reached.{Reach-Inv}

-- Two clients are never in the barber's chair at the same time.
pub one_in_chair :
    {seats : ℤ} {shaves : ℕ → ℤ} {s : System}
    → Reach seats shaves s
    → (p q : ℕ) → (s.client p).place ≡ in_chair
    → (s.client q).place ≡ in_chair
    → p ≡ q
one_in_chair {s} r p q hp hq =
    let v = Reach-Inv r in ground (arith, (v.client p).sits, (v.client q).sits)

-- A client that awaits the chair is in the queue exactly once, or it is called to the chair and in the
-- queue no more. A client in the chair, and one that has left, is not in the queue.
pub queued_once :
    {seats : ℤ} {shaves : ℕ → ℤ} {s : System}
    → Reach seats shaves s
    → (p : ℕ)
    → ((s.client p).place ≡ awaiting_chair → count p (waiting s.shop) + called s.shop p ≡ 1)
      × ((s.client p).place ≡ in_chair → count p (waiting s.shop) ≡ 0)
      × ((s.client p).place ≡ left → count p (waiting s.shop) ≡ 0)
queued_once {s} r p =
    let once = ((Reach-Inv r).client p).once in
    (λ e. ground (arith, once), λ e. ground (arith, once), λ e. ground (arith, once))

-- The waiting room never holds more clients than it has chairs, and the array has a cell for each.
room_suffices :
    {seats : ℤ} {shaves : ℕ → ℤ} {s : System}
    → Reach seats shaves s
    → (s.shop.total_clients ≤ pos_part s.shop.waiting_room_size)
      × (s.shop.total_clients ≤ length s.shop.q)
      × (length s.shop.q ≡ max_clients)
room_suffices {s} r = let v = (Reach-Inv r).shop.fits in omega (arith, v)

-- `r` is a turn that took the first client out of the queue of `s`.
abbrev Calls : Shop → Shop → Type 0
Calls s t = (p : ℕ) × (t.curr_client ≡ pos p) × (waiting s ≡ p ∷ waiting t)

invite-Calls : (s : Shop) → Fits s → 0 < s.total_clients → Calls s (invite_client s)
unfolding invite_client
invite-Calls s f some_wait = go (dequeue-Dequeues calling calling-fits)
  where
    calling : Shop
    calling = record s { status = inviting }

    calling-fits : Fits calling
    calling-fits = record { cells = f.cells; seated = f.seated; chairs = f.chairs }

    go : Dequeues calling (dequeue calling) → Calls s (invite_client s)
    go (inl (z, _)) = absurd (omega arith)
    go (inr (p, e, w, _)) = (p, e, w)

serve-Calls :
    (s : Shop)
    → ShopOk s
    → (st : BarberStatus) → s.status ≡ st
    → is_inviting st ≡ false
    → (serve st s).status ≡ inviting
    → Calls s (serve st s)
unfolding serve
serve-Calls s ok woken_up e was now = invite-Calls s ok.fits (ok.woken e)
serve-Calls s ok free e was now = elim (Bool-cases (s.total_clients == 0)) [
  | inl empty ↦ absurd (asleep empty (rw empty at now))
  | inr some_wait ↦ rw some_wait (invite-Calls s ok.fits (ground arith))
]
  where
    asleep : (s.total_clients == 0) ≡ true → (fall_asleep s).status ≡ inviting → ⊥
    asleep h = unfold fall_asleep in (λ k. ground arith)
serve-Calls s ok sleeping e was now = absurd (ground arith)
serve-Calls s ok inviting e was now = absurd (ground arith)
serve-Calls s ok start_shaving e was now = unfold shave in absurd (ground arith)
serve-Calls s ok end_shaving e was now = absurd (ground arith)

-- Where the barber's turn calls a client, the queue was not empty: it calls the client that has
-- waited longest, and the others stay in their order.
pub calls_first :
    {seats : ℤ} {shaves : ℕ → ℤ} {s : System}
    → Reach seats shaves s
    → is_inviting s.shop.status ≡ false
    → (barber_turn s.shop).status ≡ inviting
    → (p : ℕ) × ((barber_turn s.shop).curr_client ≡ pos p)
      × (waiting s.shop ≡ p ∷ waiting (barber_turn s.shop))
unfolding barber_turn
calls_first {s} r was now = serve-Calls s.shop (Reach-Inv r).shop s.shop.status refl was now
