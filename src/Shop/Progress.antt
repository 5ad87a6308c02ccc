-- ===== src/Shop/Progress.antt =====
-- The shop does not get stuck while a client waits or sits in the chair.
use op_sys.Common.{ℕ, ◌+◌, ◌≡◌, ◌≢◌, refl, ◌∙◌, sym, true, false, arith, ℤ, pos_part, ◌⊎◌}
use op_sys.Shop.{
  Shop, BarberStatus, sleeping, woken_up, inviting, start_shaving, end_shaving, free, barber_turn,
  serve, invite_client, fall_asleep, shave, is_pid,
}
use op_sys.Shop.Client.{
  Client, Place, arriving, awaiting_chair, in_chair, left, client_turn, await_chair, await_shave,
  arrive,
}
use op_sys.Shop.Waiting.{waiting, count, dequeue-fields, enqueue-fields}
use op_sys.Shop.System.{System, Reach, Step, barber, client, after_client, after_barber}
use op_sys.Shop.Invariant.{is_called, expects, ClientOk, Inv}
use op_sys.Shop.Invariant.Moves.{no_one, same_room}
use op_sys.Shop.Invariant.Reached.{Reach-Inv}

-- Any number of turns.
pub data Steps (s : System) : System → Type 0 where
  here : Steps s s
  then_ : {t u : System} → Steps s t → Step t u → Steps s u

abbrev pub Moves : System → Type 0
Moves s = (t : System) × Steps s t × (t.shop.status ≢ s.shop.status)

invite-status : (s : Shop) → (invite_client s).status ≡ inviting
unfolding invite_client
invite-status s = (dequeue-fields (record s { status = inviting })).0

-- The barber's turn changes these statuses.
barber-moves :
    (s : Shop) (st : BarberStatus)
    → (st ≡ woken_up) ⊎ (st ≡ start_shaving) ⊎ (st ≡ free)
    → (serve st s).status ≢ st
unfolding serve
barber-moves s woken_up h = rw (invite-status s) (ground arith)
barber-moves s start_shaving h = unfold shave in ground arith
barber-moves s free h = unfold fall_asleep in ground (arith, invite-status s)
barber-moves s sleeping h = absurd (ground arith)
barber-moves s inviting h = absurd (ground arith)
barber-moves s end_shaving h = absurd (ground arith)

-- The called client sits down at its next look at the shop.
sits_down :
    (p : ℕ) (s : Shop) (c : Client)
    → c.place ≡ awaiting_chair
    → s.status ≡ inviting
    → is_pid s.curr_client p ≡ true
    → (client_turn p s c).0.status ≡ start_shaving
unfolding client_turn await_chair
sits_down p s c at st mine = ground arith

-- The shaved client frees the barber, whether it stays or goes.
frees :
    (p : ℕ) (s : Shop) (c : Client)
    → c.place ≡ in_chair
    → s.status ≡ end_shaving
    → is_pid s.curr_client p ≡ true
    → (client_turn p s c).0.status ≡ free
unfolding client_turn await_shave
frees p s c at st mine = ground (arith, enqueue-fields p (same_room s free))

-- A client that has queued up for its next shave goes on to await the chair.
waits_again :
    (p : ℕ) (s : Shop) (c : Client)
    → c.place ≡ arriving
    → ClientOk s p c
    → c.first_shave ≡ false
    → s.status ≡ inviting
    → client_turn p s c ≡ (s, record c { place = awaiting_chair })
unfolding client_turn arrive
waits_again p s c at own again st = ground (arith, own.consistent)

module _ (s : System) (v : Inv s) where
  abbrev st : BarberStatus
  st = s.shop.status

  -- The client that `curr_client` names.
  abbrev next : ℕ
  next = pos_part s.shop.curr_client

  barber-Moves : (st ≡ woken_up) ⊎ (st ≡ start_shaving) ⊎ (st ≡ free) → Moves s
  unfolding barber_turn
  barber-Moves h = (after_barber s, then_ here barber, barber-moves s.shop st h)

  client-Moves :
      (to : BarberStatus)
      → (client_turn next s.shop (s.client next)).0.status ≡ to
      → st ≢ to
      → Moves s
  client-Moves to e ne = (after_client next s, then_ here (client next), λ same. ne (sym same ∙ e))

  named : is_called st ≡ true → is_pid s.shop.curr_client next ≡ true
  named e = v.shop.named e

  -- The called client is on its way to the chair.
  expected : st ≡ inviting → expects (s.client next) ≡ 1 + count next (waiting s.shop)
  expected e = ground (arith, (v.client next).once, named (ground arith))

  -- Two turns of the called client, if it stands before the first section of its next round.
  second-Moves :
      st ≡ inviting
      → (s.client next).place ≡ arriving
      → (s.client next).first_shave ≡ false
      → Moves s
  second-Moves e h again = (
    after_client next t,
    then_ (then_ here (client next)) (client next),
    λ same. absurd (ground (arith, same, sits_down next t.shop (t.client next) waits calls mine)),
  )
    where
      t : System
      t = after_client next s

      turn :
          client_turn next s.shop (s.client next)
          ≡ (s.shop, record (s.client next) { place = awaiting_chair })
      turn = waits_again next s.shop (s.client next) h (v.client next) again e

      waits : (t.client next).place ≡ awaiting_chair
      waits = ground (arith, turn)

      calls : t.shop.status ≡ inviting
      calls = ground (arith, turn)

      mine : is_pid t.shop.curr_client next ≡ true
      mine = ground (arith, turn, named (ground arith))

  inviting-Moves : st ≡ inviting → (at : Place) → (s.client next).place ≡ at → Moves s
  inviting-Moves e awaiting_chair h =
      client-Moves start_shaving (sits_down next s.shop (s.client next) h e (named (ground arith)))
        (ground arith)
  inviting-Moves e arriving h = second-Moves e h (ground (arith, expected e))
  inviting-Moves e in_chair h = absurd (ground (arith, expected e))
  inviting-Moves e left h = absurd (ground (arith, expected e))

  shaved-Moves : st ≡ end_shaving → Moves s
  shaved-Moves e =
      client-Moves free
        (frees next s.shop (s.client next)
          (ground (arith, (v.client next).sits, named (ground arith))) e (named (ground arith)))
        (ground arith)

  status-Moves : (at : BarberStatus) → st ≡ at → st ≢ sleeping → Moves s
  status-Moves sleeping e ne = absurd (ne e)
  status-Moves woken_up e ne = barber-Moves (ground arith)
  status-Moves inviting e ne = inviting-Moves e (s.client next).place refl
  status-Moves start_shaving e ne = barber-Moves (ground arith)
  status-Moves end_shaving e ne = shaved-Moves e
  status-Moves free e ne = barber-Moves (ground arith)

  -- While the barber sleeps nobody waits, and the chair is empty.
  nobody_waits :
      (p : ℕ)
      → ((s.client p).place ≡ awaiting_chair) ⊎ ((s.client p).place ≡ in_chair)
      → st ≢ sleeping
  nobody_waits p h e =
      ground (
        arith,
        (v.client p).once,
        (v.client p).sits,
        no_one p s.shop (v.shop.asleep (ground arith)),
      )

-- No deadlock: while a client awaits the chair or sits in it, some turns of the barber and the clients
-- change the barber's status.
pub no_deadlock :
    {seats : ℤ} {shaves : ℕ → ℤ} {s : System}
    → Reach seats shaves s
    → (p : ℕ) → ((s.client p).place ≡ awaiting_chair) ⊎ ((s.client p).place ≡ in_chair)
    → Moves s
no_deadlock {s} r p h =
    status-Moves s (Reach-Inv r) s.shop.status refl (nobody_waits s (Reach-Inv r) p h)
