-- ===== src/Shop/Tests.antt =====
-- Runs of the barbershop, and its theorems at concrete states.
use op_sys.Common.{
  ℕ, ◌+◌, ◌≡◌, refl, List, [], ◌∷◌, arith, ℤ, pos, none, inl, replicate, if◌then◌else◌, ◌==◌,
}
use op_sys.Shop.{
  Shop, sleeping, start_shaving, barber_turn, open_shop, enqueue, dequeue, invite_client,
}
use op_sys.Shop.Client.{
  awaiting_chair, in_chair, left, start_client, client_turn, arrive, await_chair,
}
use op_sys.Shop.Waiting.{waiting, Fits, count}
use op_sys.Shop.System.{System, Reach, opened, later, barber, client, after_barber, after_client}
use op_sys.Shop.Invariant.{called}
use op_sys.Shop.Safety.{one_in_chair, queued_once, calls_first}
use op_sys.Shop.Progress.{Moves, no_deadlock}

abbrev cells : List ℕ
cells = replicate 32 0

abbrev two_seats : Shop
two_seats = record {
  status = sleeping;
  total_clients = 0;
  waiting_room_size = pos 2;
  curr_client = pos 0;
  q = cells;
}

-- Clients 7 and 8 come for a shave each, nobody else comes.
abbrev shaves : ℕ → ℤ
shaves p = if p == 7 then pos 1 else if p == 8 then pos 1 else pos 0

abbrev at_start : System
at_start = record { shop = two_seats; client = λ p. start_client (shaves p) }

at_start_reached : Reach (pos 2) shaves at_start
unfolding open_shop
at_start_reached = opened cells two_seats refl refl

-- Client 7 wakes the barber, and client 8 queues up behind it.
abbrev both_wait : System
both_wait = after_client 8 (after_client 7 at_start)

both_wait_reached : Reach (pos 2) shaves both_wait
both_wait_reached = later (later at_start_reached (client 7)) (client 8)

-- The barber calls client 7, which sits down.
abbrev seated : System
seated = after_client 7 (after_barber both_wait)

seated_reached : Reach (pos 2) shaves seated
seated_reached = later (later both_wait_reached barber) (client 7)

queue_and_chair : (waiting both_wait.shop ≡ 7 ∷ 8 ∷ []) × (seated.shop.status ≡ start_shaving)
unfolding barber_turn client_turn arrive await_chair enqueue dequeue invite_client start_client
queue_and_chair = (refl, refl)

too_many_seats : open_shop (pos 33) cells ≡ none
unfolding open_shop
too_many_seats = refl

one_in_chair_example : ◌≡◌ {A = ℕ} 7 7
unfolding barber_turn client_turn arrive await_chair enqueue dequeue invite_client start_client
one_in_chair_example = one_in_chair seated_reached 7 7 refl refl

queued_once_example :
    ((both_wait.client 8).place ≡ awaiting_chair
      → count 8 (waiting both_wait.shop) + called both_wait.shop 8 ≡ 1)
    × ((both_wait.client 8).place ≡ in_chair → count 8 (waiting both_wait.shop) ≡ 0)
    × ((both_wait.client 8).place ≡ left → count 8 (waiting both_wait.shop) ≡ 0)
queued_once_example = queued_once both_wait_reached 8

calls_first_example :
    (p : ℕ) × ((barber_turn both_wait.shop).curr_client ≡ pos p)
    × (waiting both_wait.shop ≡ p ∷ waiting (barber_turn both_wait.shop))
unfolding barber_turn client_turn arrive enqueue dequeue invite_client start_client
calls_first_example = calls_first both_wait_reached refl refl

no_deadlock_example : Moves both_wait
unfolding client_turn arrive enqueue start_client
no_deadlock_example = no_deadlock both_wait_reached 8 (inl refl)

two_seats-Fits : Fits two_seats
two_seats-Fits = omega arith
