-- ===== src/Shop.antt =====
-- lab6_semaphores_shared_mem/POSIX: the sleeping barber. This file is common.h (the shared segment and
-- its queue) and barber.c; the clients are in Shop/Client.antt. The SystemV programs of the lab have
-- the same shop, barber and clients; only the system calls that make and take the semaphore differ.
pub mod Waiting
pub mod Client
pub mod System
pub mod Invariant
pub mod Progress
pub mod Safety
mod Tests
use op_sys.Common.{
  ℕ, zero, suc, ◌-◌, Bool, true, false, Option, none, some, List, ltb, leb_ℤ, ltb_ℤ, ℤ, pos, negsuc,
  ◌==◌, if◌then◌else◌, get_or, set, shift,
}

-- `enum barber_status`
pub data BarberStatus : Type 0 where
  sleeping woken_up inviting start_shaving end_shaving free : BarberStatus

-- `#define MAX_CLIENTS 32`
abbrev pub max_clients : ℕ
max_clients = 32

-- `struct barbershop`. The array `q` is a list of `max_clients` cells; a pid in it is a number, and
-- `curr_client` is signed, since `dequeue` may answer -1.
pub record Shop : Type 0 where
  pub status : BarberStatus
  pub total_clients : ℕ
  pub waiting_room_size : ℤ
  pub curr_client : ℤ
  pub q : List ℕ

unfoldable pub q_empty : Shop → Bool
q_empty s = s.total_clients == 0

unfoldable pub q_full : Shop → Bool
q_full s = leb_ℤ s.waiting_room_size (pos s.total_clients)

unfoldable pub enqueue : ℕ → Shop → Shop
unfolding q_full
enqueue client s =
    if q_full s
    then s
    else record s { q = set s.q s.total_clients client; total_clients = suc s.total_clients }

-- The loop moves the cells behind the first one forward; it runs `total_clients - 1` rounds.
unfoldable pub dequeue : Shop → ℤ × Shop
unfolding q_empty shift
dequeue s =
    let last = s.total_clients - 1 in
    if q_empty s then (negsuc 0, s) else (
      pos (get_or s.q 0 0),
      record s { q = set (shift 0 last 0 s.q) last 0; total_clients = last },
    )

unfoldable pub fall_asleep : Shop → Shop
fall_asleep s = record s { status = sleeping }

unfoldable pub shave : Shop → Shop
shave s = record s { status = end_shaving }

unfoldable pub invite_client : Shop → Shop
invite_client s =
    let (client, s') = dequeue (record s { status = inviting }) in
    record s' { curr_client = client }

-- `switch (barbershop->status)`
unfoldable pub serve : BarberStatus → Shop → Shop
unfolding q_empty
serve woken_up s = invite_client s
serve start_shaving s = shave s
serve free s = if q_empty s then fall_asleep s else invite_client s
serve _ s = s

-- One round of the barber's loop, from `sem_take` to `sem_return`.
unfoldable pub barber_turn : Shop → Shop
unfolding serve
barber_turn s = serve s.status s

-- `init_barbershop`: the queue's cells stay as the shared memory segment has them.
unfoldable pub init_barbershop : ℤ → List ℕ → Shop
init_barbershop seats cells = record {
  status = sleeping;
  total_clients = 0;
  waiting_room_size = seats;
  curr_client = pos 0;
  q = cells;
}

-- `main` of barber.c up to its loop. `none`: the program ends, with a message.
unfoldable pub open_shop : ℤ → List ℕ → Option Shop
unfolding init_barbershop
open_shop seats cells =
    if ltb_ℤ (pos max_clients) seats then none else some (init_barbershop seats cells)

abbrev pub is_sleeping : BarberStatus → Bool
is_sleeping sleeping = true
is_sleeping _ = false

abbrev pub is_inviting : BarberStatus → Bool
is_inviting inviting = true
is_inviting _ = false

abbrev pub is_end_shaving : BarberStatus → Bool
is_end_shaving end_shaving = true
is_end_shaving _ = false

-- `getpid() == barbershop->curr_client`
abbrev pub is_pid : ℤ → ℕ → Bool
is_pid (pos n) pid = n == pid
is_pid (negsuc _) pid = false
