-- ===== src/Shop/Client.antt =====
-- lab6_semaphores_shared_mem/POSIX/client_spawner.c: the process of one client. The program touches
-- the shared segment only between `sem_take` and `sem_return`, so a turn is one such section with
-- the tests of the loops that follow it.
use op_sys.Common.{ℕ, suc, Bool, true, false, not, ◌&&◌, ℤ, pos, ltb_ℤ, leb_ℤ, if◌then◌else◌}
use op_sys.Shop.{
  Shop, woken_up, start_shaving, free, q_full, enqueue, is_sleeping, is_inviting, is_end_shaving,
  is_pid,
}

-- `enum client_status`
pub data ClientStatus : Type 0 where
  invited shaven waiting : ClientStatus

-- Where the process stands: at the first `sem_take` of a round, at those of the two waiting loops,
-- or behind `arrive_at_barbershop`.
pub data Place : Type 0 where
  arriving awaiting_chair in_chair left : Place

pub record Client : Type 0 where
  pub shaves : ℤ
  pub status : ClientStatus
  pub first_shave : Bool
  pub curr_shave : ℕ
  pub place : Place

abbrev pub is_waiting : ClientStatus → Bool
is_waiting waiting = true
is_waiting _ = false

abbrev pub is_invited : ClientStatus → Bool
is_invited invited = true
is_invited _ = false

abbrev pub is_shaven : ClientStatus → Bool
is_shaven shaven = true
is_shaven _ = false

-- `curr_shave <= shaves`
unfoldable pub loop_test : Client → Client
loop_test c = record c { place = if leb_ℤ (pos c.curr_shave) c.shaves then arriving else left }

-- The end of a round of the `for` loop.
unfoldable pub next_shave : Client → Client
unfolding loop_test
next_shave c = loop_test (record c { first_shave = false; curr_shave = suc c.curr_shave })

-- `while (client_status != SHAVEN)`
unfoldable pub shaven_test : Client → Client
unfolding next_shave
shaven_test c = if is_shaven c.status then next_shave c else record c { place = in_chair }

-- `while (client_status != INVITED)`
unfoldable pub invited_test : Client → Client
unfolding shaven_test
invited_test c = if is_invited c.status then shaven_test c else record c { place = awaiting_chair }

-- `arrive_at_barbershop(shaves)` up to its first `sem_take`.
unfoldable pub start_client : ℤ → Client
unfolding loop_test
start_client shaves = loop_test (record {
  shaves = shaves;
  status = waiting;
  first_shave = true;
  curr_shave = 1;
  place = arriving;
})

-- The first critical section of a round.
unfoldable pub arrive : ℕ → Shop → Client → Shop × Client
unfolding invited_test q_full
arrive pid s c =
    if is_waiting c.status && q_full s
    then (s, record c { place = left })
    else if is_sleeping s.status
    then (enqueue pid (record s { status = woken_up }), invited_test c)
    else if c.first_shave
    then (enqueue pid s, invited_test c)
    else (s, invited_test c)

-- A round of the loop that waits for the invitation.
unfoldable pub await_chair : ℕ → Shop → Client → Shop × Client
unfolding invited_test
await_chair pid s c =
    if is_inviting s.status && is_pid s.curr_client pid
    then (record s { status = start_shaving }, invited_test (record c { status = invited }))
    else (s, invited_test c)

-- After the shave the client queues up again, leaves for want of a chair, or is done.
unfoldable pub leave_chair : ℕ → Shop → Client → Shop × Client
unfolding shaven_test q_full
leave_chair pid s c =
    if ltb_ℤ (pos c.curr_shave) c.shaves
    then if not (q_full s) then (enqueue pid s, shaven_test c) else (s, record c { place = left })
    else (s, shaven_test c)

-- A round of the loop that waits for the end of the shave.
unfoldable pub await_shave : ℕ → Shop → Client → Shop × Client
unfolding leave_chair
await_shave pid s c =
    if is_end_shaving s.status && is_pid s.curr_client pid
    then leave_chair pid (record s { status = free }) (record c { status = shaven })
    else (s, shaven_test c)

unfoldable pub visit : Place → ℕ → Shop → Client → Shop × Client
visit arriving pid s c = arrive pid s c
visit awaiting_chair pid s c = await_chair pid s c
visit in_chair pid s c = await_shave pid s c
visit left pid s c = (s, c)

-- The next critical section of the process, if it has one.
unfoldable pub client_turn : ℕ → Shop → Client → Shop × Client
unfolding visit
client_turn pid s c = visit c.place pid s c
