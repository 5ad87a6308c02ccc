-- ===== src/Shop/Invariant/Turns.antt =====
-- The clients' turns keep the invariant.
use op_sys.Common.{
  if_cases, not, ltb_ℤ, ℕ, ◌≡◌, refl, ap, true, false, ◌&&◌, arith, pos, if◌then◌else◌,
}
use op_sys.Shop.{
  Shop, woken_up, start_shaving, end_shaving, free, q_full, is_sleeping, is_inviting,
  is_end_shaving, is_pid,
}
use op_sys.Shop.Client.{
  visit, Client, ClientStatus, invited, shaven, Place, arriving, awaiting_chair, in_chair, left,
  arrive, await_chair, leave_chair, await_shave, client_turn, invited_test, shaven_test, next_shave,
  is_waiting, is_invited, is_shaven,
}
use op_sys.Shop.Invariant.{ShopOk, ClientOk, TurnOk}
use op_sys.Shop.Invariant.Moves.{
  same_room, no_one, leave-TurnOk, queue-TurnOk, stay-TurnOk, mark-TurnOk,
}

invited-ne-shaven : (st : ClientStatus) → is_invited st ≡ true → is_shaven st ≡ false
invited-ne-shaven st e = ground arith

module _ (s : Shop) (ok : ShopOk s) (p : ℕ) (c : Client) (own : ClientOk s p c) where
  abbrev Good : Shop × Client → Type 0
  Good r = TurnOk s p r.0 r.1

  goes_on_waiting :
      is_invited c.status ≡ false → invited_test c ≡ record c { place = awaiting_chair }
  unfolding invited_test
  goes_on_waiting e = ap (λ b. if b then shaven_test c else record c { place = awaiting_chair }) e

  at_door :
      c.place ≡ arriving → (is_waiting c.status ≡ c.first_shave) × (is_invited c.status ≡ false)
  at_door e = ground (arith, own.consistent)

  -- Nobody queues up or sits down while the barber sleeps.
  new_here : c.place ≡ arriving → is_sleeping s.status ≡ true → c.first_shave ≡ true
  new_here e asleep = ground (arith, own.once, no_one p s (ok.asleep asleep))

  arrive-TurnOk : c.place ≡ arriving → Good (arrive p s c)
  unfolding arrive
  arrive-TurnOk e =
      if_cases Good (is_waiting c.status && q_full s)
        (λ full. leave-TurnOk s ok p c own (ground (arith, at_door e)) (ground arith))
        (λ room.
          if_cases Good (is_sleeping s.status)
            (λ asleep. rw goes (
              queue-TurnOk s ok p c own woken_up waits
                (ground (arith, at_door e, new_here e asleep)) refl (ground arith) (λ h. cc)
                (λ a ne. ground arith) (ground arith) (at_door e).1
                (ground (arith, new_here e asleep)) refl))
            (λ awake.
              if_cases Good c.first_shave
                (λ first. rw goes (
                  queue-TurnOk s ok p c own s.status waits (ground (arith, at_door e)) awake refl
                    (λ h. h) (λ a ne. refl) (ground (arith, own.sits)) (at_door e).1 (ground arith)
                    refl))
                (λ again.
                  rw goes
                    (stay-TurnOk s ok p c own waits (ground arith) (ground arith) (at_door e).1))))
    where
      waits : Client
      waits = record c { place = awaiting_chair }

      goes : invited_test c ≡ waits
      goes = goes_on_waiting (at_door e).1

  await_chair-TurnOk : c.place ≡ awaiting_chair → Good (await_chair p s c)
  unfolding await_chair
  await_chair-TurnOk e =
      if_cases Good (is_inviting s.status && is_pid s.curr_client p)
        (λ mine.
          mark-TurnOk s ok p c own start_shaving (invited_test (record c { status = invited })) refl
            refl (λ h. cc) (ground arith) (ground arith) (λ _. ground arith) (λ h. ground arith)
            refl refl refl)
        (λ other. rw (goes_on_waiting not_yet) (
          stay-TurnOk s ok p c own (record c { place = awaiting_chair }) (ground arith)
            (ground arith) not_yet))
    where
      not_yet : is_invited c.status ≡ false
      not_yet = ground (arith, own.consistent)

  sits_on : is_invited c.status ≡ true → shaven_test c ≡ record c { place = in_chair }
  unfolding shaven_test
  sits_on e =
      ap (λ b. if b then next_shave c else record c { place = in_chair })
        (invited-ne-shaven c.status e)

  -- The client that has been shaved.
  abbrev done : Client
  done = record c { status = shaven }

  leave_chair-TurnOk :
      c.place ≡ in_chair
      → s.status ≡ end_shaving
      → is_pid s.curr_client p ≡ true
      → Good (leave_chair p (same_room s free) done)
  unfolding leave_chair shaven_test
  leave_chair-TurnOk e st mine =
      if_cases Good (ltb_ℤ (pos c.curr_shave) c.shaves)
        (λ more.
          if_cases Good (not (q_full (same_room s free)))
            (λ room.
              queue-TurnOk s ok p c own free (shaven_test done) (ground arith) refl (ground arith)
                (λ h. cc) (λ a ne. ground arith) (ground arith) (ground arith) (ground arith)
                (ground arith))
            (λ full.
              mark-TurnOk s ok p c own free (record done { place = left }) refl refl (λ h. cc)
                (ground arith) mine (λ h. cc) (λ h. ground arith) refl tt refl))
        (λ last.
          mark-TurnOk s ok p c own free (shaven_test done) refl refl (λ h. cc) (ground arith) mine
            (λ h. cc) (λ h. ground arith) (ground arith) (ground arith) (ground arith))

  await_shave-TurnOk : c.place ≡ in_chair → Good (await_shave p s c)
  unfolding await_shave
  await_shave-TurnOk e =
      if_cases Good (is_end_shaving s.status && is_pid s.curr_client p)
        (λ mine. leave_chair-TurnOk e (ground arith) (ground arith))
        (λ other. rw (sits_on still) (
          stay-TurnOk s ok p c own (record c { place = in_chair }) (ground arith) (ground arith)
            still))
    where
      still : is_invited c.status ≡ true
      still = ground (arith, own.consistent)

  visit-TurnOk : (at : Place) → c.place ≡ at → Good (visit at p s c)
  unfolding visit
  visit-TurnOk arriving e = arrive-TurnOk e
  visit-TurnOk awaiting_chair e = await_chair-TurnOk e
  visit-TurnOk in_chair e = await_shave-TurnOk e
  visit-TurnOk left e = record { shop' = ok; self = own; others = λ a d ne h. h }

  pub turn-TurnOk : Good (client_turn p s c)
  unfolding client_turn
  turn-TurnOk = visit-TurnOk c.place refl
