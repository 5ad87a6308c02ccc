-- ===== src/Shop/Invariant/Barber.antt =====
-- The barber's turns keep the invariant.
use op_sys.Common.{◌<◌, ◌≡◌, refl, ap, false, arith, ℤ, ◌==◌, Bool-cases, inl, inr}
use op_sys.Shop.{
  Shop, BarberStatus, sleeping, woken_up, inviting, start_shaving, end_shaving, free, dequeue,
  invite_client, serve, fall_asleep, shave, barber_turn,
}
use op_sys.Shop.Waiting.{Fits, count, Dequeues, dequeue-Dequeues, dequeue-Fits, dequeue-fields}
use op_sys.Shop.Invariant.{is_called, ShopOk, Keeps}

module _ (s : Shop) (ok : ShopOk s) where
  calling : Shop
  calling = record s { status = inviting }

  -- The shop behind the call of `dequeue` in `invite_client`.
  invited-Keeps :
      (r : ℤ × Shop)
      → 0 < s.total_clients
      → is_called s.status ≡ false
      → Dequeues calling r
      → r.1.status ≡ inviting
      → Fits r.1
      → Keeps s (record r.1 { curr_client = r.0 })
  unfolding calling
  invited-Keeps r some_wait idle (inl (z, _)) st f = absurd (omega arith)
  invited-Keeps r some_wait idle (inr (q, e, w, _)) st f = (
    record {
      fits = record { cells = f.cells; seated = f.seated; chairs = f.chairs };
      asleep = ground arith;
      woken = ground arith;
      named = ground arith;
    },
    λ p c h. record {
      once = ground (arith, ap (count p) w);
      sits = ground arith;
      consistent = h.consistent;
    },
  )

  -- The invitation takes the first client of a queue that is not empty.
  invite-Keeps : 0 < s.total_clients → is_called s.status ≡ false → Keeps s (invite_client s)
  unfolding invite_client calling
  invite-Keeps some_wait idle =
      invited-Keeps (dequeue calling) some_wait idle (dequeue-Dequeues calling calling-fits)
        (dequeue-fields calling).0 (dequeue-Fits calling calling-fits)
    where
      calling-fits : Fits calling
      calling-fits = record {
        cells = ok.fits.cells;
        seated = ok.fits.seated;
        chairs = ok.fits.chairs;
      }

  shave-Keeps : s.status ≡ start_shaving → Keeps s (shave s)
  unfolding shave
  shave-Keeps e = (
    record {
      fits = record { cells = ok.fits.cells; seated = ok.fits.seated; chairs = ok.fits.chairs };
      asleep = ground arith;
      woken = ground arith;
      named = ground arith;
    },
    λ p c h. record { once = ground arith; sits = ground arith; consistent = h.consistent },
  )

  sleep-Keeps : s.status ≡ free → s.total_clients ≡ 0 → Keeps s (fall_asleep s)
  unfolding fall_asleep
  sleep-Keeps e z = (
    record {
      fits = record { cells = ok.fits.cells; seated = ok.fits.seated; chairs = ok.fits.chairs };
      asleep = ground arith;
      woken = ground arith;
      named = ground arith;
    },
    λ p c h. record { once = ground arith; sits = ground arith; consistent = h.consistent },
  )

  serve-Keeps : (st : BarberStatus) → s.status ≡ st → Keeps s (serve st s)
  unfolding serve
  serve-Keeps sleeping e = (ok, λ p c h. h)
  serve-Keeps woken_up e = invite-Keeps (ok.woken e) (ground arith)
  serve-Keeps inviting e = (ok, λ p c h. h)
  serve-Keeps start_shaving e = shave-Keeps e
  serve-Keeps end_shaving e = (ok, λ p c h. h)
  serve-Keeps free e = elim (Bool-cases (s.total_clients == 0)) [
    | inl empty ↦ rw empty (sleep-Keeps e (ground arith))
    | inr some_wait ↦ rw some_wait (invite-Keeps (ground arith) (ground arith))
  ]

  pub barber-Keeps : Keeps s (barber_turn s)
  unfolding barber_turn
  barber-Keeps = serve-Keeps s.status refl
