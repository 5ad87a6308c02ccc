-- ===== src/Shop/Invariant/Moves.antt =====
-- The moves that a client's turn makes, whichever turn it is.
use op_sys.Common.{ℕ, ◌≡◌, ◌≢◌, true, false, ◌&&◌, arith}
use op_sys.Shop.{Shop, BarberStatus, woken_up, q_full, enqueue, is_sleeping, is_inviting, is_pid}
use op_sys.Shop.Client.{Client, left}
use op_sys.Shop.Waiting.{waiting, Fits, count, count-enqueue, enqueue-fields, enqueue-Fits}
use op_sys.Shop.Invariant.{
  is_busy, is_called, expects, is_in_chair, IsConsistent, ShopOk, ClientOk, TurnOk,
}

-- What a shop keeps when only its status changes.
abbrev pub same_room : Shop → BarberStatus → Shop
same_room s st = record s { status = st }

pub same_room-Fits : (s : Shop) (st : BarberStatus) → Fits s → Fits (same_room s st)
same_room-Fits s st f = record { cells = f.cells; seated = f.seated; chairs = f.chairs }

pub no_one : (p : ℕ) (s : Shop) → s.total_clients ≡ 0 → count p (waiting s) ≡ 0
no_one p s e = rw e

module _ (s : Shop) (ok : ShopOk s) (p : ℕ) (c : Client) (own : ClientOk s p c) where
  pub leave-TurnOk :
      expects c ≡ 0 → is_in_chair c ≡ false → TurnOk s p s (record c { place = left })
  leave-TurnOk e n = record {
    shop' = ok;
    self = record { once = ground arith; sits = ground arith; consistent = tt };
    others = λ a d ne h. h;
  }

  -- The client queues up in a shop that differs by its status at most.
  pub queue-TurnOk :
      (st : BarberStatus) (c' : Client)
      → q_full (same_room s st) ≡ false
      → is_sleeping st ≡ false
      → is_inviting st ≡ is_inviting s.status
      → (is_called st ≡ true → is_called s.status ≡ true)
      → ((a : ℕ)
          → p ≢ a
          → (is_busy st && is_pid s.curr_client a) ≡ (is_busy s.status && is_pid s.curr_client a))
      → is_in_chair c' ≡ (is_busy st && is_pid s.curr_client p)
      → IsConsistent c'
      → expects c ≡ 0
      → expects c' ≡ 1
      → TurnOk s p (enqueue p (same_room s st)) c'
  queue-TurnOk st c' room awake calls called' busy sits' con before after = record {
    shop' = record {
      fits = enqueue-Fits p t fits';
      asleep = ground (arith, enqueue-fields p t);
      woken = ground (arith, enqueue-fields p t);
      named = ground (arith, enqueue-fields p t, called');
    };
    self = record {
      once = ground (arith, enqueue-fields p t, count-enqueue p p t fits');
      sits = ground (arith, enqueue-fields p t);
      consistent = con;
    };
    others = λ a d ne h. record {
      once = ground (arith, enqueue-fields p t, count-enqueue a p t fits');
      sits = ground (arith, enqueue-fields p t, busy a ne);
      consistent = h.consistent;
    };
  }
    where
      t : Shop
      t = same_room s st

      fits' : Fits t
      fits' = same_room-Fits s st ok.fits

  -- The turn leaves the shop as it is.
  pub stay-TurnOk :
      (c' : Client)
      → expects c' ≡ expects c
      → is_in_chair c' ≡ is_in_chair c
      → IsConsistent c'
      → TurnOk s p s c'
  stay-TurnOk c' e n con = record {
    shop' = ok;
    self = record {
      once = ground (arith, own.once);
      sits = ground (arith, own.sits);
      consistent = con;
    };
    others = λ a d ne h. h;
  }

  -- The client moves on, and changes nothing of the shop but its status.
  pub mark-TurnOk :
      (st : BarberStatus) (c' : Client)
      → is_sleeping st ≡ false
      → is_inviting st ≡ false
      → (st ≡ woken_up → ⊥)
      → is_called s.status ≡ true
      → is_pid s.curr_client p ≡ true
      → (is_inviting s.status ≡ true → expects c ≡ 1)
      → (is_inviting s.status ≡ false → expects c ≡ 0)
      → is_in_chair c' ≡ is_busy st
      → IsConsistent c'
      → expects c' ≡ 0
      → TurnOk s p (same_room s st) c'
  mark-TurnOk st c' awake calm open_ called' mine before before' sits' con after = record {
    shop' = record {
      fits = same_room-Fits s st ok.fits;
      asleep = ground arith;
      woken = λ e. absurd (open_ e);
      named = λ _. ok.named called';
    };
    self = record { once = ground (arith, own.once); sits = ground arith; consistent = con };
    others = λ a d ne h. record {
      once = ground (arith, not_called a ne);
      sits = ground (arith, not_called a ne);
      consistent = h.consistent;
    };
  }
    where
      not_called : (a : ℕ) → p ≢ a → is_pid s.curr_client a ≡ false
      not_called a ne = ground arith
