-- ===== src/Shop/Invariant/Reached.antt =====
-- The invariant holds when the shop opens, and in every state that turns lead to.
use op_sys.Common.{if_cases, ℕ, ◌≡◌, List, arith, ℤ, ◌==◌, length, some}
use op_sys.Shop.{Shop, sleeping, open_shop, max_clients}
use op_sys.Shop.Client.{Client, start_client, client_turn}
use op_sys.Shop.System.{
  System, after_barber, after_client, Step, barber, client, Reach, opened, later,
}
use op_sys.Shop.Invariant.{ClientOk, Inv, TurnOk}
use mathlib.Core.Path.{subst}
use op_sys.Shop.Invariant.Moves.{no_one}
use op_sys.Shop.Invariant.Barber.{barber-Keeps}
use op_sys.Shop.Invariant.Turns.{turn-TurnOk}

after_barber-Inv : (s : System) → Inv s → Inv (after_barber s)
after_barber-Inv s v =
    let (ok, clients) = barber-Keeps s.shop v.shop in
    record { shop = ok; client = λ p. clients p (s.client p) (v.client p) }

after_client-Inv : (p : ℕ) (s : System) → Inv s → Inv (after_client p s)
after_client-Inv p s v = record {
  shop = turn.shop';
  client = λ a.
      if_cases (ClientOk (after_client p s).shop a) (p == a)
        (λ e.
          let same : p ≡ a = ground arith in
          subst (λ b. ClientOk (after_client p s).shop b moved) same turn.self)
        (λ e. turn.others a (s.client a) (ground arith) (v.client a));
}
  where
    moved : Client
    moved = (client_turn p s.shop (s.client p)).1

    turn : TurnOk s.shop p (client_turn p s.shop (s.client p)).0 moved
    turn = turn-TurnOk s.shop v.shop p (s.client p) (v.client p)

pub Step-Inv : {s t : System} → Step s t → Inv s → Inv t
Step-Inv {s} barber v = after_barber-Inv s v
Step-Inv {s} (client p) v = after_client-Inv p s v

start-ClientOk :
    (s : Shop) (p : ℕ) (shaves : ℤ)
    → s.status ≡ sleeping
    → s.total_clients ≡ 0
    → ClientOk s p (start_client shaves)
unfolding start_client
start-ClientOk s p shaves st z = record {
  once = ground (arith, no_one p s z);
  sits = ground arith;
  consistent = ground arith;
}

opened-Inv :
    (seats : ℤ) (cells : List ℕ) (shop : Shop) (shaves : ℕ → ℤ)
    → length cells ≡ max_clients
    → open_shop seats cells ≡ some shop
    → Inv (record { shop = shop; client = λ p. start_client (shaves p) })
unfolding open_shop
opened-Inv seats cells shop shaves n e = record {
  shop = record {
    fits = record { cells = ground arith; seated = ground arith; chairs = ground arith };
    asleep = ground arith;
    woken = ground arith;
    named = ground arith;
  };
  client = λ p. start-ClientOk shop p (shaves p) (ground arith) (ground arith);
}

pub Reach-Inv : {seats : ℤ} {shaves : ℕ → ℤ} {s : System} → Reach seats shaves s → Inv s
Reach-Inv {seats} {shaves} (opened cells shop n e) = opened-Inv seats cells shop shaves n e
Reach-Inv (later r st) = Step-Inv st (Reach-Inv r)
