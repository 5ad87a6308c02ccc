-- ===== src/Shop/System.antt =====
-- The barber and any number of clients. Each turn takes the semaphore, so turns follow one another in
-- an order that is left open; the clients go by their pids.
use op_sys.Common.{ℕ, ◌≡◌, ℤ, some, List, length, if◌then◌else◌, ◌==◌}
use op_sys.Shop.{Shop, max_clients, barber_turn, open_shop}
use op_sys.Shop.Client.{Client, start_client, client_turn}

pub record System : Type 0 where
  pub shop : Shop
  pub client : ℕ → Client

abbrev pub update : (ℕ → Client) → ℕ → Client → ℕ → Client
update clients p c a = if p == a then c else clients a

abbrev pub after_barber : System → System
after_barber s = record s { shop = barber_turn s.shop }

abbrev pub after_client : ℕ → System → System
after_client p s = record {
  shop = (client_turn p s.shop (s.client p)).0;
  client = update s.client p (client_turn p s.shop (s.client p)).1;
}

pub data Step (s : System) : System → Type 0 where
  barber : Step s (after_barber s)
  client : (p : ℕ) → Step s (after_client p s)

-- The shop opens with any contents of the shared segment; a client comes for `shaves p` shaves. A pid
-- that belongs to no client has none.
pub data Reach (seats : ℤ) (shaves : ℕ → ℤ) : System → Type 0 where
  opened :
      (cells : List ℕ) (shop : Shop)
      → length cells ≡ max_clients
      → open_shop seats cells ≡ some shop
      → Reach seats shaves (record { shop = shop; client = λ p. start_client (shaves p) })
  later : {s t : System} → Reach seats shaves s → Step s t → Reach seats shaves t
