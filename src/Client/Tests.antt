-- ===== src/Client/Tests.antt =====
-- The theorems on a client's session at a concrete client and server.
use op_sys.Common.{◌≡◌, refl, true, none, some, [], ◌∷◌, arith, replicate, length, pos, negsuc}
use op_sys.Protocol.{Message, quit}
use op_sys.Server.{no_entry, Server, Answers, goes_on, dispatch_request}
use op_sys.Server.Table.{registered, IsValid}
use op_sys.Client
use op_sys.Client.{Replies, register_client, close_queue}
use op_sys.Client.Session.{registration, replied, register-session}

abbrev all_well : Answers
all_well = record { opens = some 9; sends = true; closes = true; pid = 100; time_text = [] }

abbrev client_8 : Replies
client_8 = record { pid = 8; sends = true; receives = none; line = none }

abbrev new_client : Client.Client
new_client = record { session_num = negsuc 1; priv_open = true; sent = []; released = [] }

-- Client 7 is registered with the queue 3.
abbrev one_client : Server
one_client = record {
  active = true;
  clients_data = record { pid = 7; qid = 3 } ∷ replicate 4 no_entry;
  client_count = 1;
  sent = [];
  closed = [];
}

one_client-IsValid : IsValid one_client
one_client-IsValid = omega arith

register-session_example :
    (t : Server) × (reply : Message) × (c' : Client.Client) × (dispatch_request all_well
        (registration client_8 (0 ∷ 0 ∷ []))
        one_client
      ≡ goes_on t)
    × (t.sent ≡ (9, reply) ∷ one_client.sent)
    × (register_client (replied client_8 reply) (0 ∷ 0 ∷ []) new_client ≡ Client.goes_on c' reply)
    × (c'.session_num ≡ pos (length (registered one_client)))
    × ((close_queue (replied client_8 reply) [] c').sent
        ≡ record { type = quit; sender_pid = 8; content = [] }
          ∷ registration client_8 (0 ∷ 0 ∷ [])
          ∷ new_client.sent)
register-session_example =
    register-session all_well client_8 (0 ∷ 0 ∷ []) [] new_client one_client 9 one_client-IsValid
      refl refl (omega arith) refl
