-- ===== src/SystemV/Tests.antt =====
-- The first registration, a full table, a request that is mirrored, and a client that quits.
use op_sys.Common.{
  Option, ℕ, ◌≡◌, ◌≢◌, refl, true, none, some, List, [], ◌∷◌, pos, arith, scan_int, scan_nat,
  skip_space, print_int, print_nat, print_acc, lt_wf, write_string, dec_lt,
}
use op_sys.Protocol.{Message, register}
use op_sys.Server.{Entry}
use op_sys.SystemV.{
  Server, Answers, goes_on, read_key, open_key, get_qid, dispatch_requests, waits, serve,
  new_server,
}
use op_sys.SystemV.Table.{new_server-IsValid, stands}
use op_sys.SystemV.Registered.{register_enters}
use op_sys.SystemV.Client
use op_sys.SystemV.Client.{
  Replies, Setup, Status, ended, main, close_queue, open_queues, register_client, new_client,
  request_mirror, request_of, chomp,
}
use op_sys.SystemV.Ends.{AllSucceed, Comes, main-Comes}
use op_sys.SystemV.Session.{mirror_round}

abbrev answers : Answers
answers = record { opens = λ _. some 9; sends = true; pid = 100; time_text = []; unset_key = pos 0 }

-- The key 17 from process 42.
abbrev registration : Message
registration = record { type = register; sender_pid = 42; content = b'1' ∷ b'7' ∷ 0 ∷ 0 ∷ [] }

registration-key : open_key answers (read_key (pos 0) registration.content) ≡ some 9
unfolding read_key scan_int scan_nat skip_space
registration-key = refl

no_client : get_qid 42 new_server.clients_data ≡ none
unfolding get_qid
no_client = refl

register_enters_example :
    (t : Server) × (reply : Message) × (dispatch_requests answers registration new_server
      ≡ goes_on t)
    × (t.sent ≡ (9, reply) ∷ [])
    × (scan_int reply.content ≡ some (pos 0))
    × (t.client_count ≡ 1)
    × ((queue : List (Answers × Message))
        → get_qid 42 (stands (serve queue t)).clients_data ≡ some 9)
    × ((p : ℕ) → p ≢ 0 → p ≢ 42 → get_qid p t.clients_data ≡ get_qid p new_server.clients_data)
register_enters_example =
    register_enters answers registration new_server 9 new_server-IsValid refl registration-key refl
      (omega arith) no_client (omega arith)

abbrev entry_of : ℕ → Entry
entry_of p = record { pid = p; qid = p }

abbrev full_server : Server
full_server = record {
  active = true;
  clients_data = entry_of 1 ∷ entry_of 2 ∷ entry_of 3 ∷ entry_of 4 ∷ entry_of 5 ∷ [];
  client_count = 5;
  sent = [];
}

-- A message of a type that the server does not know.
abbrev unknown_message : Message
unknown_message = record { type = 7; sender_pid = 3; content = [] }

still_waits : serve ((answers, unknown_message) ∷ []) full_server ≡ waits full_server
unfolding serve dispatch_requests
still_waits = refl

abbrev client : Client.Client
client = new_client (some 9)

abbrev known_request : Message
known_request = record { type = 0; sender_pid = 3; content = 1 ∷ 2 ∷ 3 ∷ 4 ∷ 5 ∷ [] }

client_known : get_qid 3 full_server.clients_data ≡ some 3
unfolding get_qid
client_known = refl

mirror_round_example :
    (request reply : Message) × (t : Server) × (c' : Client.Client) × (dispatch_requests answers
        request full_server
      ≡ goes_on t)
    × (t.sent ≡ (3, reply) ∷ [])
    × (request_mirror
          (record { sends = true; receives = some reply; line = some (b'a' ∷ b'b' ∷ 10 ∷ []) })
          client
          known_request
        ≡ Client.goes_on c' reply)
    × (c'.sent ≡ request ∷ [])
    × (reply.content ≡ b'b' ∷ b'a' ∷ 10 ∷ 0 ∷ 5 ∷ [])
    × (c'.printed ≡ (b'b' ∷ b'a' ∷ 10 ∷ []) ∷ [])
mirror_round_example =
    mirror_round answers full_server client known_request (b'a' ∷ b'b' ∷ []) 3
      ((λ e. ground (arith, e)), ((λ e. ground (arith, e)), tt)) client_known refl

abbrev admitted : Message
admitted = record { type = register; sender_pid = 100; content = b'0' ∷ 0 ∷ [] }

abbrev replies : Replies
replies = record { sends = true; receives = some admitted; line = none }

abbrev setup : Setup
setup = record {
  at_exit = true;
  signal = true;
  home = some (b'/' ∷ []);
  ftok = λ path id. some (pos id);
  msgget_server = λ key. some 1;
  msgget_new = λ key. some 9;
  pid = 42;
  stack = [];
}

abbrev input : List (Option (List ℕ) × Replies)
input =
    (some (b't' ∷ b'i' ∷ b'm' ∷ b'e' ∷ 10 ∷ []), replies)
    ∷ (some (b'q' ∷ b'u' ∷ b'i' ∷ b't' ∷ 10 ∷ []), replies)
    ∷ []

queues_open : open_queues setup ≡ some (pos 42, 9)
unfolding open_queues
queues_open = refl

abbrev registered_client : Client.Client
registered_client = record {
  session_num = pos 0;
  priv_qid = some 9;
  sent = record { type = register; sender_pid = 42; content = b'4' ∷ b'2' ∷ 0 ∷ [] } ∷ [];
  printed = [];
}

client_registered :
    register_client replies 42 (pos 42) [] (new_client (some 9))
    ≡ Client.goes_on registered_client admitted
unfolding register_client scan_int scan_nat skip_space print_int print_nat print_acc lt_wf
    write_string dec_lt
client_registered = refl

all_succeed : AllSucceed input
all_succeed = ((refl, (admitted, refl)), ((refl, (admitted, refl)), tt))

main-Comes_example : Comes input (main setup replies input)
main-Comes_example =
    main-Comes setup replies input (pos 42) 9 registered_client admitted all_succeed queues_open
      client_registered
