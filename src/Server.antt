-- ===== src/Server.antt =====
-- lab5_message_queues/POSIX/server.c: the server's handlers. What the system answers to a call of
-- `mq_open`, `mq_send`, `mq_close` and `time` is a parameter of each request; what the server sends and
-- closes is recorded in the state, the latest first.
pub mod Table
pub mod Requests
pub mod Mirror
pub mod Lines
pub mod Replies
pub mod Loop
mod Tests
use op_sys.Common.{
  ℕ, zero, suc, ◌+◌, ◌-◌, ◌/◌, Bool, true, false, ◌&&◌, Option, none, some, List, [], ◌∷◌, ltb, leb,
  pos, negsuc, ◌==◌, if◌then◌else◌, get_or, set, shift, strlen, write_string, print_int,
}
use op_sys.Protocol.{Message, max_clients, register, mirror, time, end, quit}

-- The entry of a client in `clients_data`: its pid and the descriptor of its queue.
pub record Entry : Type 0 where
  pub pid : ℕ
  pub qid : ℕ

abbrev pub no_entry : Entry
no_entry = record { pid = 0; qid = 0 }

-- The globals of server.h, and what the server has done to the clients' queues. A descriptor is a
-- number, since -1 is never stored.
pub record Server : Type 0 where
  pub active : Bool
  pub clients_data : List Entry
  pub client_count : ℕ
  pub sent : List (ℕ × Message)
  pub closed : List ℕ

-- What the system answers while one request is handled.
pub record Answers : Type 0 where
  pub opens : Option ℕ
  pub sends : Bool
  pub closes : Bool
  pub pid : ℕ
  pub time_text : List ℕ

-- `EXIT_MSG` ends the process.
pub data Outcome : Type 0 where
  goes_on : Server → Outcome
  exits : Server → Outcome

-- `mq_send`, and `EXIT_MSG` where it fails.
unfoldable pub send : Answers → ℕ → Message → Server → Outcome
send a qid msg s = if a.sends then goes_on (record s { sent = (qid, msg) ∷ s.sent }) else exits s

-- `mq_close`, and `EXIT_MSG` where it fails.
unfoldable pub close : Answers → ℕ → Server → Outcome
close a qid s = if a.closes then goes_on (record s { closed = qid ∷ s.closed }) else exits s

infixl 5 ◌>>=◌
abbrev pub ◌>>=◌ : Outcome → (Server → Outcome) → Outcome
goes_on s >>= f = f s
exits s >>= f = exits s

-- The reply to a registration, with the number that `sprintf` prints.
abbrev pub session_reply : Answers → List ℕ → Message → Message
session_reply a number msg = record {
  type = register;
  sender_pid = a.pid;
  content = write_string number msg.content;
}

-- The table is full: the reply is -1, and the queue is closed again.
unfoldable pub refuse : Answers → ℕ → Message → Server → Outcome
refuse a qid msg s = do
  s' ← send a qid (session_reply a (print_int (negsuc 0)) msg) s
  close a qid s'

unfoldable pub admit : Answers → ℕ → Message → Server → Outcome
admit a qid msg s = send a qid (session_reply a (print_int (pos s.client_count)) msg) (record s {
  clients_data = set s.clients_data s.client_count (record { pid = msg.sender_pid; qid = qid });
  client_count = suc s.client_count;
})

unfoldable pub handle_register : Answers → Message → Server → Outcome
handle_register a msg s = elim a.opens [
  | none ↦ exits s
  | some qid ↦
      if ltb (max_clients - 1) s.client_count then refuse a qid msg s else admit a qid msg s
]

-- The loop of `get_qid`, over the entries that are left and the rounds that are left. `none` is -1.
unfoldable pub find_qid : ℕ → List Entry → ℕ → Option ℕ
find_qid zero entries sender = none
find_qid (suc rounds) [] sender = none
find_qid (suc rounds) (e ∷ entries) sender =
    if e.pid == sender then some e.qid else find_qid rounds entries sender

unfoldable pub get_qid : ℕ → Server → Option ℕ
unfolding find_qid
get_qid sender s = find_qid s.client_count s.clients_data sender

-- `create_msg`: the queue for the reply, and the message as it is addressed.
unfoldable pub create_msg : Answers → Message → Server → Option (ℕ × Message)
create_msg a msg s = elim (get_qid msg.sender_pid s) [
  | none ↦ none
  | some qid ↦ some (qid, record msg { type = msg.sender_pid; sender_pid = a.pid })
]

-- The length that is mirrored: a newline at the end stays where it is. For an empty text the program
-- looks at the byte before the array, and with either answer no round of the loop follows.
unfoldable pub mirrored_length : List ℕ → ℕ
unfolding strlen
mirrored_length content =
    let len = strlen content in
    if ltb 0 len && (get_or content (len - 1) 0 == 10) then len - 1 else len

-- The loop of `handle_mirror`, with the rounds that are left: it swaps `content[i]` and
-- `content[len - i - 1]`.
unfoldable pub swap_ends : ℕ → ℕ → ℕ → List ℕ → List ℕ
swap_ends zero i len content = content
swap_ends (suc rounds) i len content =
    let buff = get_or content i 0 in
    swap_ends rounds (suc i) len
      (set (set content i (get_or content (len - i - 1) 0)) (len - i - 1) buff)

unfoldable pub mirror_content : List ℕ → List ℕ
unfolding mirrored_length swap_ends
mirror_content content = swap_ends (mirrored_length content / 2) 0 (mirrored_length content) content

unfoldable pub handle_mirror : Answers → Message → Server → Outcome
handle_mirror a msg s = elim (create_msg a msg s) [
  | none ↦ goes_on s
  | some (qid, reply) ↦ send a qid (record reply { content = mirror_content reply.content }) s
]

unfoldable pub handle_time : Answers → Message → Server → Outcome
handle_time a msg s = elim (create_msg a msg s) [
  | none ↦ goes_on s
  | some (qid, reply) ↦
      send a qid (record reply { content = write_string a.time_text reply.content }) s
]

unfoldable pub handle_end : Server → Outcome
handle_end s = goes_on (record s { active = false })

-- The first loop of `handle_quit`: the index of the client's entry, or `client_count`.
unfoldable pub find_client : ℕ → List Entry → ℕ → ℕ
find_client zero entries sender = 0
find_client (suc rounds) [] sender = suc rounds
find_client (suc rounds) (e ∷ entries) sender =
    if e.pid == sender then 0 else suc (find_client rounds entries sender)

-- The entry at `i` is closed, and the later entries move up.
unfoldable pub drop_client : Answers → ℕ → Server → Outcome
drop_client a i s = do
  s' ← close a (get_or s.clients_data i no_entry).qid s
  goes_on (record s' {
    clients_data = shift no_entry (s.client_count - 1 - i) i s.clients_data;
    client_count = s.client_count - 1;
  })

unfoldable pub handle_quit : Answers → Message → Server → Outcome
handle_quit a msg s =
    let i = find_client s.client_count s.clients_data msg.sender_pid in
    if i == s.client_count then goes_on s else drop_client a i s

unfoldable pub dispatch_request : Answers → Message → Server → Outcome
dispatch_request a msg s =
    if msg.type == register
    then handle_register a msg s
    else if msg.type == mirror
    then handle_mirror a msg s
    else if msg.type == time
    then handle_time a msg s
    else if msg.type == end
    then handle_end s
    else if msg.type == quit
    then handle_quit a msg s
    else goes_on s
