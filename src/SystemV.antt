-- ===== src/SystemV.antt =====
-- lab5_message_queues/SystemV/server.c, server.h: the server over SystemV queues. What the system answers
-- to its calls is a parameter; the messages that it sends are recorded, the latest first. The loop that
-- reverses a text, and the messages, are those of Server and Protocol.
pub mod Client
pub mod Table
pub mod Found
pub mod Registered
pub mod Session
pub mod Ends
mod Tests
use op_sys.Common.{
  ℕ, zero, suc, ◌-◌, Bool, true, false, Option, none, some, List, [], ◌∷◌, ltb, ℤ, pos, negsuc,
  ◌==◌, if◌then◌else◌, set, skip_space, scan_int, write_string, print_int,
}
use op_sys.Protocol.{Message, max_clients, register, mirror, time, end}
use op_sys.Server.{Entry, no_entry, mirror_content}

-- The globals of server.h but the queue of the server.
pub record Server : Type 0 where
  pub active : Bool
  pub clients_data : List Entry
  pub client_count : ℕ
  pub sent : List (ℕ × Message)

-- While one message is handled: `msgget` at a key, whether `msgsnd` succeeds, `getpid`, the text of the
-- time, and what stands in the variable of a key that is not read.
pub record Answers : Type 0 where
  pub opens : ℤ → Option ℕ
  pub sends : Bool
  pub pid : ℕ
  pub time_text : List ℕ
  pub unset_key : ℤ

-- `exits` is EXIT_MSG.
pub data Outcome : Type 0 where
  goes_on : Server → Outcome
  exits : Server → Outcome

unfoldable pub send : Answers → ℕ → Message → Server → Outcome
send a qid msg s = if a.sends then goes_on (record s { sent = (qid, msg) ∷ s.sent }) else exits s

abbrev pub is_ended : List ℕ → Bool
is_ended [] = true
is_ended (c ∷ _) = c == 0

-- `sscanf` returns a number below 0 only where the text ends before a number could begin; where it
-- finds no number, the variable stays as it is.
unfoldable pub read_key : ℤ → List ℕ → Option ℤ
read_key unset content =
    if is_ended (skip_space content)
    then none
    else elim (scan_int content) [ none ↦ some unset | some key ↦ some key ]

abbrev pub session_reply : Answers → List ℕ → Message → Message
session_reply a number msg = record {
  type = register;
  sender_pid = a.pid;
  content = write_string number msg.content;
}

unfoldable pub enter : Answers → ℕ → Message → Server → Outcome
unfolding send
enter a qid msg s =
    if ltb (max_clients - 1) s.client_count
    then send a qid (session_reply a (print_int (negsuc 0)) msg) s
    else send a qid (session_reply a (print_int (pos s.client_count)) msg) (record s {
      clients_data = set s.clients_data s.client_count (record { pid = msg.sender_pid; qid = qid });
      client_count = suc s.client_count;
    })

abbrev pub open_key : Answers → Option ℤ → Option ℕ
open_key a none = none
open_key a (some key) = a.opens key

unfoldable pub handle_register : Answers → Message → Server → Outcome
unfolding read_key enter
handle_register a msg s = elim (open_key a (read_key a.unset_key msg.content)) [
  | none ↦ exits s
  | some qid ↦ enter a qid msg s
]

-- The loop of `get_qid` is over all cells, those that no client has yet too. `none` is -1.
unfoldable pub get_qid : ℕ → List Entry → Option ℕ
get_qid client_pid [] = none
get_qid client_pid (e ∷ es) = if e.pid == client_pid then some e.qid else get_qid client_pid es

unfoldable pub create_message : Answers → Message → Server → Option (ℕ × Message)
unfolding get_qid
create_message a msg s = elim (get_qid msg.sender_pid s.clients_data) [
  | none ↦ none
  | some qid ↦ some (qid, record msg { type = msg.sender_pid; sender_pid = a.pid })
]

unfoldable pub handle_mirror : Answers → Message → Server → Outcome
unfolding create_message send
handle_mirror a msg s = elim (create_message a msg s) [
  | none ↦ goes_on s
  | some (qid, reply) ↦ send a qid (record reply { content = mirror_content reply.content }) s
]

unfoldable pub handle_time : Answers → Message → Server → Outcome
unfolding create_message send
handle_time a msg s = elim (create_message a msg s) [
  | none ↦ goes_on s
  | some (qid, reply) ↦
      send a qid (record reply { content = write_string a.time_text reply.content }) s
]

unfoldable pub handle_end : Server → Outcome
handle_end s = goes_on (record s { active = false })

unfoldable pub dispatch_requests : Answers → Message → Server → Outcome
unfolding handle_register handle_mirror handle_time handle_end
dispatch_requests a msg s =
    if msg.type == register
    then handle_register a msg s
    else if msg.type == mirror
    then handle_mirror a msg s
    else if msg.type == time
    then handle_time a msg s
    else if msg.type == end
    then handle_end s
    else goes_on s

-- How `main` can stand: it waits in `msgrcv`, it has returned 0, or EXIT_MSG has ended it.
pub data Status : Type 0 where
  waits : Server → Status
  returned : Server → Status
  failed : Server → Status

-- The loop of `main` over the messages that come in, each with the answers that it meets: an inactive
-- server ends when its queue is empty. No call for the server's own queue fails.
abbrev pub idle : Server → Status
idle s = if s.active then waits s else returned s

abbrev pub next : Outcome → (Server → Status) → Status
next (goes_on t) rest = rest t
next (exits t) rest = failed t

unfoldable pub serve : List (Answers × Message) → Server → Status
serve [] s = idle s
serve ((a, msg) ∷ queue) s = next (dispatch_requests a msg s) (serve queue)

-- The calls before the loop, in their order: whether `atexit` and `signal` succeed, HOME, the key of its
-- path, and the queue; `removes` is whether `msgctl` succeeds at the end.
pub record Setup : Type 0 where
  pub at_exit : Bool
  pub signal : Bool
  pub home : Option (List ℕ)
  pub ftok : List ℕ → Option ℤ
  pub msgget : ℤ → Option ℕ
  pub removes : Bool

-- The queue that the server has created.
unfoldable pub open_queue : Setup → Option ℕ
open_queue u =
    if u.at_exit
    then if u.signal
      then elim u.home [
        | none ↦ none
        | some path ↦ elim (u.ftok path) [ none ↦ none | some key ↦ u.msgget key ]
      ]
      else none
    else none

abbrev pub new_server : Server
new_server = record {
  active = true;
  clients_data = no_entry ∷ no_entry ∷ no_entry ∷ no_entry ∷ no_entry ∷ [];
  client_count = 0;
  sent = [];
}

-- `main`; the queues that `close_queue` has removed stand behind the status.
abbrev pub removed : Bool → ℕ → Status → List ℕ
removed succeeds q (waits s) = []
removed succeeds q (returned s) = if succeeds then q ∷ [] else []
removed succeeds q (failed s) = if succeeds then q ∷ [] else []

unfoldable pub main : Setup → List (Answers × Message) → Status × List ℕ
unfolding serve open_queue
main u queue = elim (open_queue u) [
  | none ↦ (failed new_server, [])
  | some q ↦ (serve queue new_server, removed u.removes q (serve queue new_server))
]
