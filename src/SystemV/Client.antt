-- ===== src/SystemV/Client.antt =====
-- lab5_message_queues/SystemV/client.c, client.h. What the calls of the system answer stands in `Setup`
-- and `Replies`; `exits` is EXIT_MSG or `exit`, after which `close_queue` runs.
use op_sys.Common.{
  ℕ, Bool, ◌&&◌, Option, none, some, List, [], ◌∷◌, ℤ, pos, negsuc, ltb_ℤ, ◌==◌, if◌then◌else◌,
  scan_int, print_int, write_string, take, strlen, ◌++◌,
}
use op_sys.Records.Program.{str_eq}
use op_sys.Protocol.{Message, register, mirror, time, end}

-- Whether `msgsnd` succeeds, what `msgrcv` brings, and the text that `fgets` reads to be mirrored.
pub record Replies : Type 0 where
  pub sends : Bool
  pub receives : Option Message
  pub line : Option (List ℕ)

-- `priv_qid`, none where it is -1; what was sent and what was printed, the latest first.
pub record Client : Type 0 where
  pub session_num : ℤ
  pub priv_qid : Option ℕ
  pub sent : List Message
  pub printed : List (List ℕ)

pub data Outcome : Type 0 where
  goes_on : Client → Message → Outcome
  exits : ℤ → Client → Outcome

infixl 5 ◌>>=◌
abbrev pub ◌>>=◌ : Outcome → (Client → Message → Outcome) → Outcome
goes_on c msg >>= f = f c msg
exits code c >>= f = exits code c

abbrev pub sending : Message → Client → Client
sending msg c = record c { sent = msg ∷ c.sent }

abbrev pub printing : List ℕ → Client → Client
printing text c = record c { printed = text ∷ c.printed }

unfoldable pub send : Replies → Message → Client → Outcome
send r msg c = if r.sends then goes_on (sending msg c) msg else exits (negsuc 0) c

-- `msgrcv` overwrites the message.
unfoldable pub receive : Replies → Client → Message → Outcome
receive r c msg = elim r.receives [ none ↦ exits (negsuc 0) c | some reply ↦ goes_on c reply ]

unfoldable pub read_session : Client → Message → Outcome
read_session c msg = elim (scan_int msg.content) [
  | none ↦ exits (negsuc 0) c
  | some n ↦
      if ltb_ℤ n (pos 0)
      then exits (negsuc 0) (record c { session_num = n })
      else goes_on (record c { session_num = n }) msg
]

-- `content` is what the stack holds.
unfoldable pub register_client : Replies → ℕ → ℤ → List ℕ → Client → Outcome
unfolding send receive read_session
register_client r pid key content c =
    send r
      (record { type = register; sender_pid = pid; content = write_string (print_int key) content })
      c
    >>= receive r
    >>= read_session

-- `printf` with "%s" and with "%s\n".
abbrev pub text_of : List ℕ → List ℕ
text_of content = take (strlen content) content

abbrev pub print_reply : Client → Message → Outcome
print_reply c msg = goes_on (printing (text_of msg.content) c) msg

abbrev pub print_time : Client → Message → Outcome
print_time c msg = goes_on (printing (text_of msg.content ++ 10 ∷ []) c) msg

-- `fgets` brings nothing, or the text.
abbrev pub mirror_line : Replies → Client → Message → Option (List ℕ) → Outcome
mirror_line r c msg none = goes_on c (record msg { type = mirror })
mirror_line r c msg (some text) =
    send r (record msg { type = mirror; content = write_string text msg.content }) c
    >>= receive r
    >>= print_reply

unfoldable pub request_mirror : Replies → Client → Message → Outcome
unfolding send receive
request_mirror r c msg = mirror_line r c msg r.line

unfoldable pub request_time : Replies → Client → Message → Outcome
unfolding send receive
request_time r c msg = send r (record msg { type = time }) c >>= receive r >>= print_time

unfoldable pub request_end : Replies → Client → Message → Outcome
unfolding send
request_end r c msg = send r (record msg { type = end }) c

-- The words of the requests.
pub data Request : Type 0 where
  ask_mirror : Request
  ask_time : Request
  ask_end : Request
  ask_quit : Request
  ask_unknown : Request

unfoldable pub request_of : List ℕ → Request
request_of request =
    if str_eq request (b'm' ∷ b'i' ∷ b'r' ∷ b'r' ∷ b'o' ∷ b'r' ∷ [])
    then ask_mirror
    else if str_eq request (b't' ∷ b'i' ∷ b'm' ∷ b'e' ∷ [])
    then ask_time
    else if str_eq request (b'e' ∷ b'n' ∷ b'd' ∷ [])
    then ask_end
    else if str_eq request (b'q' ∷ b'u' ∷ b'i' ∷ b't' ∷ [])
    then ask_quit
    else ask_unknown

-- The text without the newline at its end.
unfoldable pub chomp : List ℕ → List ℕ
chomp [] = []
chomp (c ∷ []) = if c == 10 then [] else c ∷ []
chomp (c ∷ d ∷ s) = c ∷ chomp (d ∷ s)

abbrev pub perform : Request → Replies → Client → Message → Outcome
perform ask_mirror r c msg = request_mirror r c msg
perform ask_time r c msg = request_time r c msg
perform ask_end r c msg = request_end r c msg
perform ask_quit r c msg = exits (pos 0) c
perform ask_unknown r c msg = goes_on c msg

-- One turn of the loop of `main`: `fgets` brings nothing, and the loop goes on, or a line.
abbrev pub turn_with : ℕ → Option (List ℕ) → Replies → Client → Message → Outcome
turn_with pid none r c msg = goes_on c (record msg { sender_pid = pid })
turn_with pid (some request) r c msg =
    perform (request_of (chomp request)) r c (record msg { sender_pid = pid })

unfoldable pub turn : ℕ → Option (List ℕ) → Replies → Client → Message → Outcome
unfolding request_mirror request_time request_end request_of chomp
turn pid request r c msg = turn_with pid request r c msg

-- After some turns the loop goes on, or the program has called `exit`.
pub data Status : Type 0 where
  running : Client → Message → Status
  ended : ℤ → Client → Status

abbrev pub after : Outcome → (Client → Message → Status) → Status
after (goes_on c msg) rest = rest c msg
after (exits code c) rest = ended code c

-- The turns, each with what `fgets` brings and what the calls answer.
unfoldable pub session : ℕ → List (Option (List ℕ) × Replies) → Client → Message → Status
session pid [] c msg = running c msg
session pid ((request, r) ∷ input) c msg = after (turn pid request r c msg) (session pid input)

-- The calls before the loop: `atexit`, `signal`, HOME, `ftok` with the path and a number, `msgget` for
-- the server's queue and for the client's own, and `getpid`.
pub record Setup : Type 0 where
  pub at_exit : Bool
  pub signal : Bool
  pub home : Option (List ℕ)
  pub ftok : List ℕ → ℕ → Option ℤ
  pub msgget_server : ℤ → Option ℕ
  pub msgget_new : ℤ → Option ℕ
  pub pid : ℕ
  pub stack : List ℕ

abbrev pub project_id : ℕ
project_id = 3

-- The queue of the server.
unfoldable pub create_priv_queue : Setup → List ℕ → Option ℕ
create_priv_queue u path = elim (u.ftok path project_id) [
  | none ↦ none
  | some key ↦ u.msgget_server key
]

abbrev pub new_client : Option ℕ → Client
new_client q = record { session_num = negsuc 1; priv_qid = q; sent = []; printed = [] }

-- The key and the number of the client's own queue.
unfoldable pub open_queues : Setup → Option (ℤ × ℕ)
unfolding create_priv_queue
open_queues u =
    if u.at_exit && u.signal
    then elim u.home [
      | none ↦ none
      | some path ↦ elim (create_priv_queue u path) [
        | none ↦ none
        | some server_qid ↦ elim (u.ftok path u.pid) [
          | none ↦ none
          | some key ↦ elim (u.msgget_new key) [ none ↦ none | some q ↦ some (key, q) ]
        ]
      ]
    ]
    else none

-- `msg` before the loop, but for the pid.
abbrev pub first_message : Setup → Message
first_message u = record { type = 0; sender_pid = u.pid; content = u.stack }

unfoldable pub registered_session :
    Setup → Replies → List (Option (List ℕ) × Replies) → ℤ → ℕ → Status
unfolding register_client session turn
registered_session u r input key q =
    after (register_client r u.pid key u.stack (new_client (some q)))
      λ c reply. session u.pid input c (first_message u)

abbrev pub main_with : Setup → Replies → List (Option (List ℕ) × Replies) → Option (ℤ × ℕ) → Status
main_with u r input none = ended (negsuc 0) (new_client none)
main_with u r input (some (key, q)) = registered_session u r input key q

unfoldable pub main : Setup → Replies → List (Option (List ℕ) × Replies) → Status
unfolding registered_session open_queues
main u r input = main_with u r input (open_queues u)

-- `close_queue`, which `atexit` has registered: the queue that is removed, where `msgctl` succeeds.
abbrev pub close_queue : Bool → Client → Option ℕ
close_queue succeeds c = if succeeds then c.priv_qid else none
