-- ===== src/Client.antt =====
-- lab5_message_queues/POSIX/client.c: the requests of a client and its clean-up. What the calls of the
-- system answer stands in `Replies`; `exits` is the macro EXIT_MSG, after which `close_queue` runs.
pub mod Session
mod Tests
use op_sys.Common.{
  ℕ, Bool, true, false, Option, none, some, List, [], ◌∷◌, ℤ, pos, negsuc, ltb_ℤ, if◌then◌else◌,
  scan_int, write_string,
}
use op_sys.Protocol.{Message, register, mirror, time, end, quit}

-- `getpid`, whether `mq_send` succeeds, what `mq_receive` brings, and what `fgets` reads.
pub record Replies : Type 0 where
  pub pid : ℕ
  pub sends : Bool
  pub receives : Option Message
  pub line : Option (List ℕ)

-- The calls of `close_queue` that give the queues back.
pub data Call : Type 0 where
  close_public : Call
  close_private : Call
  unlink_private : Call

-- The messages sent to the server's queue and the calls that gave queues back, the last first;
-- `session_num` starts as -2. `priv_open` is `priv_qid > -1`.
pub record Client : Type 0 where
  pub session_num : ℤ
  pub priv_open : Bool
  pub sent : List Message
  pub released : List Call

pub data Outcome : Type 0 where
  goes_on : Client → Message → Outcome
  exits : Client → Outcome

abbrev pub sending : Message → Client → Client
sending msg c = record c { sent = msg ∷ c.sent }

-- A request is sent, and the reply overwrites the message.
unfoldable pub exchange : Replies → Message → Client → Outcome
exchange a msg c =
    if a.sends
    then elim a.receives [
      | none ↦ exits (sending msg c)
      | some reply ↦ goes_on (sending msg c) reply
    ]
    else exits c

-- What `sscanf` makes of the reply to the registration.
unfoldable pub read_session : Message → Client → Outcome
read_session msg c = elim (scan_int msg.content) [
  | none ↦ exits c
  | some n ↦
      let c' : Client = record c { session_num = n } in
      if ltb_ℤ n (pos 0) then exits c' else goes_on c' msg
]

-- `content` is what the stack holds.
unfoldable pub register_client : Replies → List ℕ → Client → Outcome
unfolding exchange read_session
register_client a content c =
    elim (exchange a (record { type = register; sender_pid = a.pid; content = content }) c) [
      | goes_on c' reply ↦ read_session reply c'
      | exits c' ↦ exits c'
    ]

unfoldable pub request_mirror : Replies → Message → Client → Outcome
unfolding exchange
request_mirror a msg c = elim a.line [
  | none ↦ goes_on c (record msg { type = mirror })
  | some text ↦ exchange a (record msg { type = mirror; content = write_string text msg.content }) c
]

unfoldable pub request_time : Replies → Message → Client → Outcome
unfolding exchange
request_time a msg c = exchange a (record msg { type = time }) c

unfoldable pub request_end : Replies → Message → Client → Outcome
request_end a msg c =
    let msg' : Message = record msg { type = end } in
    if a.sends then goes_on (sending msg' c) msg' else exits c

-- A QUIT that cannot be sent is only reported.
unfoldable pub request_quit : Replies → Message → Client → Client
request_quit a msg c = if a.sends then sending (record msg { type = quit }) c else c

-- Runs at every exit. What `mq_close` and `mq_unlink` answer is only reported.
unfoldable pub close_queue : Replies → List ℕ → Client → Client
unfolding request_quit
close_queue a content c =
    if c.priv_open
    then record (if ltb_ℤ c.session_num (pos 0)
        then c
        else request_quit a (record { type = 0; sender_pid = a.pid; content = content }) c) {
          released = unlink_private ∷ close_private ∷ close_public ∷ c.released;
        }
    else c
