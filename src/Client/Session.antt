-- ===== src/Client/Session.antt =====
-- A client and the server: the session from the registration to the clean-up.
use op_sys.Common.{
  ℕ, ◌<◌, ◌≡◌, refl, true, some, List, ◌∷◌, pos, negsuc, arith, length, scan_int, ge→ltb_ℤ,
}
use op_sys.Protocol.{Message, max_clients, register, quit}
use op_sys.Server.{Server, Answers, goes_on, dispatch_request}
use op_sys.Server.Table.{IsValid, registered}
use op_sys.Server.Requests.{register_admits, register_refuses}
use op_sys.Client
use op_sys.Client.{
  Replies, sending, exchange, read_session, register_client, close_queue, request_quit,
}

-- The registration that a client sends.
abbrev pub registration : Replies → List ℕ → Message
registration r content = record { type = register; sender_pid = r.pid; content = content }

read_session-some :
    (msg : Message) (c : Client.Client) (n : ℕ)
    → scan_int msg.content ≡ some (pos n)
    → read_session msg c ≡ Client.goes_on (record c { session_num = pos n }) msg
unfolding read_session
read_session-some msg c n e = rw (read_session, e, ge→ltb_ℤ (pos n) (pos 0) (omega arith)) refl

read_session-refused :
    (msg : Message) (c : Client.Client)
    → scan_int msg.content ≡ some (negsuc 0)
    → read_session msg c ≡ Client.exits (record c { session_num = negsuc 0 })
unfolding read_session
read_session-refused msg c e = rw (read_session, e) refl

-- The client's own view: the request goes out, the reply comes in.
abbrev pub replied : Replies → Message → Replies
replied r reply = record r { sends = true; receives = some reply }

-- Where the server has room and the calls of the system succeed, a client that registers gets the
-- number of clients before it as its session number; when it ends, it sends a QUIT request with its
-- process id.
pub register-session :
    (a : Answers) (r : Replies) (content junk : List ℕ) (c : Client.Client) (s : Server) (q : ℕ)
    → IsValid s
    → a.opens ≡ some q
    → a.sends ≡ true
    → length (registered s) < max_clients
    → c.priv_open ≡ true
    → (t : Server) × (reply : Message) × (c' : Client.Client) × (dispatch_request a
          (registration r content)
          s
        ≡ goes_on t)
      × (t.sent ≡ (q, reply) ∷ s.sent)
      × (register_client (replied r reply) content c ≡ Client.goes_on c' reply)
      × (c'.session_num ≡ pos (length (registered s)))
      × ((close_queue (replied r reply) junk c').sent
          ≡ record { type = quit; sender_pid = r.pid; content = junk }
            ∷ registration r content
            ∷ c.sent)
unfolding register_client exchange close_queue request_quit
register-session a r content junk c s q v opens sends room is_open =
    let (t, reply, e, _, sent, reads) =
      register_admits a (registration r content) s q v refl opens sends room in
    let n = length (registered s) in
    let c' : Client.Client = record (sending (registration r content) c) { session_num = pos n } in
    (
      t,
      reply,
      c',
      e,
      sent,
      read_session-some reply (sending (registration r content) c) n reads,
      refl,
      rw (is_open, ge→ltb_ℤ (pos n) (pos 0) (omega arith)) refl,
    )

-- Where the server is full and the calls of the system succeed, a client that registers exits, and
-- its clean-up sends no QUIT request.
refused-session :
    (a : Answers) (r : Replies) (content junk : List ℕ) (c : Client.Client) (s : Server) (q : ℕ)
    → IsValid s
    → a.opens ≡ some q
    → a.sends ≡ true
    → a.closes ≡ true
    → length (registered s) ≡ max_clients
    → c.priv_open ≡ true
    → (t : Server) × (reply : Message) × (c' : Client.Client) × (dispatch_request a
          (registration r content)
          s
        ≡ goes_on t)
      × (t.sent ≡ (q, reply) ∷ s.sent)
      × (register_client (replied r reply) content c ≡ Client.exits c')
      × ((close_queue (replied r reply) junk c').sent ≡ registration r content ∷ c.sent)
unfolding register_client exchange close_queue
refused-session a r content junk c s q v opens sends closes full is_open =
    let (t, reply, e, _, sent, _, reads) =
      register_refuses a (registration r content) s q v refl opens sends closes full in
    let c' : Client.Client = record (sending (registration r content) c) {
      session_num = negsuc 0;
    } in
    (
      t,
      reply,
      c',
      e,
      sent,
      read_session-refused reply (sending (registration r content) c) reads,
      rw is_open refl,
    )
