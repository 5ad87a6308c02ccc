-- ===== src/Server/Requests.antt =====
-- What each request does to the list of registered clients, and which replies it sends.
use mathlib.Core.Path.{subst}
use op_sys.Common.{
  ℕ, suc, ◌-◌, ◌<◌, ◌≡◌, refl, ap, sym, ◌∙◌, inl, inr, true, Option, none, some, List, [], ◌∷◌,
  ◌++◌, arith, ◌==◌, length, set, get_or, take-set, length-shift, length-set, shift, if_cases,
  Option-cases, length-take, pos, negsuc, print_int, scan_int, scan-print_pos, scan-print_minus_one,
}
use op_sys.Protocol.{Message, max_clients, register, quit}
use op_sys.Server.{
  Entry, no_entry, Server, Answers, Outcome, goes_on, send, close, refuse, admit, session_reply,
  handle_register, handle_mirror, handle_time, handle_end, find_client, drop_client, handle_quit,
  dispatch_request,
}
use op_sys.Server.Table.{
  registered, lookup_qid, remove_first, IsValid, final, shift-remove_first, find_client-none,
  find_client-le, find_client-absent, find_client-qid,
}

send-final :
    (a : Answers) (q : ℕ) (m : Message) (s : Server)
    → ((final (send a q m s)).clients_data ≡ s.clients_data)
      × ((final (send a q m s)).client_count ≡ s.client_count)
unfolding send
send-final a q m s = ground arith

refuse-IsValid :
    (a : Answers) (q : ℕ) (msg : Message) (s : Server)
    → IsValid s
    → IsValid (final (refuse a q msg s))
unfolding refuse send close
refuse-IsValid a q msg s v = ground arith

admit-IsValid :
    (a : Answers) (q : ℕ) (msg : Message) (s : Server)
    → s.client_count < max_clients
    → IsValid s
    → IsValid (final (admit a q msg s))
unfolding admit send
admit-IsValid a q msg s room v =
    ground
      (arith, length-set s.clients_data s.client_count (record { pid = msg.sender_pid; qid = q }))

handle_register-IsValid :
    (a : Answers) (msg : Message) (s : Server)
    → IsValid s
    → IsValid (final (handle_register a msg s))
unfolding handle_register
handle_register-IsValid a msg s v = elim (Option-cases a.opens) [
  | inl closed ↦ ground arith
  | inr (q, open_) ↦ ground (arith, refuse-IsValid a q msg s v, admit-IsValid a q msg s)
]

handle_mirror-IsValid :
    (a : Answers) (msg : Message) (s : Server) → IsValid s → IsValid (final (handle_mirror a msg s))
unfolding handle_mirror send
handle_mirror-IsValid a msg s v = ground arith

handle_time-IsValid :
    (a : Answers) (msg : Message) (s : Server) → IsValid s → IsValid (final (handle_time a msg s))
unfolding handle_time send
handle_time-IsValid a msg s v = ground arith

drop_client-IsValid :
    (a : Answers) (i : ℕ) (s : Server) → IsValid s → IsValid (final (drop_client a i s))
unfolding drop_client close
drop_client-IsValid a i s v =
    ground (arith, length-shift no_entry (s.client_count - 1 - i) i s.clients_data)

handle_quit-IsValid :
    (a : Answers) (msg : Message) (s : Server) → IsValid s → IsValid (final (handle_quit a msg s))
unfolding handle_quit
handle_quit-IsValid a msg s v =
    ground
      (arith, drop_client-IsValid a (find_client s.client_count s.clients_data msg.sender_pid) s v)

-- No request, answered or failed, makes the table larger than its array.
pub dispatch-IsValid :
    (a : Answers) (msg : Message) (s : Server)
    → IsValid s
    → IsValid (final (dispatch_request a msg s))
unfolding dispatch_request handle_end
dispatch-IsValid a msg s v = ground (
  arith,
  handle_register-IsValid a msg s v,
  handle_mirror-IsValid a msg s v,
  handle_time-IsValid a msg s v,
  handle_quit-IsValid a msg s v,
)

length-registered : (s : Server) → IsValid s → length (registered s) ≡ s.client_count
length-registered s v = omega (arith, length-take s.client_count s.clients_data)

-- With room in the table, and where the calls of the system succeed, a registration adds the client behind the others, and answers with a text that
-- `sscanf` reads as the number of clients that were there before.
pub register_admits :
    (a : Answers) (msg : Message) (s : Server) (q : ℕ)
    → IsValid s
    → msg.type ≡ register
    → a.opens ≡ some q
    → a.sends ≡ true
    → length (registered s) < max_clients
    → (t : Server) × (reply : Message) × (dispatch_request a msg s ≡ goes_on t)
      × (registered t ≡ registered s ++ record { pid = msg.sender_pid; qid = q } ∷ [])
      × (t.sent ≡ (q, reply) ∷ s.sent)
      × (scan_int reply.content ≡ some (pos (length (registered s))))
unfolding dispatch_request handle_register admit send
register_admits a msg s q v kind open_ sends room = (
  record s {
    clients_data = set s.clients_data s.client_count (record { pid = msg.sender_pid; qid = q });
    client_count = suc s.client_count;
    sent = (q, reply) ∷ s.sent;
  },
  reply,
  ground (arith, length-registered s v),
  take-set s.client_count s.clients_data _ (omega (arith, length-registered s v)),
  refl,
  scan-print_pos s.client_count msg.content ∙ ap (λ n. some (pos n)) (sym (length-registered s v)),
)
  where
    reply : Message
    reply = session_reply a (print_int (pos s.client_count)) msg

-- With a full table, and where the calls of the system succeed, the registration is answered by a text that `sscanf` reads as -1; the queue of the
-- client is closed again, and the table stays as it is.
pub register_refuses :
    (a : Answers) (msg : Message) (s : Server) (q : ℕ)
    → IsValid s
    → msg.type ≡ register
    → a.opens ≡ some q
    → a.sends ≡ true
    → a.closes ≡ true
    → length (registered s) ≡ max_clients
    → (t : Server) × (reply : Message) × (dispatch_request a msg s ≡ goes_on t)
      × (registered t ≡ registered s)
      × (t.sent ≡ (q, reply) ∷ s.sent)
      × (t.closed ≡ q ∷ s.closed)
      × (scan_int reply.content ≡ some (negsuc 0))
unfolding dispatch_request handle_register refuse send close
register_refuses a msg s q v kind open_ sends closes full = (
  record s { sent = (q, reply) ∷ s.sent; closed = q ∷ s.closed },
  reply,
  ground (arith, length-registered s v),
  refl,
  refl,
  refl,
  scan-print_minus_one msg.content,
)
  where
    reply : Message
    reply = session_reply a (print_int (negsuc 0)) msg

-- The queues that are closed when the one of a client goes.
abbrev pub with_closed : Option ℕ → List ℕ → List ℕ
with_closed none closed = closed
with_closed (some q) closed = q ∷ closed

-- The state after the client `p` is gone.
abbrev pub Leaves : ℕ → Server → Outcome → Type 0
Leaves p s o =
    (t : Server) × (o ≡ goes_on t)
    × (registered t ≡ remove_first p (registered s))
    × (t.sent ≡ s.sent)
    × (t.closed ≡ with_closed (lookup_qid p (registered s)) s.closed)

drop_client-Leaves :
    (a : Answers) (p : ℕ) (s : Server)
    → IsValid s
    → a.closes ≡ true
    → find_client s.client_count s.clients_data p < s.client_count
    → Leaves p s (drop_client a (find_client s.client_count s.clients_data p) s)
unfolding drop_client close
drop_client-Leaves a p s v closes found = (
  record s {
    clients_data = shift no_entry (s.client_count - 1 - i) i s.clients_data;
    client_count = s.client_count - 1;
    closed = (get_or s.clients_data i no_entry).qid ∷ s.closed;
  },
  rw closes,
  shift-remove_first s.client_count s.clients_data p (omega (arith, v)) found,
  refl,
  rw (find_client-qid s.client_count s.clients_data p found (omega (arith, v))),
)
  where
    i : ℕ
    i = find_client s.client_count s.clients_data p

handle_quit-Leaves :
    (a : Answers) (msg : Message) (s : Server)
    → IsValid s
    → a.closes ≡ true
    → Leaves msg.sender_pid s (handle_quit a msg s)
unfolding handle_quit
handle_quit-Leaves a msg s v closes =
    if_cases (Leaves p s) (i == s.client_count)
      (λ absent. (
        s,
        refl,
        sym (find_client-absent n es p (omega (arith, v)) (ground arith)),
        refl,
        rw (find_client-none n es p (omega (arith, v)) (ground arith)),
      ))
      (λ present. drop_client-Leaves a p s v closes (ground (arith, find_client-le n es p)))
  where
    p : ℕ
    p = msg.sender_pid

    n : ℕ
    n = s.client_count

    es : List Entry
    es = s.clients_data

    i : ℕ
    i = find_client n es p

dispatch-quit :
    (a : Answers) (msg : Message) (s : Server)
    → msg.type ≡ quit
    → dispatch_request a msg s ≡ handle_quit a msg s
unfolding dispatch_request
dispatch-quit a msg s kind = ground arith

-- A client that quits, where `mq_close` succeeds: its queue is closed, its first entry is taken out,
-- and the others keep their order. For a client that is not registered nothing happens.
pub quit_removes :
    (a : Answers) (msg : Message) (s : Server)
    → IsValid s
    → msg.type ≡ quit
    → a.closes ≡ true
    → Leaves msg.sender_pid s (dispatch_request a msg s)
quit_removes a msg s v kind closes =
    subst (Leaves msg.sender_pid s) (sym (dispatch-quit a msg s kind))
      (handle_quit-Leaves a msg s v closes)
