-- ===== src/SystemV/Registered.antt =====
-- What a registration does, and what the client can do afterwards.
use op_sys.Common.{
  ℕ, zero, suc, ◌<◌, ◌≡◌, ◌≢◌, ◌∙◌, refl, ap, sym, true, none, some, List, [], ◌∷◌, pos, negsuc,
  length, get_or, set, arith, scan_int, print_int, scan-print_pos, scan-print_minus_one,
}
use op_sys.Protocol.{Message, max_clients, register}
use op_sys.Server.{Entry, no_entry}
use op_sys.SystemV.{
  Server, Answers, goes_on, read_key, open_key, session_reply, enter, get_qid, dispatch_requests,
  waits, serve,
}
use op_sys.SystemV.Table.{IsValid, stands, serve-full, one_more, Leaves-IsValid}
use op_sys.SystemV.Found.{serve-found}

get_qid-set :
    (p q i : ℕ) (es : List Entry)
    → i < length es
    → get_qid p es ≡ none
    → get_qid p (set es i (record { pid = p; qid = q })) ≡ some q
unfolding get_qid
get_qid-set p q i [] h e = absurd (omega arith)
get_qid-set p q zero (x ∷ es) h e = ground arith
get_qid-set p q (suc i) (x ∷ es) h e = ground (arith, get_qid-set p q i es)

get_qid-set_other :
    (p p' q i : ℕ) (es : List Entry)
    → get_or es i no_entry ≡ no_entry
    → p ≢ 0
    → p ≢ p'
    → get_qid p (set es i (record { pid = p'; qid = q })) ≡ get_qid p es
unfolding get_qid
get_qid-set_other p p' q i [] h e ne = refl
get_qid-set_other p p' q zero (x ∷ es) h e ne = ground (arith, h)
get_qid-set_other p p' q (suc i) (x ∷ es) h e ne = ground (arith, get_qid-set_other p p' q i es)

-- With room in the table, and where the calls of the system succeed: a client that is not in the table
-- is told how many clients there were before it and counted; its queue is found from then on, whatever
-- messages the server handles; what is found for other clients stays. Process 0 is no client.
pub register_enters :
    (a : Answers) (msg : Message) (s : Server) (q : ℕ)
    → IsValid s
    → msg.type ≡ register
    → open_key a (read_key a.unset_key msg.content) ≡ some q
    → a.sends ≡ true
    → s.client_count < max_clients
    → get_qid msg.sender_pid s.clients_data ≡ none
    → msg.sender_pid ≢ 0
    → (t : Server) × (reply : Message) × (dispatch_requests a msg s ≡ goes_on t)
      × (t.sent ≡ (q, reply) ∷ s.sent)
      × (scan_int reply.content ≡ some (pos s.client_count))
      × (t.client_count ≡ suc s.client_count)
      × ((queue : List (Answers × Message))
          → get_qid msg.sender_pid (stands (serve queue t)).clients_data ≡ some q)
      × ((p : ℕ) → p ≢ 0 → p ≢ msg.sender_pid → get_qid p t.clients_data ≡ get_qid p s.clients_data)
unfolding dispatch_requests enter
register_enters a msg s q v kind opened sends room absent real =
    let reply = session_reply a (print_int (pos s.client_count)) msg in
    let new : Entry = record { pid = msg.sender_pid; qid = q } in
    let t : Server = record s {
      clients_data = set s.clients_data s.client_count new;
      client_count = suc s.client_count;
      sent = (q, reply) ∷ s.sent;
    } in
    (
      t,
      reply,
      ground (arith, opened),
      refl,
      scan-print_pos s.client_count msg.content,
      refl,
      λ queue.
          serve-found msg.sender_pid q queue t real
            (Leaves-IsValid s t (one_more new room refl refl) v)
            (get_qid-set msg.sender_pid q s.client_count s.clients_data (omega (arith, v.cells))
              absent),
      λ p h h'.
          get_qid-set_other p msg.sender_pid q s.client_count s.clients_data
            (v.unused s.client_count (omega arith)) h h',
    )

-- Once five clients have registered, every later registration that is answered is answered by -1, and
-- the table stays as it is, whatever messages come in between.
full_for_ever :
    (a : Answers) (msg : Message) (queue : List (Answers × Message)) (s s' : Server) (q : ℕ)
    → s.client_count ≡ max_clients
    → serve queue s ≡ waits s'
    → msg.type ≡ register
    → open_key a (read_key a.unset_key msg.content) ≡ some q
    → a.sends ≡ true
    → (reply : Message) × (dispatch_requests a msg s'
        ≡ goes_on (record s' { sent = (q, reply) ∷ s'.sent }))
      × (scan_int reply.content ≡ some (negsuc 0))
      × (s'.clients_data ≡ s.clients_data)
unfolding dispatch_requests enter
full_for_ever a msg queue s s' q full served kind opened sends =
    let kept = serve-full queue s full in
    let still = ap (λ st. (stands st).client_count) (sym served) ∙ kept.1 in
    (
      session_reply a (print_int (negsuc 0)) msg,
      ground (arith, opened, still),
      scan-print_minus_one msg.content,
      ap (λ st. (stands st).clients_data) (sym served) ∙ kept.0,
    )
