-- ===== src/SystemV/Table.antt =====
-- The table of clients: it only grows, and the cells behind the clients are as they were at the start.
use op_sys.Common.{
  ℕ, zero, suc, ◌-◌, ◌≤◌, ◌<◌, ◌≡◌, ◌≢◌, ◌∙◌, refl, ap, List, [], ◌∷◌, ◌==◌, ltb, length,
  length-set, get_or, set, arith, Option-cases, inl, inr, if_cases,
}
use op_sys.Protocol.{Message, max_clients, register, mirror, time, end}
use op_sys.Server.{Entry, no_entry}
use op_sys.SystemV.{
  Server, Answers, Outcome, goes_on, exits, send, read_key, open_key, enter, handle_register,
  create_message, handle_mirror, handle_time, dispatch_requests, Status, waits, returned, failed,
  serve, next, idle, new_server,
}

pub record IsValid (s : Server) : Type 0 where
  pub cells : length s.clients_data ≡ max_clients
  pub bounded : s.client_count ≤ max_clients
  pub unused : (i : ℕ) → s.client_count ≤ i → get_or s.clients_data i no_entry ≡ no_entry

pub new_server-IsValid : IsValid new_server
new_server-IsValid = record { cells = refl; bounded = omega arith; unused = λ i h. all_unused i }
  where
    all_unused : (i : ℕ) → get_or new_server.clients_data i no_entry ≡ no_entry
    all_unused zero = refl
    all_unused (suc zero) = refl
    all_unused (suc (suc zero)) = refl
    all_unused (suc (suc (suc zero))) = refl
    all_unused (suc (suc (suc (suc zero)))) = refl
    all_unused (suc (suc (suc (suc (suc i))))) = refl

-- The server in each outcome.
abbrev pub final : Outcome → Server
final (goes_on s) = s
final (exits s) = s

abbrev pub stands : Status → Server
stands (waits s) = s
stands (returned s) = s
stands (failed s) = s

get_or-set_other :
    (es : List Entry) (i j : ℕ) (e : Entry)
    → i ≢ j
    → get_or (set es i e) j no_entry ≡ get_or es j no_entry
get_or-set_other [] i j e h = refl
get_or-set_other (x ∷ es) zero zero e h = absurd (h refl)
get_or-set_other (x ∷ es) zero (suc j) e h = refl
get_or-set_other (x ∷ es) (suc i) zero e h = refl
get_or-set_other (x ∷ es) (suc i) (suc j) e h = get_or-set_other es i j e (λ p. h (ap suc p))

-- What a message leaves: the table as it was, or with one client more.
pub data Leaves (s t : Server) : Type 0 where
  same : t.clients_data ≡ s.clients_data → t.client_count ≡ s.client_count → Leaves s t
  one_more :
      (e : Entry)
      → s.client_count < max_clients
      → t.clients_data ≡ set s.clients_data s.client_count e
      → t.client_count ≡ suc s.client_count
      → Leaves s t

send-Leaves :
    (a : Answers) (q : ℕ) (msg : Message) (s t : Server)
    → Leaves s t
    → Leaves s (final (send a q msg t))
unfolding send
send-Leaves a q msg s t h = if_cases (λ o. Leaves s (final o)) a.sends (λ _. keeps h) (λ _. h)
  where
    keeps : Leaves s t → Leaves s (record t { sent = (q, msg) ∷ t.sent })
    keeps (same e f) = same e f
    keeps (one_more e l f g) = one_more e l f g

unchanged : (s : Server) → Leaves s s
unchanged s = same refl refl

enter-Leaves :
    (a : Answers) (q : ℕ) (msg : Message) (s : Server) → Leaves s (final (enter a q msg s))
unfolding enter
enter-Leaves a q msg s =
    if_cases (λ o. Leaves s (final o)) (ltb (max_clients - 1) s.client_count)
      (λ _. send-Leaves a q _ s s (unchanged s))
      (λ e. send-Leaves a q _ s _ (one_more _ (ground (arith, e)) refl refl))

register-Leaves :
    (a : Answers) (msg : Message) (s : Server) → Leaves s (final (handle_register a msg s))
unfolding handle_register
register-Leaves a msg s = elim (Option-cases (open_key a (read_key a.unset_key msg.content))) [
  | inl closed ↦ rw (closed, handle_register, final) (unchanged s)
  | inr (q, opened) ↦ rw (opened, handle_register, final) (enter-Leaves a q msg s)
]

mirror-Leaves :
    (a : Answers) (msg : Message) (s : Server) → Leaves s (final (handle_mirror a msg s))
unfolding handle_mirror
mirror-Leaves a msg s = elim (Option-cases (create_message a msg s)) [
  | inl absent ↦ rw (absent, handle_mirror, final) (unchanged s)
  | inr ((q, reply), found) ↦ rw (found, handle_mirror, final) (send-Leaves a q _ s s (unchanged s))
]

time-Leaves : (a : Answers) (msg : Message) (s : Server) → Leaves s (final (handle_time a msg s))
unfolding handle_time
time-Leaves a msg s = elim (Option-cases (create_message a msg s)) [
  | inl absent ↦ rw (absent, handle_time, final) (unchanged s)
  | inr ((q, reply), found) ↦ rw (found, handle_time, final) (send-Leaves a q _ s s (unchanged s))
]

-- No message makes the table smaller.
pub dispatch-Leaves :
    (a : Answers) (msg : Message) (s : Server) → Leaves s (final (dispatch_requests a msg s))
unfolding dispatch_requests
dispatch-Leaves a msg s =
    if_cases (λ o. Leaves s (final o)) (msg.type == register) (λ _. register-Leaves a msg s)
      λ _.
        if_cases (λ o. Leaves s (final o)) (msg.type == mirror) (λ _. mirror-Leaves a msg s)
          λ _.
            if_cases (λ o. Leaves s (final o)) (msg.type == time) (λ _. time-Leaves a msg s)
              λ _.
                if_cases (λ o. Leaves s (final o)) (msg.type == end) (λ _. same refl refl)
                  λ _. unchanged s

pub Leaves-IsValid : (s t : Server) → Leaves s t → IsValid s → IsValid t
Leaves-IsValid s t (same e f) v = record {
  cells = ap length e ∙ v.cells;
  bounded = omega (arith, f, v.bounded);
  unused = λ i h. ap (λ es. get_or es i no_entry) e ∙ v.unused i (omega (arith, f, h));
}
Leaves-IsValid s t (one_more e l f g) v = record {
  cells = ap length f ∙ length-set s.clients_data s.client_count e ∙ v.cells;
  bounded = omega (arith, g, l);
  unused = λ i h.
      ap (λ es. get_or es i no_entry) f
      ∙ get_or-set_other s.clients_data s.client_count i e (omega (arith, g, h))
      ∙ v.unused i (omega (arith, g, h));
}

-- Each state of the server keeps the table valid.
pub dispatch-IsValid :
    (a : Answers) (msg : Message) (s : Server)
    → IsValid s
    → IsValid (final (dispatch_requests a msg s))
dispatch-IsValid a msg s =
    Leaves-IsValid s (final (dispatch_requests a msg s)) (dispatch-Leaves a msg s)

Leaves-full :
    (s t : Server)
    → Leaves s t
    → s.client_count ≡ max_clients
    → (t.clients_data ≡ s.clients_data) × (t.client_count ≡ max_clients)
Leaves-full s t (same e f) full = (e, f ∙ full)
Leaves-full s t (one_more e l f g) full = absurd (omega (arith, l, full))

dispatch-full :
    (a : Answers) (msg : Message) (s : Server)
    → s.client_count ≡ max_clients
    → ((final (dispatch_requests a msg s)).clients_data ≡ s.clients_data)
      × ((final (dispatch_requests a msg s)).client_count ≡ max_clients)
dispatch-full a msg s = Leaves-full s (final (dispatch_requests a msg s)) (dispatch-Leaves a msg s)

pub idle-stands : (s : Server) → stands (idle s) ≡ s
idle-stands s = ground arith

abbrev Full : List Entry → Server → Type 0
Full es t = (t.clients_data ≡ es) × (t.client_count ≡ max_clients)

next-Full :
    (o : Outcome) (rest : Server → Status) (s : Server)
    → Full s.clients_data (final o)
    → ((t : Server) → t.client_count ≡ max_clients → Full t.clients_data (stands (rest t)))
    → Full s.clients_data (stands (next o rest))
next-Full (goes_on t) rest s full k = ((k t full.1).0 ∙ full.0, (k t full.1).1)
next-Full (exits t) rest s full k = full

-- Once the table is full, it stays as it is, whatever messages come.
pub serve-full :
    (queue : List (Answers × Message)) (s : Server)
    → s.client_count ≡ max_clients
    → ((stands (serve queue s)).clients_data ≡ s.clients_data)
      × ((stands (serve queue s)).client_count ≡ max_clients)
unfolding serve
serve-full [] s full = rw (idle-stands s) (refl, full)
serve-full ((a, msg) ∷ queue) s full =
    next-Full (dispatch_requests a msg s) (serve queue) s (dispatch-full a msg s full)
      (serve-full queue)
