-- ===== src/SystemV/Session.antt =====
-- A client and the server together: a text is sent and comes back in reverse order.
use mathlib.Core.List.{append_assoc, reverse-cons}
use op_sys.Common.{
  ◌+◌, length-append, ℕ, suc, ◌≡◌, ◌≢◌, ◌∙◌, refl, ap, sym, true, some, List, [], ◌∷◌, ◌++◌, length,
  take, drop, reverse, arith, write_string, take_front,
}
use op_sys.Protocol.{Message, mirror}
use op_sys.Server.{mirror_content}
use op_sys.Server.Lines.{HasNoZero, strlen_line, mirrored_line}
use op_sys.SystemV.{Server, Answers, goes_on, send, get_qid, dispatch_requests}
use op_sys.SystemV.Client
use op_sys.SystemV.Client.{Replies, request_mirror, sending, printing, text_of}

-- What the server makes of a line in the array of a message.
mirrored_text :
    (line content : List ℕ)
    → HasNoZero line
    → mirror_content (write_string (line ++ 10 ∷ []) content)
      ≡ reverse line ++ (10 ∷ 0 ∷ drop (length line + 2) content)
unfolding write_string
mirrored_text line content h =
    let places : suc (length (line ++ 10 ∷ [])) ≡ length line + 2 =
      omega (arith, length-append line (10 ∷ [])) in
    ap mirror_content
      (append_assoc line (10 ∷ []) (0 ∷ drop (suc (length (line ++ 10 ∷ []))) content))
    ∙ mirrored_line line (drop (suc (length (line ++ 10 ∷ []))) content) h
    ∙ ap (λ n. reverse line ++ (10 ∷ 0 ∷ drop n content)) places

reverse-HasNoZero : (line : List ℕ) → HasNoZero line → HasNoZero (reverse line)
reverse-HasNoZero [] h = tt
reverse-HasNoZero (x ∷ line) h =
    rw (reverse-cons x line) (append-HasNoZero (reverse line) x (reverse-HasNoZero line h.1) h.0)
  where
    append-HasNoZero : (xs : List ℕ) (c : ℕ) → HasNoZero xs → c ≢ 0 → HasNoZero (xs ++ c ∷ [])
    append-HasNoZero [] c k d = (d, tt)
    append-HasNoZero (y ∷ xs) c k d = (k.0, append-HasNoZero xs c k.1 d)

-- What `printf` prints of a line and its newline in an array.
text_of-line :
    (line rest : List ℕ) → HasNoZero line → text_of (line ++ (10 ∷ 0 ∷ rest)) ≡ line ++ 10 ∷ []
text_of-line line rest h =
    ap (λ n. take n (line ++ (10 ∷ 0 ∷ rest))) (strlen_line line rest h)
    ∙ ap (take (suc (length line))) (sym (append_assoc line (10 ∷ []) (0 ∷ rest)))
    ∙ take_front (line ++ 10 ∷ []) (0 ∷ rest) (suc (length line))
        (omega (arith, length-append line (10 ∷ [])))

-- Where the client is in the server's table and the calls succeed: the server answers the client's
-- request by one message to the client's queue, the line in reverse order with its newline and its end in
-- their place, and the client prints that line and the newline.
pub mirror_round :
    (a : Answers) (s : Server) (c : Client.Client) (msg : Message) (line : List ℕ) (q : ℕ)
    → HasNoZero line
    → get_qid msg.sender_pid s.clients_data ≡ some q
    → a.sends ≡ true
    → (request reply : Message) × (t : Server) × (c' : Client.Client) × (dispatch_requests a request
          s
        ≡ goes_on t)
      × (t.sent ≡ (q, reply) ∷ s.sent)
      × (request_mirror
            (record { sends = true; receives = some reply; line = some (line ++ 10 ∷ []) })
            c
            msg
          ≡ Client.goes_on c' reply)
      × (c'.sent ≡ request ∷ c.sent)
      × (reply.content ≡ reverse line ++ (10 ∷ 0 ∷ drop (length line + 2) msg.content))
      × (c'.printed ≡ (reverse line ++ 10 ∷ []) ∷ c.printed)
unfolding dispatch_requests send request_mirror Client.send Client.receive
mirror_round a s c msg line q clean known sends = (
  request,
  reply,
  record s { sent = (q, reply) ∷ s.sent },
  printing (text_of reply.content) (sending request c),
  ground (arith, known, sends),
  refl,
  refl,
  refl,
  mirrored_text line msg.content clean,
  ap (λ t. text_of t ∷ c.printed) (mirrored_text line msg.content clean)
      ∙ ap (λ t. t ∷ c.printed)
          (text_of-line (reverse line) (drop (length line + 2) msg.content)
            (reverse-HasNoZero line clean)),
)
  where
    request : Message
    request = record msg { type = mirror; content = write_string (line ++ 10 ∷ []) msg.content }

    reply : Message
    reply = record {
      type = msg.sender_pid;
      sender_pid = a.pid;
      content = mirror_content request.content;
    }
