-- ===== src/Server/Replies.antt =====
-- Which replies the server sends, and to whom.
use op_sys.Server.Requests.{quit_removes}
use op_sys.Common.{
  ◌∙◌, ap, sym, ℕ, ◌≡◌, ◌≢◌, refl, true, none, some, List, [], ◌∷◌, ◌++◌, arith, ◌⊎◌, reverse,
}
use op_sys.Protocol.{Message, mirror, time, quit}
use op_sys.Server.{
  Entry, Server, Answers, get_qid, goes_on, send, create_msg, handle_mirror, handle_time,
  dispatch_request, mirror_content,
}
use op_sys.Server.Table.{IsValid, registered, lookup_qid, remove_first, get_qid-lookup}
use op_sys.Server.Lines.{IsLine, mirrored}

-- A message for the client `p`, sent to the queue that it registered.
abbrev pub reply_to : Answers → ℕ → List ℕ → Message
reply_to a p text = record { type = p; sender_pid = a.pid; content = text }

create_msg_lem :
    (a : Answers) (msg : Message) (s : Server) (q : ℕ)
    → lookup_qid msg.sender_pid (registered s) ≡ some q
    → create_msg a msg s ≡ some (q, reply_to a msg.sender_pid msg.content)
unfolding create_msg
create_msg_lem a msg s q e = ground (arith, get_qid-lookup msg.sender_pid s)

-- A MIRROR request of a registered client is answered once, where `mq_send` succeeds, to the queue of
-- the client's first entry: its text is a line without zeros and newlines, ended by a 0 or by a newline
-- and a 0, and the reply has that line in reverse order, with what follows it in its place.
pub mirror_replies :
    (a : Answers) (msg : Message) (s : Server) (q : ℕ) (line tail rest : List ℕ)
    → msg.type ≡ mirror
    → a.sends ≡ true
    → lookup_qid msg.sender_pid (registered s) ≡ some q
    → msg.content ≡ line ++ tail
    → IsLine line
    → (tail ≡ 10 ∷ 0 ∷ rest) ⊎ (tail ≡ 0 ∷ rest)
    → dispatch_request a msg s
      ≡ goes_on (record s { sent = (q, reply_to a msg.sender_pid (reverse line ++ tail)) ∷ s.sent })
unfolding dispatch_request handle_mirror send
mirror_replies a msg s q line tail rest kind sends known text clean ended =
    let reversed : mirror_content msg.content ≡ reverse line ++ tail =
      ap mirror_content text ∙ mirrored line tail rest clean ended in
    ground (arith, create_msg_lem a msg s q known, reversed)

-- A client that is not registered gets no reply to MIRROR and TIME requests, and changes nothing.
unregistered_ignored :
    (a : Answers) (msg : Message) (s : Server)
    → (msg.type ≡ mirror) ⊎ (msg.type ≡ time)
    → lookup_qid msg.sender_pid (registered s) ≡ none
    → dispatch_request a msg s ≡ goes_on s
unfolding dispatch_request handle_mirror handle_time create_msg
unregistered_ignored a msg s kind unknown = ground (arith, get_qid-lookup msg.sender_pid s)

-- Each client has one entry.
abbrev pub IsAbsent : ℕ → List Entry → Type 0
IsAbsent p [] = Unit
IsAbsent p (e ∷ es) = (e.pid ≢ p) × IsAbsent p es

abbrev pub AreDistinct : List Entry → Type 0
AreDistinct [] = Unit
AreDistinct (e ∷ es) = IsAbsent e.pid es × AreDistinct es

absent-lookup : (p : ℕ) (es : List Entry) → IsAbsent p es → lookup_qid p es ≡ none
absent-lookup p [] h = refl
absent-lookup p (e ∷ es) h = ground (arith, absent-lookup p es h.1)

-- When a client has left, the server finds no queue for it any more, if the clients' entries were
-- distinct; the queues of the other clients are found as before, whether they were or not.
lookup-remove_first :
    (p q : ℕ) (es : List Entry)
    → (AreDistinct es → lookup_qid p (remove_first p es) ≡ none)
      × (p ≢ q → lookup_qid q (remove_first p es) ≡ lookup_qid q es)
lookup-remove_first p q [] = (λ d. refl, λ ne. refl)
lookup-remove_first p q (e ∷ es) = (
  λ d. ground (arith, absent-lookup e.pid es d.0, (lookup-remove_first p q es).0 d.1),
  λ ne. ground (arith, (lookup-remove_first p q es).1 ne),
)

-- When a client has quit and `mq_close` has succeeded, the server finds no queue for it any more, if each registered client had one
-- entry; the queues of all other clients are found as before, whether they had or not.
quit_forgets :
    (a : Answers) (msg : Message) (s : Server)
    → IsValid s
    → msg.type ≡ quit
    → a.closes ≡ true
    → (t : Server) × (dispatch_request a msg s ≡ goes_on t)
      × (AreDistinct (registered s) → get_qid msg.sender_pid t ≡ none)
      × ((p : ℕ) → msg.sender_pid ≢ p → get_qid p t ≡ get_qid p s)
quit_forgets a msg s v kind closes =
    let (t, e, gone, _, _) = quit_removes a msg s v kind closes in
    let own = msg.sender_pid in
    (
      t,
      e,
      λ d.
          get_qid-lookup own t
          ∙ ap (lookup_qid own) gone
          ∙ (lookup-remove_first own own (registered s)).0 d,
      λ p ne.
          get_qid-lookup p t
          ∙ ap (lookup_qid p) gone
          ∙ (lookup-remove_first own p (registered s)).1 ne
          ∙ sym (get_qid-lookup p s),
    )
