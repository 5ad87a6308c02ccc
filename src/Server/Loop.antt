-- ===== src/Server/Loop.antt =====
-- The loop of the server's `main`, and that an END request lets it answer everything that waits.
use op_sys.Common.{
  ℕ, ◌≡◌, refl, false, List, [], ◌∷◌, ◌++◌, arith, if◌then◌else◌, length, inl, inr, ◌⊎◌,
}
use op_sys.Protocol.{Message}
use op_sys.Server.{
  Server, Answers, Outcome, goes_on, exits, ◌>>=◌, send, close, refuse, admit, handle_register,
  handle_mirror, handle_time, handle_end, drop_client, handle_quit, dispatch_request,
}
use op_sys.Server.Table.{final}

-- The process with its public queue, the oldest message first. Another process may add to the queue
-- between two rounds.
pub record Daemon : Type 0 where
  pub server : Server
  pub queue : List Message

pub data Status : Type 0 where
  serves : Daemon → Status
  done : Server → Status  -- `exit(0)`
  failed : Server → Status  -- `EXIT_MSG`

-- One round of `while (1)`. With an empty queue an active server waits in `mq_receive`.
unfoldable pub loop_turn : Answers → Daemon → Status
loop_turn a d = elim d.queue [
  | [] ↦ if d.server.active then serves d else done d.server
  | msg ∷ rest ↦ elim (dispatch_request a msg d.server) [
    | goes_on t ↦ serves (record { server = t; queue = rest })
    | exits t ↦ failed t
  ]
]

-- A client's request reaches the public queue.
unfoldable pub arrives : Message → Daemon → Daemon
arrives msg d = record d { queue = d.queue ++ msg ∷ [] }

unfoldable pub run_turns : List Answers → Daemon → Status
run_turns [] d = serves d
run_turns (a ∷ as_) d = elim (loop_turn a d) [
  | serves d' ↦ run_turns as_ d'
  | done t ↦ done t
  | failed t ↦ failed t
]

-- The reference: every message of the queue is handled, in order.
unfoldable pub handle_all : List Answers → List Message → Server → Outcome
handle_all as_ [] s = goes_on s
handle_all [] (msg ∷ rest) s = exits s
handle_all (a ∷ as_) (msg ∷ rest) s = dispatch_request a msg s >>= handle_all as_ rest

send-active :
    (a : Answers) (q : ℕ) (m : Message) (s : Server) → (final (send a q m s)).active ≡ s.active
unfolding send
send-active a q m s = ground arith

register-active :
    (a : Answers) (m : Message) (s : Server) → (final (handle_register a m s)).active ≡ s.active
unfolding handle_register refuse admit send close
register-active a m s = ground arith

mirror-active :
    (a : Answers) (m : Message) (s : Server) → (final (handle_mirror a m s)).active ≡ s.active
unfolding handle_mirror send
mirror-active a m s = ground arith

time-active :
    (a : Answers) (m : Message) (s : Server) → (final (handle_time a m s)).active ≡ s.active
unfolding handle_time send
time-active a m s = ground arith

quit-active :
    (a : Answers) (m : Message) (s : Server) → (final (handle_quit a m s)).active ≡ s.active
unfolding handle_quit drop_client close
quit-active a m s = ground arith

-- No request makes a server active again.
dispatch-inactive :
    (a : Answers) (m : Message) (s : Server)
    → s.active ≡ false
    → (final (dispatch_request a m s)).active ≡ false
unfolding dispatch_request handle_end
dispatch-inactive a m s h =
    ground (arith, register-active a m s, mirror-active a m s, time-active a m s, quit-active a m s)

Outcome-cases : (o : Outcome) → ((u : Server) × (o ≡ goes_on u)) ⊎ ((u : Server) × (o ≡ exits u))
Outcome-cases (goes_on u) = inl (u, refl)
Outcome-cases (exits u) = inr (u, refl)

-- A server that is no longer active, and gets no new messages, handles every message that waits, in
-- order, and then ends with `exit(0)`, if none of them makes it fail.
pub end_drains :
    (as_ : List Answers) (a : Answers) (queue : List Message) (s t : Server)
    → s.active ≡ false
    → length as_ ≡ length queue
    → handle_all as_ queue s ≡ goes_on t
    → run_turns (as_ ++ a ∷ []) (record { server = s; queue = queue }) ≡ done t
unfolding run_turns loop_turn handle_all
end_drains [] a [] s t h n e = ground (arith, h)
end_drains [] a (m ∷ q) s t h n e = absurd (omega arith)
end_drains (b ∷ as_) a [] s t h n e = absurd (omega arith)
end_drains (b ∷ as_) a (m ∷ q) s t h n e = elim (Outcome-cases (dispatch_request b m s)) [
  | inl (u, eq) ↦ ground (arith, eq, dispatch-inactive b m s h, end_drains as_ a q u t)
  | inr (u, eq) ↦ ground (arith, eq)
]
