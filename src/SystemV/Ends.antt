-- ===== src/SystemV/Ends.antt =====
-- What ends a client: the word "quit", where no call fails.
use op_sys.Common.{
  ℕ, ◌≡◌, ◌∙◌, refl, ap, sym, Bool, true, false, ◌||◌, ◌++◌, ◌⊎◌, Option, none, some, List, [], ◌∷◌,
  ℤ, pos, arith, Bool-cases, write_string, inl, inr,
}
use op_sys.Records.Program.{str_eq}
use op_sys.Protocol.{Message, mirror, time, end}
use op_sys.SystemV.Client.{
  Replies, Client, Outcome, sending, goes_on, exits, ◌>>=◌, send, receive, register_client,
  print_reply, print_time, request_mirror, mirror_line, request_time, request_end, Request,
  ask_mirror, ask_time, ask_end, ask_quit, ask_unknown, request_of, chomp, perform, turn, Status,
  running, ended, after, session, Setup, new_client, first_message, open_queues, registered_session,
  main_with, main,
}

abbrev pub Succeeds : Replies → Type 0
Succeeds r = (r.sends ≡ true) × ((reply : Message) × (r.receives ≡ some reply))

abbrev pub AllSucceed : List (Option (List ℕ) × Replies) → Type 0
AllSucceed [] = Unit
AllSucceed ((request, r) ∷ input) = Succeeds r × AllSucceed input

abbrev pub is_quit : Request → Bool
is_quit ask_quit = true
is_quit _ = false

abbrev quit_word : List ℕ
quit_word = b'q' ∷ b'u' ∷ b'i' ∷ b't' ∷ []

-- The line "quit", with its newline or without.
abbrev pub IsQuitLine : Option (List ℕ) → Type 0
IsQuitLine line =
    (line ≡ some (b'q' ∷ b'u' ∷ b'i' ∷ b't' ∷ []))
    ⊎ (line ≡ some (b'q' ∷ b'u' ∷ b'i' ∷ b't' ∷ 10 ∷ []))

abbrev pub HasQuit : List (Option (List ℕ) × Replies) → Type 0
HasQuit [] = ⊥
HasQuit ((line, r) ∷ input) = IsQuitLine line ⊎ HasQuit input

request-quit : (x : List ℕ) → is_quit (request_of x) ≡ str_eq x quit_word
unfolding request_of
request-quit [] = refl
request-quit (a ∷ []) = ground arith
request-quit (a ∷ b ∷ []) = ground arith
request-quit (a ∷ b ∷ c ∷ []) = ground arith
request-quit (a ∷ b ∷ c ∷ d ∷ []) = ground arith
request-quit (a ∷ b ∷ c ∷ d ∷ e ∷ x) = ground arith

chomp-quit :
    (s : List ℕ)
    → str_eq (chomp s) quit_word ≡ (str_eq s quit_word || str_eq s (quit_word ++ 10 ∷ []))
unfolding chomp
chomp-quit [] = refl
chomp-quit (a ∷ []) = ground arith
chomp-quit (a ∷ b ∷ []) = ground arith
chomp-quit (a ∷ b ∷ c ∷ []) = ground arith
chomp-quit (a ∷ b ∷ c ∷ d ∷ []) = ground arith
chomp-quit (a ∷ b ∷ c ∷ d ∷ e ∷ []) = ground arith
chomp-quit (a ∷ b ∷ c ∷ d ∷ e ∷ f ∷ []) = ground arith
chomp-quit (a ∷ b ∷ c ∷ d ∷ e ∷ f ∷ g ∷ x) = ground arith

str_eq-≡ : (a b : List ℕ) → str_eq a b ≡ true → a ≡ b
str_eq-≡ [] [] e = refl
str_eq-≡ [] (y ∷ b) e = cc
str_eq-≡ (x ∷ a) [] e = cc
str_eq-≡ (x ∷ a) (y ∷ b) e = ground (arith, str_eq-≡ a b)

perform_quit :
    (k : Request) (r : Replies) (c : Client) (msg : Message)
    → is_quit k ≡ true
    → perform k r c msg ≡ exits (pos 0) c
perform_quit ask_quit r c msg e = refl
perform_quit ask_mirror r c msg e = cc
perform_quit ask_time r c msg e = cc
perform_quit ask_end r c msg e = cc
perform_quit ask_unknown r c msg e = cc

exchanged :
    (r : Replies) (msg : Message) (c : Client) (h : Succeeds r)
    → (send r msg c >>= receive r) ≡ goes_on (sending msg c) h.1.0
unfolding send receive
exchanged r msg c h = ground (arith, h.0, h.1.1)

exchanged_then :
    (r : Replies) (msg : Message) (c : Client) (f : Client → Message → Outcome) (h : Succeeds r)
    → (send r msg c >>= receive r >>= f) ≡ f (sending msg c) h.1.0
exchanged_then r msg c f h = ap (λ o. o >>= f) (exchanged r msg c h)

mirror_line_goes_on :
    (r : Replies) (c : Client) (msg : Message) (line : Option (List ℕ))
    → Succeeds r
    → (c' : Client) × (msg' : Message) × (mirror_line r c msg line ≡ goes_on c' msg')
mirror_line_goes_on r c msg none h = (c, _, refl)
mirror_line_goes_on r c msg (some text) h = (
  _,
  _,
  exchanged_then r (record msg { type = mirror; content = write_string text msg.content }) c
      print_reply h,
)

sent :
    (r : Replies) (msg : Message) (c : Client)
    → Succeeds r
    → send r msg c ≡ goes_on (sending msg c) msg
unfolding send
sent r msg c h = ground (arith, h.0)

perform_goes_on :
    (k : Request) (r : Replies) (c : Client) (msg : Message)
    → Succeeds r
    → is_quit k ≡ false
    → (c' : Client) × (msg' : Message) × (perform k r c msg ≡ goes_on c' msg')
unfolding request_mirror request_time request_end
perform_goes_on ask_mirror r c msg h e = mirror_line_goes_on r c msg r.line h
perform_goes_on ask_time r c msg h e =
    (_, _, exchanged_then r (record msg { type = time }) c print_time h)
perform_goes_on ask_end r c msg h e = (
  sending (record msg { type = end }) c,
  record msg { type = end },
  sent r (record msg { type = end }) c h,
)
perform_goes_on ask_quit r c msg h e = absurd (cc)
perform_goes_on ask_unknown r c msg h e = (c, msg, refl)

IsQuitLine-true :
    (s : List ℕ)
    → (str_eq s quit_word || str_eq s (quit_word ++ 10 ∷ [])) ≡ true
    → IsQuitLine (some s)
IsQuitLine-true s e = elim (Bool-cases (str_eq s quit_word)) [
  | inl bare ↦ inl (ap some (str_eq-≡ s quit_word bare))
  | inr other ↦ inr (ap some (str_eq-≡ s (quit_word ++ 10 ∷ []) (ground (arith, e, other))))
]

IsQuitLine-false :
    (s : List ℕ)
    → (str_eq s quit_word || str_eq s (quit_word ++ 10 ∷ [])) ≡ false
    → ¬ IsQuitLine (some s)
IsQuitLine-false s e q = ground (arith, e, q)

-- What one turn does where no call fails.
turn_ends :
    (pid : ℕ) (line : Option (List ℕ)) (r : Replies) (c : Client) (msg : Message)
    → Succeeds r
    → (IsQuitLine line × (turn pid line r c msg ≡ exits (pos 0) c))
      ⊎ ((¬ IsQuitLine line)
          × ((c' : Client) × (msg' : Message) × (turn pid line r c msg ≡ goes_on c' msg')))
unfolding turn
turn_ends pid none r c msg h =
    inr ((λ q. ground (arith, q)), (c, record msg { sender_pid = pid }, refl))
turn_ends pid (some s) r c msg h =
    let k = request_of (chomp s) in
    let mine : Message = record msg { sender_pid = pid } in
    let word = request-quit (chomp s) ∙ chomp-quit s in
    elim (Bool-cases (is_quit k)) [
      | inl quits ↦ inl (IsQuitLine-true s (sym word ∙ quits), perform_quit k r c mine quits)
      | inr stays ↦
          inr ((IsQuitLine-false s (sym word ∙ stays)), perform_goes_on k r c mine h stays)
    ]

-- What the loop has come to after its turns, where no call fails.
abbrev pub Comes : List (Option (List ℕ) × Replies) → Status → Type 0
Comes input st =
    (HasQuit input × ((c : Client) × (st ≡ ended (pos 0) c)))
    ⊎ ((¬ HasQuit input) × ((c : Client) × (msg : Message) × (st ≡ running c msg)))

session-Comes :
    (pid : ℕ) (input : List (Option (List ℕ) × Replies)) (c : Client) (msg : Message)
    → AllSucceed input
    → Comes input (session pid input c msg)
unfolding session
session-Comes pid [] c msg h = inr ((λ q. q), (c, msg, refl))
session-Comes pid ((line, r) ∷ input) c msg h = elim (turn_ends pid line r c msg h.0) [
  | inl (quits, e) ↦ inl (inl quits, (c, ap (λ o. after o (session pid input)) e))
  | inr (stays, (c', msg', e)) ↦
      rw (ap (λ o. after o (session pid input)) e) (elim (session-Comes pid input c' msg' h.1) [
        | inl (later, (d, f)) ↦ inl (inr later, (d, f))
        | inr (never, (d, m, f)) ↦
            inr ((λ q. elim q [ inl now ↦ stays now | inr later ↦ never later ]), (d, m, f))
      ])
]

registered_main :
    (u : Setup) (r : Replies) (input : List (Option (List ℕ) × Replies)) (key : ℤ) (q : ℕ)
    (c : Client) (reply : Message)
    → open_queues u ≡ some (key, q)
    → register_client r u.pid key u.stack (new_client (some q)) ≡ goes_on c reply
    → main u r input ≡ session u.pid input c (first_message u)
unfolding main registered_session
registered_main u r input key q c reply opened registered =
    ap (main_with u r input) opened
    ∙ ap (λ x. after x (λ d m. session u.pid input d (first_message u))) registered

-- A client that has registered, and whose calls succeed: after any turns of its loop it has ended with
-- code 0, if one of them read the line "quit", and else the loop goes on, also where the input has ended
-- and `fgets` brings nothing.
pub main-Comes :
    (u : Setup) (r : Replies) (input : List (Option (List ℕ) × Replies)) (key : ℤ) (q : ℕ)
    (c : Client) (reply : Message)
    → AllSucceed input
    → open_queues u ≡ some (key, q)
    → register_client r u.pid key u.stack (new_client (some q)) ≡ goes_on c reply
    → Comes input (main u r input)
main-Comes u r input key q c reply h opened registered =
    rw (registered_main u r input key q c reply opened registered)
      (session-Comes u.pid input c (first_message u) h)
