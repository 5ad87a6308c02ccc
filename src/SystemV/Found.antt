-- ===== src/SystemV/Found.antt =====
-- The queue of a client that is in the table is found for ever, whatever messages come.
use op_sys.Common.{
  ℕ, zero, suc, ◌≤◌, ◌≡◌, ◌≢◌, ◌∙◌, refl, ap, none, some, List, [], ◌∷◌, get_or, set, arith,
}
use op_sys.Protocol.{Message}
use op_sys.Server.{Entry, no_entry}
use op_sys.SystemV.{
  Server, Answers, Outcome, goes_on, exits, get_qid, dispatch_requests, Status, serve, next,
}
use op_sys.SystemV.Table.{
  IsValid, final, stands, Leaves, same, one_more, dispatch-Leaves, dispatch-IsValid, idle-stands,
}

no_client-get_qid :
    (p : ℕ) (es : List Entry)
    → p ≢ 0
    → ((j : ℕ) → get_or es j no_entry ≡ no_entry)
    → get_qid p es ≡ none
unfolding get_qid
no_client-get_qid p [] ne h = refl
no_client-get_qid p (x ∷ es) ne h = ground (arith, h 0, no_client-get_qid p es ne (λ j. h (suc j)))

get_qid-set_behind :
    (p q i : ℕ) (es : List Entry) (e : Entry)
    → p ≢ 0
    → ((j : ℕ) → i ≤ j → get_or es j no_entry ≡ no_entry)
    → get_qid p es ≡ some q
    → get_qid p (set es i e) ≡ some q
unfolding get_qid
get_qid-set_behind p q i [] e ne h f = f
get_qid-set_behind p q zero (x ∷ es) e ne h f =
    ground (arith, no_client-get_qid p (x ∷ es) ne (λ j. h j (omega arith)), f)
get_qid-set_behind p q (suc i) (x ∷ es) e ne h f =
    ground (arith, get_qid-set_behind p q i es e ne (λ j l. h (suc j) (omega (arith, l))), f)

-- The table is valid, and finds the queue.
abbrev Finds : ℕ → ℕ → Server → Type 0
Finds p q s = IsValid s × (get_qid p s.clients_data ≡ some q)

Leaves-found :
    (p q : ℕ) (s t : Server) → p ≢ 0 → Finds p q s → Leaves s t → get_qid p t.clients_data ≡ some q
Leaves-found p q s t ne h (same e f) = ap (get_qid p) e ∙ h.1
Leaves-found p q s t ne h (one_more e l f g) =
    ap (get_qid p) f ∙ get_qid-set_behind p q s.client_count s.clients_data e ne h.0.unused h.1

next-found :
    (p q : ℕ) (o : Outcome) (rest : Server → Status)
    → Finds p q (final o)
    → ((t : Server) → Finds p q t → get_qid p (stands (rest t)).clients_data ≡ some q)
    → get_qid p (stands (next o rest)).clients_data ≡ some q
next-found p q (goes_on t) rest h k = k t h
next-found p q (exits t) rest h k = h.1

pub serve-found :
    (p q : ℕ) (queue : List (Answers × Message)) (s : Server)
    → p ≢ 0
    → IsValid s
    → get_qid p s.clients_data ≡ some q
    → get_qid p (stands (serve queue s)).clients_data ≡ some q
unfolding serve
serve-found p q [] s ne v f = rw (idle-stands s) f
serve-found p q ((a, msg) ∷ queue) s ne v f =
    next-found p q (dispatch_requests a msg s) (serve queue)
      (
        dispatch-IsValid a msg s v,
        Leaves-found p q s (final (dispatch_requests a msg s)) ne (v, f) (dispatch-Leaves a msg s),
      )
      (λ t h. serve-found p q queue t ne h.0 h.1)
