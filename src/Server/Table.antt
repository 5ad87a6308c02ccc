-- ===== src/Server/Table.antt =====
-- The server's table as a list of registered clients, in the order of their registrations.
use op_sys.Common.{
  ℕ, zero, suc, ◌+◌, ◌-◌, ◌≤◌, ◌<◌, ◌≡◌, refl, ap, ◌∙◌, inl, inr, Option, none, some, List, [], ◌∷◌,
  arith, ◌==◌, if◌then◌else◌, length, take, get_or, take-shift, shift-cons, shift, Bool-cases,
}
use op_sys.Protocol.{max_clients}
use op_sys.Server.{Entry, no_entry, Server, Outcome, goes_on, exits, find_qid, get_qid, find_client}

abbrev pub registered : Server → List Entry
registered s = take s.client_count s.clients_data

-- The first entry of a client is the one that counts.
abbrev pub lookup_qid : ℕ → List Entry → Option ℕ
lookup_qid p [] = none
lookup_qid p (e ∷ es) = if e.pid == p then some e.qid else lookup_qid p es

abbrev pub remove_first : ℕ → List Entry → List Entry
remove_first p [] = []
remove_first p (e ∷ es) = if e.pid == p then es else e ∷ remove_first p es

-- The array has its size, and the table does not outgrow it.
pub record IsValid (s : Server) : Type 0 where
  pub cells : length s.clients_data ≡ max_clients
  pub bounded : s.client_count ≤ max_clients

-- The server behind a request, also where the request ended it.
abbrev pub final : Outcome → Server
final (goes_on s) = s
final (exits s) = s

find_qid-lookup : (n : ℕ) (es : List Entry) (p : ℕ) → find_qid n es p ≡ lookup_qid p (take n es)
unfolding find_qid
find_qid-lookup zero es p = refl
find_qid-lookup (suc n) [] p = refl
find_qid-lookup (suc n) (e ∷ es) p = rw (find_qid-lookup n es p)

-- The search over the array finds what the list of registered clients has.
pub get_qid-lookup : (p : ℕ) (s : Server) → get_qid p s ≡ lookup_qid p (registered s)
unfolding get_qid
get_qid-lookup p s = find_qid-lookup s.client_count s.clients_data p

shift-remove :
    (m k : ℕ) (es : List Entry) (p : ℕ)
    → m < length es
    → k + find_client (suc m) es p ≡ m
    → take m (shift no_entry k (find_client (suc m) es p) es) ≡ remove_first p (take (suc m) es)
unfolding find_client
shift-remove m k [] p h e = absurd (omega arith)
shift-remove zero k (x ∷ es) p h e = elim (Bool-cases (x.pid == p)) [
  | inl found ↦ rw found refl
  | inr other ↦ absurd (omega (arith, rw other at e))
]
shift-remove (suc m) k (x ∷ es) p h e = elim (Bool-cases (x.pid == p)) [
  | inl found ↦
      let all : k ≡ suc m = omega (arith, rw found at e) in
      rw (found, all) (take-shift no_entry (suc m) x es (omega arith))
  | inr other ↦
      let j = find_client (suc m) es p in
      rw other (
        ap (take (suc m)) (shift-cons no_entry k j x es)
        ∙ ap (◌∷◌ x) (shift-remove m k es p (omega arith) (omega (arith, rw other at e))))
]

-- The second loop of `handle_quit` takes the entry out that the first one found.
pub shift-remove_first :
    (n : ℕ) (es : List Entry) (p : ℕ)
    → n ≤ length es
    → find_client n es p < n
    → take (n - 1) (shift no_entry (n - 1 - find_client n es p) (find_client n es p) es)
      ≡ remove_first p (take n es)
shift-remove_first zero es p h f = absurd (omega arith)
shift-remove_first (suc m) es p h f =
    let one_less : suc m - 1 ≡ m = omega arith in
    rw one_less (shift-remove m (m - find_client (suc m) es p) es p (omega arith) (omega arith))

pub find_client-le : (n : ℕ) (es : List Entry) (p : ℕ) → find_client n es p ≤ n
unfolding find_client
find_client-le zero es p = omega arith
find_client-le (suc n) [] p = omega arith
find_client-le (suc n) (e ∷ es) p = ground (arith, find_client-le n es p)

-- Where the search of `handle_quit` runs to the end, the client is not registered.
pub find_client-absent :
    (n : ℕ) (es : List Entry) (p : ℕ)
    → n ≤ length es
    → find_client n es p ≡ n
    → remove_first p (take n es) ≡ take n es
unfolding find_client
find_client-absent zero es p h e = refl
find_client-absent (suc n) [] p h e = refl
find_client-absent (suc n) (x ∷ es) p h e = elim (Bool-cases (x.pid == p)) [
  | inl found ↦ absurd (omega (arith, rw found at e))
  | inr other ↦
      rw other (ap (◌∷◌ x) (find_client-absent n es p (omega arith) (omega (arith, rw other at e))))
]

pub find_client-none :
    (n : ℕ) (es : List Entry) (p : ℕ)
    → n ≤ length es
    → find_client n es p ≡ n
    → lookup_qid p (take n es) ≡ none
unfolding find_client
find_client-none zero es p h e = refl
find_client-none (suc n) [] p h e = refl
find_client-none (suc n) (x ∷ es) p h e = elim (Bool-cases (x.pid == p)) [
  | inl found ↦ absurd (omega (arith, rw found at e))
  | inr other ↦ rw other (find_client-none n es p (omega arith) (omega (arith, rw other at e)))
]

-- The entry that the search finds is the one that the list of registered clients has.
pub find_client-qid :
    (n : ℕ) (es : List Entry) (p : ℕ)
    → find_client n es p < n
    → n ≤ length es
    → lookup_qid p (take n es) ≡ some (get_or es (find_client n es p) no_entry).qid
unfolding find_client
find_client-qid zero es p h l = absurd (omega arith)
find_client-qid (suc n) [] p h l = absurd (omega arith)
find_client-qid (suc n) (x ∷ es) p h l = elim (Bool-cases (x.pid == p)) [
  | inl found ↦ rw found
  | inr other ↦ rw other (find_client-qid n es p (omega (arith, rw other at h)) (omega arith))
]
