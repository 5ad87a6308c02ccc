-- ===== src/Server/Mirror.antt =====
-- The loop of `handle_mirror` reverses the text in place.
use mathlib.Core.List.{reverse-cons}
use op_sys.Common.{
  length-append, length-take, ℕ, zero, suc, ◌+◌, ◌-◌, ◌*◌, ◌/◌, ◌≤◌, ◌<◌, ◌≡◌, refl, ap, sym, ◌∙◌,
  Bool, ◌&&◌, ◌||◌, none, some, List, [], ◌∷◌, ◌++◌, arith, ltb, leb, ◌==◌, if◌then◌else◌, length,
  take, drop, set, get_or, get_elem?, length-set, reverse, strlen,
}
use op_sys.Server.{swap_ends, mirrored_length, mirror_content}

get_elem?-set :
    (xs : List ℕ) (i v k : ℕ)
    → i < length xs
    → get_elem? (set xs i v) k ≡ (if i == k then some v else get_elem? xs k)
get_elem?-set [] i v k h = absurd (omega arith)
get_elem?-set (x ∷ xs) zero v zero h = refl
get_elem?-set (x ∷ xs) zero v (suc k) h = ground arith
get_elem?-set (x ∷ xs) (suc i) v zero h = ground arith
get_elem?-set (x ∷ xs) (suc i) v (suc k) h = ground (arith, get_elem?-set xs i v k (omega arith))

get_or-get_elem? : (xs : List ℕ) (i : ℕ) → i < length xs → get_elem? xs i ≡ some (get_or xs i 0)
get_or-get_elem? [] i h = absurd (omega arith)
get_or-get_elem? (x ∷ xs) zero h = refl
get_or-get_elem? (x ∷ xs) (suc i) h = get_or-get_elem? xs i (omega arith)

-- Position `k` is one that `rounds` rounds from `i` on swap.
abbrev swaps : ℕ → ℕ → ℕ → ℕ → Bool
swaps rounds i len k =
    (leb i k && ltb k (i + rounds)) || (leb (len - i - rounds) k && ltb k (len - i))

-- One round swaps two positions.
swap_once :
    (i len : ℕ) (c : List ℕ) (k : ℕ)
    → 2 * (i + 1) ≤ len
    → len ≤ length c
    → get_elem? (set (set c i (get_or c (len - i - 1) 0)) (len - i - 1) (get_or c i 0)) k
      ≡ (if (k == i) || (k == len - i - 1) then get_elem? c (len - 1 - k) else get_elem? c k)
swap_once i len c k h l = ground (
  arith,
  get_elem?-set (set c i (get_or c (len - i - 1) 0)) (len - i - 1) (get_or c i 0) k,
  get_elem?-set c i (get_or c (len - i - 1) 0) k,
  length-set c i (get_or c (len - i - 1) 0),
  get_or-get_elem? c i,
  get_or-get_elem? c (len - i - 1),
)

swap_ends-get :
    (rounds i len : ℕ) (c : List ℕ) (k : ℕ)
    → 2 * (i + rounds) ≤ len
    → len ≤ length c
    → get_elem? (swap_ends rounds i len c) k
      ≡ (if swaps rounds i len k then get_elem? c (len - 1 - k) else get_elem? c k)
unfolding swap_ends
swap_ends-get zero i len c k h l = ground arith
swap_ends-get (suc rounds) i len c k h l = ground (
  arith,
  swap_ends-get rounds (suc i) len swapped k (omega arith) (omega (arith, same_length)),
  swap_once i len c k,
  swap_once i len c (len - 1 - k),
)
  where
    swapped : List ℕ
    swapped = set (set c i (get_or c (len - i - 1) 0)) (len - i - 1) (get_or c i 0)

    same_length : length swapped ≡ length c
    same_length =
        length-set (set c i (get_or c (len - i - 1) 0)) (len - i - 1) (get_or c i 0)
        ∙ length-set c i (get_or c (len - i - 1) 0)

strlen-le : (c : List ℕ) → strlen c ≤ length c
unfolding strlen
strlen-le [] = omega arith
strlen-le (x ∷ c) = ground (arith, strlen-le c)

mirrored_length-le : (c : List ℕ) → mirrored_length c ≤ length c
unfolding mirrored_length
mirrored_length-le c = ground (arith, strlen-le c)

-- The text, up to its newline, is reversed, and whatever follows it in the array stays.
pub mirror-get :
    (c : List ℕ) (k : ℕ)
    → get_elem? (mirror_content c) k ≡ (
        if ltb k (mirrored_length c)
        then get_elem? c (mirrored_length c - 1 - k)
        else get_elem? c k)
unfolding mirror_content
mirror-get c k = ground (
  arith,
  swap_ends-get (mirrored_length c / 2) 0 (mirrored_length c) c k (omega arith)
      (mirrored_length-le c),
)

get_elem?-ext : (xs ys : List ℕ) → ((k : ℕ) → get_elem? xs k ≡ get_elem? ys k) → xs ≡ ys
get_elem?-ext [] [] h = refl
get_elem?-ext [] (y ∷ ys) h = cc (h 0)
get_elem?-ext (x ∷ xs) [] h = cc (h 0)
get_elem?-ext (x ∷ xs) (y ∷ ys) h = cc (h 0, get_elem?-ext xs ys (λ k. h (suc k)))

get_elem?-append :
    (xs ys : List ℕ) (k : ℕ)
    → get_elem? (xs ++ ys) k
      ≡ (if ltb k (length xs) then get_elem? xs k else get_elem? ys (k - length xs))
get_elem?-append [] ys k = let whole : k - 0 ≡ k = omega arith in rw whole (ground arith)
get_elem?-append (x ∷ xs) ys zero = ground arith
get_elem?-append (x ∷ xs) ys (suc k) = ground (arith, get_elem?-append xs ys k)

get_elem?_past : (xs : List ℕ) (k : ℕ) → length xs ≤ k → get_elem? xs k ≡ none
get_elem?_past [] k h = refl
get_elem?_past (x ∷ xs) zero h = absurd (omega arith)
get_elem?_past (x ∷ xs) (suc k) h = get_elem?_past xs k (omega arith)

length-reverse : (xs : List ℕ) → length (reverse xs) ≡ length xs
length-reverse [] = refl
length-reverse (x ∷ xs) =
    omega
      (arith, ap length (reverse-cons x xs), length-append (reverse xs) (x ∷ []), length-reverse xs)

get_elem?-cons :
    (x : ℕ) (xs : List ℕ) (k : ℕ)
    → get_elem? (x ∷ xs) k ≡ (if k == 0 then some x else get_elem? xs (k - 1))
get_elem?-cons x xs zero = refl
get_elem?-cons x xs (suc k) = let less : suc k - 1 ≡ k = omega arith in rw less (ground arith)

get_elem?-reverse :
    (xs : List ℕ) (k : ℕ)
    → k < length xs
    → get_elem? (reverse xs) k ≡ get_elem? xs (length xs - 1 - k)
get_elem?-reverse [] k h = absurd (omega arith)
get_elem?-reverse (x ∷ xs) k h =
    ap (λ l. get_elem? l k) (reverse-cons x xs)
    ∙ get_elem?-append (reverse xs) (x ∷ []) k
    ∙ ground (
      arith,
      length-reverse xs,
      get_elem?-reverse xs k,
      get_elem?-cons x [] (k - length (reverse xs)),
      get_elem?-cons x xs (suc (length xs) - 1 - k),
    )

get_elem?-take : (n : ℕ) (xs : List ℕ) (k : ℕ) → k < n → get_elem? (take n xs) k ≡ get_elem? xs k
get_elem?-take zero xs k h = absurd (omega arith)
get_elem?-take (suc n) [] k h = refl
get_elem?-take (suc n) (x ∷ xs) zero h = refl
get_elem?-take (suc n) (x ∷ xs) (suc k) h = get_elem?-take n xs k (omega arith)

get_elem?-drop :
    (n : ℕ) (xs : List ℕ) (k : ℕ) → n ≤ k → get_elem? (drop n xs) (k - n) ≡ get_elem? xs k
get_elem?-drop zero xs k h = let whole : k - 0 ≡ k = omega arith in rw whole
get_elem?-drop (suc n) [] k h = refl
get_elem?-drop (suc n) (x ∷ xs) zero h = absurd (omega arith)
get_elem?-drop (suc n) (x ∷ xs) (suc k) h =
    let less : suc k - suc n ≡ k - n = omega arith in rw less (get_elem?-drop n xs k (omega arith))

-- The handler's loop puts the text, up to a newline at its end, in reverse order, and leaves the rest
-- of the array alone.
pub mirror-reverse :
    (c : List ℕ)
    → mirror_content c ≡ reverse (take (mirrored_length c) c) ++ drop (mirrored_length c) c
mirror-reverse c = get_elem?-ext _ _ (λ k.
    mirror-get c k
    ∙ sym (
        get_elem?-append (reverse front) rest k
        ∙ ground (
          arith,
          length-reverse front,
          length-take len c,
          mirrored_length-le c,
          get_elem?-reverse front k,
          get_elem?-take len c (len - 1 - k),
          get_elem?-drop len c k,
        )))
  where
    len : ℕ
    len = mirrored_length c

    front : List ℕ
    front = take len c

    rest : List ℕ
    rest = drop len c
