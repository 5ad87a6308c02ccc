-- ===== src/Search/Accepted.antt =====
-- The texts that `validate_date` accepts have the form of a date.
use mathlib.Core.Path.{subst}
use op_sys.Common.{
  ℕ, suc, ◌+◌, ◌≡◌, ◌≢◌, ◌↔◌, refl, ap, sym, ◌∙◌, Bool, ◌&&◌, List, [], ◌∷◌, ◌++◌, ◌==◌,
  if◌then◌else◌, length, take, drop, get_or, is_digit, is_space, arith, take-append-drop,
}
use op_sys.Search.{
  Directive, digits, count, literal, white, date_format, span, scan_format, validate_date,
}
use op_sys.Search.Dates.{All, Stops, Parts, text, IsForm, validate_date-text}

span-All : (p : ℕ → Bool) (s : List ℕ) → All p (take (span p s) s)
span-All p [] = tt
span-All p (c ∷ s) = ground (arith, span-All p s)

span-Stops : (p : ℕ → Bool) (s : List ℕ) → Stops p (drop (span p s) s)
span-Stops p [] = tt
span-Stops p (c ∷ s) = ground (arith, span-Stops p s)

length-span : (p : ℕ → Bool) (s : List ℕ) → length (take (span p s) s) ≡ span p s
length-span p [] = refl
length-span p (c ∷ s) = ground (arith, length-span p s)

number_or_none :
    (p k v : ℕ) (n : List ℕ)
    → get_or (if k == 0 then [] else (p + k) ∷ n) 0 0 ≡ suc v
    → (p + k ≡ suc v) × (k ≢ 0) × ((if k == 0 then [] else (p + k) ∷ n) ≡ (p + k) ∷ n)
number_or_none p k v n e = ground (arith, e)

-- A number that is stored was scanned, and ends at the place that is stored.
record Number (fs : List Directive) (p v : ℕ) (s : List ℕ) : Type 0 where
  front : List ℕ
  rest : List ℕ
  whole : front ++ rest ≡ s
  are : All is_digit front
  stops : Stops is_digit rest
  ends : p + length front ≡ suc v
  some_digit : front ≢ []
  goes_on : scan_format (digits ∷ count ∷ fs) p s ≡ suc v ∷ scan_format fs (suc v) rest

scanned-Number :
    (fs : List Directive) (p v : ℕ) (s : List ℕ)
    → get_or (scan_format (digits ∷ count ∷ fs) p s) 0 0 ≡ suc v
    → Number fs p v s
unfolding scan_format
scanned-Number fs p v s e =
    let k = span is_digit s in
    let h = number_or_none p k v (scan_format fs (p + k) (drop k s)) e in
    record {
      front = take k s;
      rest = drop k s;
      whole = take-append-drop k s;
      are = span-All is_digit s;
      stops = span-Stops is_digit s;
      ends = omega (arith, h.0, length-span is_digit s);
      some_digit = λ x. h.1 (sym (length-span is_digit s) ∙ ap length x);
      goes_on = h.2 ∙ ap (λ q. q ∷ scan_format fs q (drop k s)) h.0;
    }

literal_scanned :
    (fs : List Directive) (p c v : ℕ) (s : List ℕ)
    → get_or (scan_format (literal c ∷ fs) p s) 0 0 ≡ suc v
    → (s ≡ c ∷ drop 1 s) × (scan_format (literal c ∷ fs) p s ≡ scan_format fs (p + 1) (drop 1 s))
unfolding scan_format
literal_scanned fs p c v [] e = absurd (ground (arith, e))
literal_scanned fs p c v (d ∷ s) e = ground (arith, e)

record Field (fs : List Directive) (p c : ℕ) (s : List ℕ) : Type 0 where
  number : List ℕ
  rest : List ℕ
  whole : c ∷ (number ++ rest) ≡ s
  are : All is_digit number
  stops : Stops is_digit rest
  two : length number ≡ 2
  goes_on :
      scan_format (literal c ∷ digits ∷ count ∷ fs) p s ≡ (p + 3) ∷ scan_format fs (p + 3) rest

scanned-Field :
    (fs : List Directive) (p c : ℕ) (s : List ℕ)
    → get_or (scan_format (literal c ∷ digits ∷ count ∷ fs) p s) 0 0 ≡ p + 3
    → Field fs p c s
scanned-Field fs p c s e =
    let l = literal_scanned (digits ∷ count ∷ fs) p c (p + 2) s (e ∙ omega arith) in
    let k =
      scanned-Number fs (p + 1) (p + 2) (drop 1 s)
        (ap (λ n. get_or n 0 0) (sym l.1) ∙ e ∙ omega arith) in
    record {
      number = k.front;
      rest = k.rest;
      whole = ap (λ r. c ∷ r) k.whole ∙ sym l.0;
      are = k.are;
      stops = k.stops;
      two = omega (arith, k.ends);
      goes_on = l.1 ∙ k.goes_on ∙ ap (λ q. q ∷ scan_format fs q k.rest) (omega arith);
    }

abbrev verdict : List ℕ → ℕ
verdict n =
    if (get_or n 0 0 == 4)
      && (get_or n 1 0 == 7)
      && (get_or n 2 0 == 10)
      && (get_or n 3 0 == 13)
      && (get_or n 4 0 == 16)
      && (get_or n 5 0 == 19)
    then 0
    else 5

-- The numbers that are stored.
stored :
    (n : List ℕ)
    → verdict n ≡ 0
    → (get_or n 0 0 ≡ 4)
      × (get_or n 1 0 ≡ 7)
      × (get_or n 2 0 ≡ 10)
      × (get_or n 3 0 ≡ 13)
      × (get_or n 4 0 ≡ 16)
      × (get_or n 5 0 ≡ 19)
stored n e = ground (arith, e)

-- The second number, and so on, once the first is known.
next : (n r : List ℕ) (v i k : ℕ) → n ≡ v ∷ r → get_or n (suc i) 0 ≡ k → get_or r i 0 ≡ k
next n r v i k e h = ap (λ x. get_or x (suc i) 0) (sym e) ∙ h

-- The hour does not follow the day at once.
gap_there :
    (gap hour rest s : List ℕ)
    → gap ++ (hour ++ rest) ≡ s
    → Stops is_digit s
    → All is_digit hour
    → hour ≢ []
    → gap ≢ []
gap_there gap [] rest s e st h ne x = ne refl
gap_there gap (d ∷ hour) rest s e st h ne x =
    ground (arith, h.0, subst (Stops is_digit) (sym e ∙ ap (λ g. g ++ (d ∷ hour ++ rest)) x) st)

white_scanned :
    (fs : List Directive) (p : ℕ) (s : List ℕ)
    → scan_format (white ∷ fs) p s ≡ scan_format fs (p + span is_space s) (drop (span is_space s) s)
unfolding scan_format
white_scanned fs p s = refl

-- The time, from the place behind the day on.
abbrev time_format : List Directive
time_format = digits ∷ count ∷ literal b':' ∷ digits ∷ count ∷ literal b':' ∷ digits ∷ count ∷ []

record Time (s : List ℕ) : Type 0 where
  gap : List ℕ
  hour : List ℕ
  minute : List ℕ
  second : List ℕ
  behind : List ℕ
  whole : gap ++ (hour ++ (b':' ∷ (minute ++ (b':' ∷ (second ++ behind))))) ≡ s
  gap_spaces : All is_space gap
  gap_length : (gap ≢ []) × (hour ≢ []) × (length gap + length hour ≡ 3)
  hour_digits : All is_digit hour
  minute_digits : All is_digit minute
  minute_length : length minute ≡ 2
  second_digits : All is_digit second
  second_length : length second ≡ 2
  behind_stops : Stops is_digit behind

scanned-Time :
    (s n : List ℕ)
    → Stops is_digit s
    → n ≡ scan_format (white ∷ time_format) 10 s
    → get_or n 0 0 ≡ 13
    → get_or n 1 0 ≡ 16
    → get_or n 2 0 ≡ 19
    → Time s
scanned-Time s n st e e0 e1 e2 =
    let k = span is_space s in
    let same = e ∙ white_scanned time_format 10 s in
    let h =
      scanned-Number (drop 2 time_format) (10 + k) 12 (drop k s)
        (ap (λ x. get_or x 0 0) (sym same) ∙ e0) in
    let n1 = next n _ 13 0 16 (same ∙ h.goes_on) e1 in
    let m = scanned-Field (drop 5 time_format) 13 b':' h.rest n1 in
    let n2 = next _ _ 16 0 19 m.goes_on (next n _ 13 1 19 (same ∙ h.goes_on) e2) in
    let c = scanned-Field [] 16 b':' m.rest n2 in
    record {
      gap = take k s;
      hour = h.front;
      minute = m.number;
      second = c.number;
      behind = c.rest;
      whole =
          ap (λ r. take k s ++ (h.front ++ r)) (ap (λ r. b':' ∷ (m.number ++ r)) c.whole ∙ m.whole)
          ∙ ap (λ r. take k s ++ r) h.whole
          ∙ take-append-drop k s;
      gap_spaces = span-All is_space s;
      gap_length = (
        gap_there (take k s) h.front h.rest s
            (ap (λ r. take k s ++ r) h.whole ∙ take-append-drop k s) st h.are h.some_digit,
        h.some_digit,
        omega (arith, h.ends, length-span is_space s),
      );
      hour_digits = h.are;
      minute_digits = m.are;
      minute_length = m.two;
      second_digits = c.are;
      second_length = c.two;
      behind_stops = c.stops;
    }

scanned-IsForm :
    (date : List ℕ)
    → verdict (scan_format date_format 0 date) ≡ 0
    → (t : Parts) × (text t ≡ date) × IsForm t
scanned-IsForm date e =
    let n = stored (scan_format date_format 0 date) e in
    let y = scanned-Number (drop 2 date_format) 0 3 date n.0 in
    let at = next (scan_format date_format 0 date) (scan_format (drop 2 date_format) 4 y.rest) 4 in
    let m = scanned-Field (drop 5 date_format) 4 b'-' y.rest (at 0 7 y.goes_on n.1) in
    let at' = next _ (scan_format (drop 5 date_format) 7 m.rest) 7 in
    let d =
      scanned-Field (drop 8 date_format) 7 b'-' m.rest
        (at' 0 10 m.goes_on (at 1 10 y.goes_on n.2)) in
    let at'' = next _ (scan_format (drop 8 date_format) 10 d.rest) 10 in
    let t =
      scanned-Time d.rest (scan_format (drop 8 date_format) 10 d.rest) d.stops refl
        (at'' 0 13 d.goes_on (at' 1 13 m.goes_on (at 2 13 y.goes_on n.3)))
        (at'' 1 16 d.goes_on (at' 2 16 m.goes_on (at 3 16 y.goes_on n.4)))
        (at'' 2 19 d.goes_on (at' 3 19 m.goes_on (at 4 19 y.goes_on n.5))) in
    (
      record {
        year = y.front;
        month = m.number;
        day = d.number;
        gap = t.gap;
        hour = t.hour;
        minute = t.minute;
        second = t.second;
        behind = t.behind;
      },
      ap (λ r. y.front ++ (b'-' ∷ (m.number ++ (b'-' ∷ (d.number ++ r))))) t.whole
          ∙ ap (λ r. y.front ++ (b'-' ∷ (m.number ++ r))) d.whole
          ∙ ap (λ r. y.front ++ r) m.whole
          ∙ y.whole,
      record {
        year_digits = y.are;
        year_length = omega (arith, y.ends);
        month_digits = m.are;
        month_length = m.two;
        day_digits = d.are;
        day_length = d.two;
        gap_spaces = t.gap_spaces;
        gap_length = t.gap_length;
        hour_digits = t.hour_digits;
        minute_digits = t.minute_digits;
        minute_length = t.minute_length;
        second_digits = t.second_digits;
        second_length = t.second_length;
        behind_stops = t.behind_stops;
      },
    )

-- A date is accepted exactly if it is four digits, a dash, two digits, a dash, two digits, space and one
-- or two digits in three places, a colon, two digits, a colon and two digits, and then any text that
-- does not begin with a digit.
pub validate_date-accepts :
    (date : List ℕ) → (validate_date date ≡ 0) ↔ ((t : Parts) × (text t ≡ date) × IsForm t)
unfolding validate_date
validate_date-accepts date =
    (scanned-IsForm date, λ f. ap validate_date (sym f.1) ∙ validate_date-text f.0 f.2)
