-- ===== src/Search/Dates.antt =====
-- Which texts `validate_date` accepts.
use op_sys.Common.{
  ℕ, suc, ◌+◌, ◌-◌, ◌/◌, ◌%◌, ◌<◌, ◌≡◌, ◌≢◌, refl, ap, sym, ◌∙◌, Bool, true, false, List, [], ◌∷◌,
  ◌++◌, length, is_digit, is_space, arith, drop_front,
}
use op_sys.Search.{
  Date, two_digits, strftime, Directive, digits, count, literal, white, date_format, span,
  scan_format, validate_date,
}
use op_sys.Search.Order.{IsDate}

abbrev pub All : (ℕ → Bool) → List ℕ → Type 0
All p [] = Unit
All p (c ∷ cs) = (p c ≡ true) × All p cs

-- What is left does not go on with such a character.
abbrev pub Stops : (ℕ → Bool) → List ℕ → Type 0
Stops p [] = Unit
Stops p (c ∷ cs) = p c ≡ false

span-append : (p : ℕ → Bool) (xs r : List ℕ) → All p xs → Stops p r → span p (xs ++ r) ≡ length xs
span-append p [] [] h s = refl
span-append p [] (c ∷ r) h s = ground (arith, s)
span-append p (x ∷ xs) r h s = ground (arith, h.0, span-append p xs r h.1 s)

-- A number of the text, and what it leaves.
scan-digits :
    (fs : List Directive) (p k : ℕ) (xs r : List ℕ)
    → length xs ≡ suc k
    → All is_digit xs
    → Stops is_digit r
    → scan_format (digits ∷ fs) p (xs ++ r) ≡ scan_format fs (p + suc k) r
unfolding scan_format
scan-digits fs p k xs r e h s =
    rw (span-append is_digit xs r h s, e, drop_front xs r (suc k) (sym e)) (ground arith)

scan-white :
    (fs : List Directive) (p : ℕ) (xs r : List ℕ)
    → All is_space xs
    → Stops is_space r
    → scan_format (white ∷ fs) p (xs ++ r) ≡ scan_format fs (p + length xs) r
unfolding scan_format
scan-white fs p xs r h s = rw (span-append is_space xs r h s, drop_front xs r (length xs) refl) refl

scan-literal :
    (fs : List Directive) (p c : ℕ) (r : List ℕ)
    → scan_format (literal c ∷ fs) p (c ∷ r) ≡ scan_format fs (p + 1) r
unfolding scan_format
scan-literal fs p c r = ground arith

-- The parts of a text "yyyy-MM-dd hh:mm:ss" and what stands behind it. The gap and the hour have three
-- places together.
pub record Parts : Type 0 where
  pub year : List ℕ
  pub month : List ℕ
  pub day : List ℕ
  pub gap : List ℕ
  pub hour : List ℕ
  pub minute : List ℕ
  pub second : List ℕ
  pub behind : List ℕ

abbrev pub text : Parts → List ℕ
text t =
    t.year
    ++ (b'-'
        ∷ (t.month
            ++ (b'-'
                ∷ (t.day
                    ++ (t.gap
                        ++ (t.hour ++ (b':' ∷ (t.minute ++ (b':' ∷ (t.second ++ t.behind))))))))))

pub record IsForm (t : Parts) : Type 0 where
  pub year_digits : All is_digit t.year
  pub year_length : length t.year ≡ 4
  pub month_digits : All is_digit t.month
  pub month_length : length t.month ≡ 2
  pub day_digits : All is_digit t.day
  pub day_length : length t.day ≡ 2
  pub gap_spaces : All is_space t.gap
  pub gap_length : (t.gap ≢ []) × (t.hour ≢ []) × (length t.gap + length t.hour ≡ 3)
  pub hour_digits : All is_digit t.hour
  pub minute_digits : All is_digit t.minute
  pub minute_length : length t.minute ≡ 2
  pub second_digits : All is_digit t.second
  pub second_length : length t.second ≡ 2
  pub behind_stops : Stops is_digit t.behind

-- A space is no digit.
spaces_stop : (gap r : List ℕ) → All is_space gap → gap ≢ [] → Stops is_digit (gap ++ r)
spaces_stop [] r h ne = absurd (ne refl)
spaces_stop (c ∷ gap) r h ne = ground (arith, h.0)

digits_stop : (xs r : List ℕ) → All is_digit xs → xs ≢ [] → Stops is_space (xs ++ r)
digits_stop [] r h ne = absurd (ne refl)
digits_stop (c ∷ xs) r h ne = ground (arith, h.0)

length-suc : (xs : List ℕ) → xs ≢ [] → length xs ≡ suc (length xs - 1)
length-suc [] ne = absurd (ne refl)
length-suc (x ∷ xs) ne = omega arith

scan-count :
    (fs : List Directive) (p : ℕ) (s : List ℕ)
    → scan_format (count ∷ fs) p s ≡ p ∷ scan_format fs p s
unfolding scan_format
scan-count fs p s = refl

scan-end : (p : ℕ) (s : List ℕ) → scan_format [] p s ≡ []
unfolding scan_format
scan-end p s = refl

-- A character and a number of two digits.
scan-field :
    (fs : List Directive) (p c : ℕ) (xs r : List ℕ)
    → length xs ≡ 2
    → All is_digit xs
    → Stops is_digit r
    → scan_format (literal c ∷ digits ∷ count ∷ fs) p (c ∷ (xs ++ r))
      ≡ (p + 3) ∷ scan_format fs (p + 3) r
scan-field fs p c xs r e h s =
    scan-literal (digits ∷ count ∷ fs) p c (xs ++ r)
    ∙ scan-digits (count ∷ fs) (p + 1) 1 xs r e h s
    ∙ scan-count fs (p + 1 + 2) r
    ∙ ap (λ q. q ∷ scan_format fs q r) (omega arith)

-- The part of the format behind the day.
scan-time :
    (t : Parts)
    → IsForm t
    → scan_format
        (white
          ∷ digits
          ∷ count
          ∷ literal b':'
          ∷ digits
          ∷ count
          ∷ literal b':'
          ∷ digits
          ∷ count
          ∷ [])
        10
        (t.gap ++ (t.hour ++ (b':' ∷ (t.minute ++ (b':' ∷ (t.second ++ t.behind))))))
      ≡ 13 ∷ 16 ∷ 19 ∷ []
scan-time t f =
    scan-white _ 10 t.gap _ f.gap_spaces (digits_stop t.hour _ f.hour_digits f.gap_length.1)
    ∙ scan-digits _ (10 + length t.gap) (length t.hour - 1) t.hour _
        (length-suc t.hour f.gap_length.1) f.hour_digits refl
    ∙ scan-count _ _ _
    ∙ ap
        (λ q.
          q
          ∷ scan_format (literal b':' ∷ digits ∷ count ∷ literal b':' ∷ digits ∷ count ∷ []) q
              (b':' ∷ (t.minute ++ (b':' ∷ (t.second ++ t.behind)))))
        (omega (arith, f.gap_length.2, length-suc t.hour f.gap_length.1))
    ∙ ap (λ r. 13 ∷ r)
        (scan-field _ 13 b':' t.minute _ f.minute_length f.minute_digits refl
          ∙ ap (λ r. 16 ∷ r)
              (scan-field [] 16 b':' t.second t.behind f.second_length f.second_digits
                  f.behind_stops
                ∙ ap (λ r. 19 ∷ r) (scan-end 19 t.behind)))

scan-text :
    (t : Parts) → IsForm t → scan_format date_format 0 (text t) ≡ 4 ∷ 7 ∷ 10 ∷ 13 ∷ 16 ∷ 19 ∷ []
scan-text t f =
    scan-digits _ 0 3 t.year _ f.year_length f.year_digits refl
    ∙ scan-count _ 4 _
    ∙ ap (λ r. 4 ∷ r)
        (scan-field _ 4 b'-' t.month _ f.month_length f.month_digits refl
          ∙ ap (λ r. 7 ∷ r)
              (scan-field _ 7 b'-' t.day _ f.day_length f.day_digits
                  (spaces_stop t.gap _ f.gap_spaces f.gap_length.0)
                ∙ ap (λ r. 10 ∷ r) (scan-time t f)))

pub validate_date-text : (t : Parts) → IsForm t → validate_date (text t) ≡ 0
unfolding validate_date
validate_date-text t f = rw (scan-text t f) refl

two_digits-All : (a : ℕ) → a < 100 → All is_digit (two_digits a [])
two_digits-All a h = ground arith

-- What `strftime` gives is accepted.
pub validate_date-strftime : (t : Date) → IsDate t → validate_date (strftime t) ≡ 0
unfolding strftime
validate_date-strftime t d =
    validate_date-text
      (record {
        year = two_digits (t.year / 100) (two_digits (t.year % 100) []);
        month = two_digits t.month [];
        day = two_digits t.day [];
        gap = b' ' ∷ [];
        hour = two_digits t.hour [];
        minute = two_digits t.minute [];
        second = two_digits t.second [];
        behind = [];
      })
      (record {
        year_digits = ground (arith, two_digits-All (t.year / 100), two_digits-All (t.year % 100));
        year_length = refl;
        month_digits = two_digits-All t.month d.month_fits;
        month_length = refl;
        day_digits = two_digits-All t.day d.day_fits;
        day_length = refl;
        gap_spaces = (refl, tt);
        gap_length = (λ e. cc, λ e. cc, refl);
        hour_digits = two_digits-All t.hour d.hour_fits;
        minute_digits = two_digits-All t.minute d.minute_fits;
        minute_length = refl;
        second_digits = two_digits-All t.second d.second_fits;
        second_length = refl;
        behind_stops = tt;
      })
