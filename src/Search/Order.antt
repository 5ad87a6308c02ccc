-- ===== src/Search/Order.antt =====
-- `strcmp` compares formatted dates as the dates themselves are ordered.
use op_sys.Common.{
  ℕ, ◌+◌, ◌*◌, ◌/◌, ◌%◌, ◌<◌, ◌≡◌, ◌↔◌, ap, ◌∙◌, List, [], ◌∷◌, ltb, if◌then◌else◌, ℤ, pos, negsuc,
  arith,
}
use op_sys.Search.{strcmp, less_than, greater_than, equal, Date, two_digits, strftime}

-- The fields fit their places.
pub record IsDate (t : Date) : Type 0 where
  pub year_fits : t.year < 10000
  pub month_fits : t.month < 100
  pub day_fits : t.day < 100
  pub hour_fits : t.hour < 100
  pub minute_fits : t.minute < 100
  pub second_fits : t.second < 100

-- A number that grows with the date.
abbrev pub moment : Date → ℕ
moment t =
    ((((t.year * 100 + t.month) * 100 + t.day) * 100 + t.hour) * 100 + t.minute) * 100 + t.second

-- The order of `x` and `y`, and that of what follows where they are equal.
abbrev ordered : ℕ → ℕ → ℤ → ℤ
ordered x y rest = if ltb x y then negsuc 0 else if ltb y x then pos 1 else rest

-- One number of two digits more.
ordered-ordered :
    (x y a b : ℕ) (rest : ℤ)
    → a < 100
    → b < 100
    → ordered x y (ordered a b rest) ≡ ordered (x * 100 + a) (y * 100 + b) rest
ordered-ordered x y a b rest h h' = ground arith

strcmp-two_digits :
    (a b : ℕ) (r s : List ℕ)
    → a < 100
    → b < 100
    → strcmp (two_digits a r) (two_digits b s) ≡ ordered a b (strcmp r s)
strcmp-two_digits a b r s h h' = ground arith

strcmp-cons : (c : ℕ) (r s : List ℕ) → strcmp (c ∷ r) (c ∷ s) ≡ strcmp r s
strcmp-cons c r s = ground arith

strcmp-field :
    (x y c a b : ℕ) (r s : List ℕ)
    → a < 100
    → b < 100
    → ordered x y (strcmp (c ∷ two_digits a r) (c ∷ two_digits b s))
      ≡ ordered (x * 100 + a) (y * 100 + b) (strcmp r s)
strcmp-field x y c a b r s h h' =
    ap (ordered x y)
      (strcmp-cons c (two_digits a r) (two_digits b s) ∙ strcmp-two_digits a b r s h h')
    ∙ ordered-ordered x y a b (strcmp r s) h h'

strcmp-year :
    (a b : ℕ) (r s : List ℕ)
    → a < 10000
    → b < 10000
    → strcmp
        (two_digits (a / 100) (two_digits (a % 100) r))
        (two_digits (b / 100) (two_digits (b % 100) s))
      ≡ ordered a b (strcmp r s)
strcmp-year a b r s h h' =
    strcmp-two_digits (a / 100) (b / 100) (two_digits (a % 100) r) (two_digits (b % 100) s)
      (omega arith) (omega arith)
    ∙ ap (ordered (a / 100) (b / 100))
        (strcmp-two_digits (a % 100) (b % 100) r s (omega arith) (omega arith))
    ∙ ordered-ordered (a / 100) (b / 100) (a % 100) (b % 100) (strcmp r s) (omega arith)
        (omega arith)
    ∙ ap (λ x. ordered x (b / 100 * 100 + b % 100) (strcmp r s)) (omega arith)
    ∙ ap (λ x. ordered a x (strcmp r s)) (omega arith)

-- What follows the year, the month, and so on.
abbrev from_second : Date → List ℕ
from_second t = b':' ∷ two_digits t.second []

abbrev from_minute : Date → List ℕ
from_minute t = b':' ∷ two_digits t.minute (from_second t)

abbrev from_hour : Date → List ℕ
from_hour t = b' ' ∷ two_digits t.hour (from_minute t)

abbrev from_day : Date → List ℕ
from_day t = b'-' ∷ two_digits t.day (from_hour t)

abbrev from_month : Date → List ℕ
from_month t = b'-' ∷ two_digits t.month (from_day t)

module _ (a b : Date) (u : IsDate a) (v : IsDate b) where
  pub strcmp-strftime : strcmp (strftime a) (strftime b) ≡ ordered (moment a) (moment b) (pos 0)
  unfolding strftime
  strcmp-strftime =
      strcmp-year a.year b.year (from_month a) (from_month b) u.year_fits v.year_fits
      ∙ strcmp-field a.year b.year b'-' a.month b.month (from_day a) (from_day b) u.month_fits
          v.month_fits
      ∙ strcmp-field (a.year * 100 + a.month) (b.year * 100 + b.month) b'-' a.day b.day
          (from_hour a) (from_hour b) u.day_fits v.day_fits
      ∙ strcmp-field ((a.year * 100 + a.month) * 100 + a.day)
          ((b.year * 100 + b.month) * 100 + b.day) b' ' a.hour b.hour (from_minute a)
          (from_minute b) u.hour_fits v.hour_fits
      ∙ strcmp-field (((a.year * 100 + a.month) * 100 + a.day) * 100 + a.hour)
          (((b.year * 100 + b.month) * 100 + b.day) * 100 + b.hour) b':' a.minute b.minute
          (from_second a) (from_second b) u.minute_fits v.minute_fits
      ∙ strcmp-field ((((a.year * 100 + a.month) * 100 + a.day) * 100 + a.hour) * 100 + a.minute)
          ((((b.year * 100 + b.month) * 100 + b.day) * 100 + b.hour) * 100 + b.minute) b':' a.second
          b.second [] [] u.second_fits v.second_fits

  pub less_than-strftime : (less_than (strftime a) (strftime b) ≡ 0) ↔ (moment a < moment b)
  less_than-strftime = rw strcmp-strftime (ground arith)

  pub greater_than-strftime : (greater_than (strftime a) (strftime b) ≡ 0) ↔ (moment b < moment a)
  greater_than-strftime = rw strcmp-strftime (ground arith)

  pub equal-strftime : (equal (strftime a) (strftime b) ≡ 0) ↔ (moment a ≡ moment b)
  equal-strftime = rw strcmp-strftime (ground arith)
