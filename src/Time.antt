-- ===== src/Time.antt =====
-- Canonical UTC text, `YYYY-MM-DDTHH:MM:SSZ`, and the moments that it names: the helpers of
-- policy/limits.py and the `datetime` calls of store/projections.py. A moment is the number of
-- whole seconds since 0001-01-01T00:00:00Z, the range of Python's `datetime`. Texts with decimal
-- digits outside ASCII are refused here; the schemas keep them out of every event.
use Prim.Native.Char.{code}
use Prim.Native.String.{◌++◌ as ◌+s◌}
use muse_agent_social.Prelude.{
  ℕ, zero, suc, ◌+◌, ◌-◌, ◌*◌, ◌/◌, ◌%◌, String, Bool, not, ◌&&◌, ◌||◌, Option, none, some, List,
  [], ◌∷◌, ltb, leb, nat_eq, if◌then◌else◌,
}

abbrev codes : String → List ℕ
codes String.[] = []
codes (String.◌∷◌ c s) = code c ∷ codes s

infixl 5 ◌>>=◌
abbrev pub ◌>>=◌ {ℓ κ} : {A : Type ℓ} {B : Type κ} → Option A → (A → Option B) → Option B
none >>= f = none
some a >>= f = f a

digit : ℕ → Option ℕ
digit c = if leb b'0' c && leb c b'9' then some (c - b'0') else none

two : ℕ → ℕ → Option ℕ
unfolding digit
two a b = do x ← digit a; y ← digit b; some (10 * x + y)

pub record Fields : Type 0 where
  pub year : ℕ
  pub month : ℕ
  pub day : ℕ
  pub hour : ℕ
  pub minute : ℕ
  pub second : ℕ

pub is_leap : ℕ → Bool
is_leap y = nat_eq (y % 4) 0 && (not (nat_eq (y % 100) 0) || nat_eq (y % 400) 0)

pub days_in_month : ℕ → ℕ → ℕ
unfolding is_leap
days_in_month y m =
    if nat_eq m 2
    then (if is_leap y then 29 else 28)
    else if nat_eq m 4 || nat_eq m 6 || nat_eq m 9 || nat_eq m 11
    then 30
    else 31

-- The ranges that `datetime` enforces.
pub valid : Fields → Bool
unfolding days_in_month
valid f =
    leb 1 f.year
    && leb 1 f.month
    && leb f.month 12
    && leb 1 f.day
    && leb f.day (days_in_month f.year f.month)
    && ltb f.hour 24
    && ltb f.minute 60
    && ltb f.second 60

punctuated : ℕ → ℕ → ℕ → ℕ → ℕ → ℕ → Bool
punctuated a b t c d z =
    nat_eq a b'-'
    && nat_eq b b'-'
    && nat_eq t b'T'
    && nat_eq c b':'
    && nat_eq d b':'
    && nat_eq z b'Z'

fields : List ℕ → Option Fields
unfolding two punctuated valid
fields
      (y₁ ∷ y₂ ∷ y₃ ∷ y₄ ∷ a ∷ m₁ ∷ m₂ ∷ b ∷ d₁ ∷ d₂ ∷ t ∷ h₁ ∷ h₂ ∷ c ∷ n₁ ∷ n₂ ∷ d ∷ s₁ ∷ s₂ ∷ z
        ∷ []) =
    do
      century ← two y₁ y₂
      rest ← two y₃ y₄
      month ← two m₁ m₂
      day ← two d₁ d₂
      hour ← two h₁ h₂
      minute ← two n₁ n₂
      second ← two s₁ s₂
      let f : Fields = record {
        year = 100 * century + rest;
        month = month;
        day = day;
        hour = hour;
        minute = minute;
        second = second;
      }
      if punctuated a b t c d z && valid f then some f else none
fields _ = none

days_before_year : ℕ → ℕ
days_before_year y = let p = y - 1 in p * 365 + p / 4 - p / 100 + p / 400

-- The days of the months before month `m`.
days_before_month : ℕ → ℕ → ℕ
days_before_month y zero = 0
days_before_month y (suc m) = days_before_month y m + (if nat_eq m 0 then 0 else days_in_month y m)

to_seconds : Fields → ℕ
unfolding days_before_year days_before_month
to_seconds f =
    (days_before_year f.year + days_before_month f.year f.month + f.day - 1) * 86400
    + f.hour * 3600
    + f.minute * 60
    + f.second

-- `datetime.strptime(text, "%Y-%m-%dT%H:%M:%SZ")`; `none` is its ValueError.
unfoldable pub parse_canonical_utc : String → Option ℕ
unfolding fields to_seconds
parse_canonical_utc text = do f ← fields (codes text); some (to_seconds f)

-- The month and the day of the month of day `d`, counted from 0, of a year.
month_day : ℕ → ℕ → ℕ → ℕ → ℕ × ℕ
month_day zero y m d = (m, d + 1)
month_day (suc left) y m d =
    let later = month_day left y (m + 1) (d - days_in_month y m) in
    if ltb d (days_in_month y m) then (m, d + 1) else later

-- CPython's `_ord2ymd` on an ordinal counted from 0.
year_month_day : ℕ → ℕ × ℕ × ℕ
unfolding month_day
year_month_day n =
    let n400 = n / 146097 in
    let a = n % 146097 in
    let n100 = a / 36524 in
    let b = a % 36524 in
    let n4 = b / 1461 in
    let c = b % 1461 in
    let n1 = c / 365 in
    let d = c % 365 in
    let year = n400 * 400 + n100 * 100 + n4 * 4 + n1 + 1 in
    if nat_eq n1 4 || nat_eq n100 4
    then (year - 1, 12, 31)
    else let (m, k) = month_day 11 year 1 d in (year, m, k)

abbrev digit_text : ℕ → String
digit_text n =
    if nat_eq n 0
    then "0"
    else if nat_eq n 1
    then "1"
    else if nat_eq n 2
    then "2"
    else if nat_eq n 3
    then "3"
    else if nat_eq n 4
    then "4"
    else if nat_eq n 5
    then "5"
    else if nat_eq n 6
    then "6"
    else if nat_eq n 7
    then "7"
    else if nat_eq n 8
    then "8"
    else "9"

pad2 : ℕ → String
pad2 n = digit_text (n / 10 % 10) +s digit_text (n % 10)

-- `strftime` with the same format.
unfoldable pub format_canonical_utc : ℕ → String
unfolding year_month_day pad2
format_canonical_utc moment =
    let (y, m, d) = year_month_day (moment / 86400) in
    let s = moment % 86400 in
    pad2 (y / 100)
    +s (pad2 (y % 100)
        +s ("-"
            +s (pad2 m
                +s ("-"
                    +s (pad2 d
                        +s ("T"
                            +s (pad2 (s / 3600)
                                +s (":"
                                    +s (pad2 (s / 60 % 60)
                                        +s (":" +s (pad2 (s % 60) +s "Z")))))))))))

-- The first moment after year 9999, where `datetime` overflows.
abbrev end_of_time : ℕ
end_of_time = 315537897600

-- `none` is a ValueError or an OverflowError.
unfoldable pub add_seconds : String → ℕ → Option String
unfolding parse_canonical_utc format_canonical_utc
add_seconds text seconds = do
  moment ← parse_canonical_utc text
  if ltb (moment + seconds) end_of_time
      then some (format_canonical_utc (moment + seconds))
      else none

unfoldable pub sub_seconds : String → ℕ → Option String
unfolding parse_canonical_utc format_canonical_utc
sub_seconds text seconds = do
  moment ← parse_canonical_utc text
  if leb seconds moment then some (format_canonical_utc (moment - seconds)) else none
