-- ===== src/Temporal/Calendar.antt =====
-- Python's `date` and `datetime`, as grace_mem/temporal/resolver.py uses them: proleptic Gregorian
-- dates of the years 1 to 9999, their ordinals, and the arithmetic by `timedelta`. `none` is the
-- ValueError or OverflowError of a date out of range.
use grace_mem.Common.{
  ℕ, zero, suc, ◌+◌, ◌-◌, ◌*◌, ◌/◌, ◌%◌, ◌≤◌, ◌≡◌, Bool, true, false, not, ◌&&◌, ◌||◌, Option, none,
  some, ltb, leb, eqb, if◌then◌else◌, ◌>>=◌,
}
pub mod Ordinal
pub mod Shift

pub record Date : Type 0 where
  pub year : ℕ
  pub month : ℕ
  pub day : ℕ

abbrev pub max_year : ℕ
max_year = 9999

-- `calendar.isleap`
unfoldable pub is_leap : ℕ → Bool
is_leap y = eqb (y % 4) 0 && (not (eqb (y % 100) 0) || eqb (y % 400) 0)

-- `calendar.monthrange(y, m)[1]`
unfoldable pub days_in_month : ℕ → ℕ → ℕ
unfolding is_leap
days_in_month y m =
    if eqb m 2
    then (if is_leap y then 29 else 28)
    else (if eqb m 4 || (eqb m 6 || (eqb m 9 || eqb m 11)) then 30 else 31)

unfoldable pub days_in_year : ℕ → ℕ
unfolding is_leap
days_in_year y = if is_leap y then 366 else 365

unfoldable pub days_before_year : ℕ → ℕ
days_before_year y = (y - 1) * 365 + (y - 1) / 4 - (y - 1) / 100 + (y - 1) / 400

-- The days of the first months of a year.
unfoldable pub days_of_months : ℕ → ℕ → ℕ
days_of_months y zero = 0
days_of_months y (suc m) = days_of_months y m + days_in_month y (suc m)

-- `date.toordinal`
unfoldable pub ordinal : Date → ℕ
ordinal t = days_before_year t.year + days_of_months t.year (t.month - 1) + t.day

-- `date.weekday`, where Monday is 0.
unfoldable pub weekday : Date → ℕ
weekday t = (ordinal t + 6) % 7

-- `date(y, m, d)`
unfoldable pub make_date : ℕ → ℕ → ℕ → Option Date
make_date y m d =
    if leb 1 y
      && (leb y max_year && (leb 1 m && (leb m 12 && (leb 1 d && leb d (days_in_month y m)))))
    then some (record { year = y; month = m; day = d })
    else none

-- The date that stands `n` days after the end of the month before `m`; `months` follow `m`.
unfoldable pub find_month : ℕ → ℕ → ℕ → ℕ → Date
find_month zero y m n = record { year = y; month = m; day = n }
find_month (suc months) y m n = elim (leb n (days_in_month y m)) [
  | true ↦ record { year = y; month = m; day = n }
  | false ↦ find_month months y (m + 1) (n - days_in_month y m)
]

unfoldable pub find_year : ℕ → ℕ → ℕ → Date
unfolding find_month
find_year zero y n = find_month 11 y 1 n
find_year (suc years) y n = elim (leb n (days_in_year y)) [
  | true ↦ find_month 11 y 1 n
  | false ↦ find_year years (y + 1) (n - days_in_year y)
]

abbrev pub max_ordinal : ℕ
max_ordinal = 3652059

-- `date.fromordinal`
unfoldable pub of_ordinal : ℕ → Option Date
unfolding find_year
of_ordinal n = if leb 1 n && leb n max_ordinal then some (find_year 9998 1 n) else none

-- `t + timedelta(days=n)` and `t - timedelta(days=n)`
unfoldable pub plus_days : Date → ℕ → Option Date
unfolding of_ordinal
plus_days t n = of_ordinal (ordinal t + n)

unfoldable pub minus_days : Date → ℕ → Option Date
unfolding of_ordinal
minus_days t n = of_ordinal (ordinal t - n)

pub record Stamp : Type 0 where
  pub date : Date
  pub micros : ℕ

abbrev pub day_micros : ℕ
day_micros = 86400000000

abbrev pub hour_micros : ℕ
hour_micros = 3600000000

abbrev pub minute_micros : ℕ
minute_micros = 60000000

-- The microseconds since the start of the day before 1 January of year 1.
abbrev pub instant : Stamp → ℕ
instant s = ordinal s.date * day_micros + s.micros

unfoldable pub of_instant : ℕ → Option Stamp
unfolding of_ordinal
of_instant n = do
  t ← of_ordinal (n / day_micros)
  some (record { date = t; micros = n % day_micros })

unfoldable pub plus_micros : Stamp → ℕ → Option Stamp
unfolding of_instant
plus_micros s n = of_instant (instant s + n)

unfoldable pub minus_micros : Stamp → ℕ → Option Stamp
unfolding of_instant
minus_micros s n = of_instant (instant s - n)

-- The dates and stamps that Python can hold.
pub record IsDate (t : Date) : Type 0 where
  pub year_low : 1 ≤ t.year
  pub year_high : t.year ≤ max_year
  pub month_low : 1 ≤ t.month
  pub month_high : t.month ≤ 12
  pub day_low : 1 ≤ t.day
  pub day_high : t.day ≤ days_in_month t.year t.month

pub record IsStamp (s : Stamp) : Type 0 where
  pub on : IsDate s.date
  pub within : suc s.micros ≤ day_micros
