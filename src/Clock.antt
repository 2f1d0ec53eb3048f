-- ===== src/Clock.antt =====
-- What the limiter uses of Go's package `time`: instants in one fixed zone, `Before`, `Date` and
-- `AddDate(0, 1, 0)` with their carries. Months are counted from January of the first year that Go
-- represents, -292277022399, whose leap years fall as those of year 1 do.
pub mod Laws
use auklet_client_c.Prelude.{
  ℕ, zero, suc, ◌+◌, ◌-◌, ◌*◌, ◌/◌, ◌%◌, Bool, true, false, not, ◌&&◌, ◌||◌, ◌==◌, nat_eq, ltb, leb,
  if◌then◌else◌,
}
use auklet_client_c.Prelude.Int.{ℤ, pos, negsuc}

-- An instant: a month, the day in it counted from 0, and the nanoseconds since midnight.
pub record Time : Type 0 where
  pub month : ℕ
  pub day : ℕ
  pub nanos : ℕ

-- The year's number in the leap cycle: it is 1 for the first year.
unfoldable pub is_leap : ℕ → Bool
is_leap year = year % 4 == 0 && (not (year % 100 == 0) || year % 400 == 0)

-- The length of a month of the year, January being 0.
unfoldable pub month_length : ℕ → Bool → ℕ
month_length m leap =
    if m == 1
    then (if leap then 29 else 28)
    else if m == 3 || m == 5 || m == 8 || m == 10
    then 30
    else 31

unfoldable pub days_in : ℕ → ℕ
unfolding month_length is_leap
days_in month = month_length (month % 12) (is_leap (month / 12 + 1))

-- `t.Before(u)`
unfoldable pub before : Time → Time → Bool
before t u =
    ltb t.month u.month
    || (t.month == u.month && (ltb t.day u.day || (t.day == u.day && ltb t.nanos u.nanos)))

-- The date that lies `day` days after the first of the month. A round takes one month away.
unfoldable pub forward : ℕ → ℕ → ℕ → ℕ → Time
forward zero month day nanos = record { month = month; day = day; nanos = nanos }
forward (suc fuel) month day nanos =
    let later = forward fuel (month + 1) (day - days_in month) nanos in
    if ltb day (days_in month) then record { month = month; day = day; nanos = nanos } else later

-- The date that lies `back` days before the first of the month.
unfoldable pub backward : ℕ → ℕ → ℕ → ℕ → Time
backward zero month back nanos = record { month = month; day = 0; nanos = nanos }
backward (suc fuel) month back nanos =
    let earlier = backward fuel (month - 1) (back - days_in (month - 1)) nanos in
    if leb back (days_in (month - 1))
    then record { month = month - 1; day = days_in (month - 1) - back; nanos = nanos }
    else earlier

-- `time.Date(year, month, dayOfMonth, …)`: a day outside the month runs into its neighbours.
unfoldable pub date : ℕ → ℤ → ℕ → Time
unfolding forward backward
date month (pos zero) nanos = backward 1 month 1 nanos
date month (pos (suc d)) nanos = forward d month d nanos
date month (negsuc n) nanos = backward (n + 2) month (n + 2) nanos

-- `t.AddDate(0, 1, 0)`: the same day and time of the next month.
unfoldable pub add_month : Time → Time
add_month t = date (t.month + 1) (pos (suc t.day)) t.nanos

-- January 1 of year 1, the zero `time.Time`.
unfoldable pub zero_time : Time
zero_time = record { month = 12 * 292277022400; day = 0; nanos = 0 }

-- The fields of a date of the calendar, its month and day counted from 1.
abbrev pub calendar_date : ℕ → ℕ → ℕ → ℕ → Time
calendar_date year month day nanos = record {
  month = 12 * (year + 292277022399) + (month - 1);
  day = day - 1;
  nanos = nanos;
}
