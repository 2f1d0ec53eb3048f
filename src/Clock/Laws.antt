-- ===== src/Clock/Laws.antt =====
-- The calendar: the lengths of months, the order of instants, and the adding of a month.
use auklet_client_c.Prelude.{
  ℕ, zero, suc, ◌+◌, ◌-◌, ◌*◌, ◌/◌, ◌%◌, ◌≤◌, ◌<◌, ◌≡◌, refl, true, false, arith, Bool,
}
use auklet_client_c.Clock.{
  Time, is_leap, month_length, days_in, before, forward, backward, date, add_month,
}
use auklet_client_c.Prelude.Int.{ℤ, pos, negsuc}

month_length_bounds :
    (m : ℕ) (leap : Bool) → (28 ≤ month_length m leap) × (month_length m leap ≤ 31)
unfolding month_length
month_length_bounds m leap = ground arith

pub days_in_bounds : (m : ℕ) → (28 ≤ days_in m) × (days_in m ≤ 31)
unfolding days_in
days_in_bounds m = month_length_bounds (m % 12) (is_leap (m / 12 + 1))

-- The day of a date lies in its month.
pub record IsDate (t : Time) : Type 0 where
  pub day_fits : t.day < days_in t.month

pub before_irrefl : (t : Time) → before t t ≡ false
unfolding before
before_irrefl t = ground arith

pub before_asymm : (t u : Time) → before t u ≡ true → before u t ≡ false
unfolding before
before_asymm t u h = ground arith

pub before_trans : (t u v : Time) → before t u ≡ true → before v u ≡ false → before t v ≡ true
unfolding before
before_trans t u v h k = ground arith

pub before-month : (t u : Time) → before t u ≡ true → t.month ≤ u.month
unfolding before
before-month t u h = ground arith

-- Enough rounds lead to a date, and the day falls by 28 at least in each.
pub forward-IsDate :
    (fuel month day nanos : ℕ) → day < 28 + 28 * fuel → IsDate (forward fuel month day nanos)
unfolding forward
forward-IsDate zero month day nanos h = ground (arith, days_in_bounds month)
forward-IsDate (suc fuel) month day nanos h =
    ground
      (arith, days_in_bounds month, forward-IsDate fuel (month + 1) (day - days_in month) nanos)

-- Enough rounds back lead to a date likewise.
pub backward-IsDate :
    (fuel month back nanos : ℕ)
    → 1 ≤ back
    → back ≤ 28 * fuel
    → IsDate (backward fuel month back nanos)
unfolding backward
backward-IsDate zero month back nanos g h = absurd (omega arith)
backward-IsDate (suc fuel) month back nanos g h = ground (
  arith,
  days_in_bounds (month - 1),
  backward-IsDate fuel (month - 1) (back - days_in (month - 1)) nanos,
)

-- Whatever number is given for the day, a date comes out.
pub date-IsDate : (month nanos : ℕ) (day : ℤ) → IsDate (date month day nanos)
unfolding date
date-IsDate month nanos (pos zero) = backward-IsDate 1 month 1 nanos (omega arith) (omega arith)
date-IsDate month nanos (pos (suc d)) = forward-IsDate d month d nanos (omega arith)
date-IsDate month nanos (negsuc n) =
    backward-IsDate (n + 2) month (n + 2) nanos (omega arith) (omega arith)

pub forward_later : (fuel month day nanos : ℕ) → month ≤ (forward fuel month day nanos).month
unfolding forward
forward_later zero month day nanos = omega arith
forward_later (suc fuel) month day nanos =
    ground (arith, forward_later fuel (month + 1) (day - days_in month) nanos)

-- A day of the month that the month has is taken as it is.
pub forward_fits :
    (fuel month day nanos : ℕ)
    → day < days_in month
    → forward fuel month day nanos ≡ record { month = month; day = day; nanos = nanos }
unfolding forward
forward_fits zero month day nanos h = refl
forward_fits (suc fuel) month day nanos h = ground arith

pub add_month-IsDate : (t : Time) → IsDate (add_month t)
unfolding add_month date
add_month-IsDate t = forward-IsDate t.day (t.month + 1) t.day t.nanos (omega arith)

pub add_month_later : (t : Time) → t.month < (add_month t).month
unfolding add_month date
add_month_later t = omega (arith, forward_later t.day (t.month + 1) t.day t.nanos)

-- Up to the 28th a month's addition keeps the day and the time, and moves on by one month exactly.
pub add_month_exact : (t : Time) → t.day < 28 → add_month t ≡ record t { month = t.month + 1 }
unfolding add_month date
add_month_exact t h =
    forward_fits t.day (t.month + 1) t.day t.nanos (omega (arith, days_in_bounds (t.month + 1)))
