-- ===== src/Message/Limiter/Period.antt =====
-- `ensureFuture`, `dayThisMonth` and what `apply` makes of them.
use auklet_client_c.Prelude.{
  ℕ, zero, suc, ◌+◌, ◌≤◌, ◌<◌, ◌≡◌, refl, ap, ◌∙◌, true, false, arith, Bool-cases, inl, inr,
  if◌then◌else◌,
}
use auklet_client_c.Prelude.Int.{pos}
use auklet_client_c.Clock.{Time, before, date, add_month}
use auklet_client_c.Clock.Laws.{
  add_month_later, add_month_exact, before-month, forward_fits, days_in_bounds,
}
use auklet_client_c.Message.Limiter.State.{ensure_loop, ensure_future, rounds, day_this_month}

-- The date `k` months on, month by month.
abbrev pub months_on : ℕ → Time → Time
months_on zero t = t
months_on (suc k) t = months_on k (add_month t)

-- The first date of the row from `t` that is not before `now`, at place `k`.
pub record IsFirst (t now : Time) (k : ℕ) (r : Time) : Type 0 where
  pub is_at : r ≡ months_on k t
  pub reached : before r now ≡ false
  pub earlier_past : (j : ℕ) → j < k → before (months_on j t) now ≡ true

IsFirst-step :
    (t now r : Time) (k : ℕ)
    → before t now ≡ true
    → IsFirst (add_month t) now k r
    → IsFirst t now (suc k) r
IsFirst-step t now r k h f = record {
  is_at = f.is_at;
  reached = f.reached;
  earlier_past = elim [ zero ↦ λ p. h | suc j ↦ λ p. f.earlier_past j (omega arith) ];
}

IsFirst-here : (t now : Time) → before t now ≡ false → IsFirst t now zero t
IsFirst-here t now due = record {
  is_at = refl;
  reached = due;
  earlier_past = λ j p. absurd (omega arith);
}

ensure_loop-IsFirst :
    (fuel : ℕ) (t now : Time)
    → suc (suc now.month) ≤ fuel + t.month
    → (k : ℕ) × IsFirst t now k (ensure_loop fuel t now)
unfolding ensure_loop
ensure_loop-IsFirst zero t now h = elim (Bool-cases (before t now)) [
  | inl past ↦ absurd (omega (arith, before-month t now past))
  | inr due ↦ (zero, IsFirst-here t now due)
]
ensure_loop-IsFirst (suc fuel) t now h = elim (Bool-cases (before t now)) [
  | inl past ↦
      let rest = ensure_loop-IsFirst fuel (add_month t) now (omega (arith, add_month_later t)) in
      rw past (suc rest.0, IsFirst-step t now _ rest.0 past rest.1)
  | inr due ↦ rw due (zero, IsFirst-here t now due)
]

enough_rounds : (t now : Time) → suc (suc now.month) ≤ rounds t now + t.month
unfolding rounds
enough_rounds t now = omega arith

-- `ensureFuture` ends, and returns the first date of the row of months from the period's end that is
-- not before now.
pub ensure_future-IsFirst :
    (period_end now : Time) → (k : ℕ) × IsFirst period_end now k (ensure_future period_end now)
unfolding ensure_future
ensure_future-IsFirst period_end now =
    ensure_loop-IsFirst (rounds period_end now) period_end now (enough_rounds period_end now)

-- A day that every month has stays the day of the period's end, and so does the time of day.
pub ensure_loop-day :
    (fuel : ℕ) (t now : Time)
    → t.day < 28
    → ((ensure_loop fuel t now).day ≡ t.day) × ((ensure_loop fuel t now).nanos ≡ t.nanos)
unfolding ensure_loop
ensure_loop-day zero t now h = (refl, refl)
ensure_loop-day (suc fuel) t now h =
    ground (arith, add_month_exact t h, ensure_loop-day fuel (add_month t) now)

pub ensure_future-day :
    (t now : Time)
    → t.day < 28
    → ((ensure_future t now).day ≡ t.day) × ((ensure_future t now).nanos ≡ t.nanos)
unfolding ensure_future
ensure_future-day t now h = ensure_loop-day (rounds t now) t now h

-- Midnight at the start of a day of a month.
abbrev pub midnight : ℕ → ℕ → Time
midnight month day = record { month = month; day = day; nanos = 0 }

day_this_month-midnight :
    (d : ℕ) (now : Time) → d < 28 → day_this_month (pos (suc d)) now ≡ midnight now.month d
unfolding day_this_month date
day_this_month-midnight d now h =
    forward_fits d now.month d 0 (omega (arith, days_in_bounds now.month))

rounds_same : (now : Time) (d : ℕ) → rounds (midnight now.month d) now ≡ 2
unfolding rounds
rounds_same now d = omega arith

not-before_next : (now : Time) (d : ℕ) → before (midnight (now.month + 1) d) now ≡ false
unfolding before
not-before_next now d = ground arith

ensure_two :
    (d : ℕ) (now : Time)
    → d < 28
    → ensure_loop 2 (midnight now.month d) now ≡ (
        if before (midnight now.month d) now
        then midnight (now.month + 1) d
        else midnight now.month d)
unfolding ensure_loop
ensure_two d now h =
    rw (add_month_exact (midnight now.month d) h, not-before_next now d) (ground arith)

-- The period's end that a configured day from 1 to 28 gives: that day's midnight in this month if it
-- is not past, and in the next month if it is.
pub config_period_end :
    (d : ℕ) (now : Time)
    → d < 28
    → ensure_future (day_this_month (pos (suc d)) now) now ≡ (
        if before (midnight now.month d) now
        then midnight (now.month + 1) d
        else midnight now.month d)
unfolding ensure_future
config_period_end d now h =
    ap (λ t. ensure_future t now) (day_this_month-midnight d now h)
    ∙ ap (λ f. ensure_loop f (midnight now.month d) now) (rounds_same now d)
    ∙ ensure_two d now h
