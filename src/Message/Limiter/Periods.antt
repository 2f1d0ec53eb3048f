-- ===== src/Message/Limiter/Periods.antt =====
-- A new period, by the timer or by a new configuration, and what it makes of either waiting state.
use auklet_client_c.Prelude.{ℕ, suc, ◌+◌, ◌*◌, ◌<◌, ◌≡◌, ◌⊎◌, true, false, arith, if◌then◌else◌}
use auklet_client_c.Prelude.Int.{pos}
use auklet_client_c.Prelude.Int64.{two_63, mul64-pos}
use auklet_client_c.Clock.{Time, before}
use auklet_client_c.Api.DataLimit.{CellularConfig}
use auklet_client_c.Message.Persistor.{Persistor}
use auklet_client_c.Message.Limiter.State.{DataLimiter, State, under_budget, over_budget}
use auklet_client_c.Message.Limiter.Period.{midnight, ensure_future-IsFirst, config_period_end}
use auklet_client_c.Message.Limiter.Run.{expired, configured, step}
use auklet_client_c.Message.Limiter.Budget.{Budgeted, over_threshold-pos}

-- A state that waits for events.
abbrev pub Waits : State → Type 0
Waits s = (s ≡ under_budget) ⊎ (s ≡ over_budget)

module _ (P : Persistor) where
  -- When the period ends, a limiter that waits for events, has a budget, and nine times that budget is
  -- in the range of `int`, passes messages from then on, with nothing counted, the same budget,
  -- nothing sent, and a period whose end is not past.
  pub step-expired :
      (b c : ℕ) (now : Time) (s : State) (l : DataLimiter P.State)
      → Waits s
      → Budgeted l b c
      → 9 * b < two_63
      → let r = step P (expired now) s l in
        (r.0 ≡ under_budget)
        × Budgeted r.1 b 0
        × (before r.1.period_end now ≡ false)
        × (r.1.out ≡ l.out)
  unfolding step
  step-expired b c now s l w k small =
      let first = ensure_future-IsFirst l.period_end now in
      ground (arith, w, k.has, k.budget_is, over_threshold-pos 0 b, first.1.reached)

  -- A configuration with a limit of `n` megabytes, of which nine times the bytes are in the range of
  -- `int`, and a day from 1 to 28 makes a limiter that waits for events pass messages, with that
  -- budget, nothing counted and nothing sent. The period's end is the first midnight of that day, of
  -- this month or the next, that is not past.
  pub step-configured :
      (n d : ℕ) (conf : CellularConfig) (now : Time) (s : State) (l : DataLimiter P.State)
      → Waits s
      → conf.defined ≡ true
      → conf.limit ≡ pos n
      → conf.date ≡ pos (suc d)
      → d < 28
      → 9 * (1000000 * n) < two_63
      → let r = step P (configured conf now) s l in
        (r.0 ≡ under_budget)
        × Budgeted r.1 (1000000 * n) 0
        × (r.1.period_end ≡ (
            if before (midnight now.month d) now
            then midnight (now.month + 1) d
            else midnight now.month d))
        × (r.1.out ≡ l.out)
  unfolding step
  step-configured n d conf now s l w defined limit day small fits = ground (
    arith,
    w,
    defined,
    limit,
    mul64-pos 1000000 n,
    over_threshold-pos 0 (1000000 * n),
    config_period_end d now,
    day,
  )
