-- ===== src/Message/Limiter/Run.antt =====
-- The two states that wait, the table of state functions, the loop of `serve`, and the constructor.
use auklet_client_c.Prelude.{false, Option, none, some, List, [], ◌∷◌}
use auklet_client_c.Prelude.Int.{pos}
use auklet_client_c.Clock.{Time, zero_time}
use auklet_client_c.Broker.Message.{Message}
use auklet_client_c.Api.DataLimit.{CellularConfig}
use auklet_client_c.Message.Persistor.{Persistor, Doc}
use auklet_client_c.Message.Limiter.State.{
  DataLimiter, State, initial, under_budget, over_budget, cleanup, decode, start_this_period,
  initial_state, handle_message, apply, cleanup_state,
}

-- What `select` takes: the timer's expiry, a message, the end of the input, a configuration. The
-- time is what `time.Now()` then returns.
pub data Event : Type 0 where
  expired : Time → Event
  received : Message → Event
  closed : Event
  configured : CellularConfig → Time → Event

module _ (P : Persistor) where
  abbrev pub Machine : Type 0
  Machine = State × DataLimiter P.State

  -- `underBudget`
  under_budget_state : Event → DataLimiter P.State → Machine
  unfolding start_this_period handle_message apply
  under_budget_state (expired now) l = (initial, start_this_period P now l)
  under_budget_state (received m) l = handle_message P m l
  under_budget_state closed l = (cleanup, l)
  under_budget_state (configured conf now) l = apply P conf now l

  -- `overBudget`: a message is dropped.
  over_budget_state : Event → DataLimiter P.State → Machine
  unfolding start_this_period apply
  over_budget_state (expired now) l = (initial, start_this_period P now l)
  over_budget_state (received m) l = (over_budget, l)
  over_budget_state closed l = (cleanup, l)
  over_budget_state (configured conf now) l = apply P conf now l

  -- The states that wait for nothing run on to one that waits, or to the end.
  unfoldable pub settle : State → DataLimiter P.State → Machine
  unfolding initial_state cleanup_state
  settle initial l = initial_state P l
  settle cleanup l = cleanup_state P l
  settle s l = (s, l)

  unfoldable pub select : Event → State → DataLimiter P.State → Machine
  unfolding under_budget_state over_budget_state
  select e under_budget l = under_budget_state e l
  select e over_budget l = over_budget_state e l
  select e s l = (s, l)

  -- One event in the state that waits for it, and what follows by itself.
  unfoldable pub step : Event → State → DataLimiter P.State → Machine
  unfolding settle select
  step e s l = let (s', l') = select e s l in settle s' l'

  -- `serve` on the events that come; with no more of them it waits.
  unfoldable pub serve_from : List Event → State → DataLimiter P.State → Machine
  serve_from [] s l = (s, l)
  serve_from (e ∷ es) s l = let (s', l') = step e s l in serve_from es s' l'

  unfoldable pub serve : List Event → DataLimiter P.State → Machine
  unfolding serve_from settle
  serve es l = let (s, l') = settle initial l in serve_from es s l'

  abbrev empty_limiter : P.State → DataLimiter P.State
  empty_limiter store = record {
    budget = pos 0;
    has_budget = false;
    count = pos 0;
    period_end = zero_time;
    period_timer = none;
    store = store;
    out = [];
    out_closed = false;
  }

  load_into : Option Doc → DataLimiter P.State → DataLimiter P.State
  unfolding decode
  load_into none l = l
  load_into (some d) l = decode d l

  -- `NewDataLimiter`, before its loop starts. If nothing is loaded there is no budget.
  unfoldable pub new_data_limiter : P.State → DataLimiter P.State
  unfolding load_into
  new_data_limiter store = load_into (P.load store) (empty_limiter store)
