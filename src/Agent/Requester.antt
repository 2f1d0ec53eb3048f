-- ===== src/Agent/Requester.antt =====
-- `PeriodicRequester` of agent/requester.go. Ticks, configurations and the cancellation come as a
-- list of events, in the order in which `select` takes them.
pub mod Failures
pub mod Ending
use auklet_client_c.Prelude.{
  ℕ, suc, ◌+◌, String, Bool, true, false, Option, none, some, List, [], ◌∷◌, ◌++◌, if◌then◌else◌,
}
use auklet_client_c.Prelude.Int.{ℤ, pos, ltb_ℤ}
use auklet_client_c.Prelude.Int64.{mul64}
use auklet_client_c.Broker.Message.{Message, error_message, log}

-- A tick brings the error of the write that it leads to, if there is one.
pub data Event : Type 0 where
  done : Event
  fired : Option String → Event
  configured : ℤ → Event

-- `run` goes on, has returned, or panicked in `time.NewTicker`, which wants a positive period.
pub data Status : Type 0 where
  running returned panicked : Status

-- `ticker` is the period in nanoseconds, `none` for a ticker that was stopped; `requests` counts the
-- bytes that were written.
pub record Requester : Type 0 where
  pub ticker : Option ℤ
  pub prev_err : Option String
  pub requests : ℕ
  pub out : List Message
  pub out_closed : Bool
  pub status : Status

abbrev pub second : ℤ
second = pos 1000000000

-- `NewPeriodicRequester` and the first lines of `run`.
unfoldable pub new_periodic_requester : Requester
new_periodic_requester = record {
  ticker = some second;
  prev_err = none;
  requests = 0;
  out = [];
  out_closed = false;
  status = running;
}

-- `return`, with the deferred close of the output.
unfoldable pub leave : Requester → Requester
leave r = record r { out_closed = true; status = returned }

-- A write error: the second one ends the requester.
unfoldable pub write_error : Option String → String → Requester → Requester
unfolding leave
write_error none e r = record r { prev_err = some e }
write_error (some _) e r = leave (record r { out = r.out ++ (error_message e log ∷ []) })

-- `time.NewTicker`; its panic runs the deferred close too.
new_ticker : ℤ → Requester → Requester
new_ticker period r =
    if ltb_ℤ (pos 0) period
    then record r { ticker = some period }
    else record r { out_closed = true; status = panicked }

unfoldable pub set_period : ℤ → Requester → Requester
unfolding new_ticker
set_period dur r =
    let stopped = record r { ticker = none } in
    if ltb_ℤ (pos 0) dur then new_ticker (mul64 dur second) stopped else stopped

unfoldable pub react : Event → Requester → Requester
unfolding write_error set_period
react done r = leave r
react (fired none) r = record r { requests = suc r.requests }
react (fired (some e)) r = write_error r.prev_err e r
react (configured dur) r = set_period dur r

unfoldable pub go_on : Status → (Requester → Requester) → Requester → Requester
go_on running f r = f r
go_on returned f r = r
go_on panicked f r = r

-- The loop of `run` on the events that come.
unfoldable pub run : List Event → Requester → Requester
unfolding react go_on
run [] r = r
run (e ∷ es) r = let r' = react e r in go_on r'.status (run es) r'
