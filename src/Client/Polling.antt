-- ===== src/Client/Polling.antt =====
-- `pollConfig` of cmd/client/main.go: a goroutine that asks the backend and sends to three channels,
-- each with room for one value, and the three readers, in any order.
pub mod Answers
pub mod Unread
use auklet_client_c.Prelude.{
  ℕ, ◌+◌, String, Option, none, some, List, [], ◌∷◌, ◌++◌, map, Result, ok, err,
}
use auklet_client_c.Prelude.Int.{ℤ}
use auklet_client_c.Api.DataLimit.{DataLimit, CellularConfig}

-- A channel with room for one value: what was received from it, and what it holds.
pub record Slot (A : Type 0) : Type 0 where
  pub taken : List A
  pub held : Option A

-- The goroutine waits for the next tick, or has an answer to send: to all three, to the last two, or
-- to the limiter.
pub data Stage : Type 0 where
  idle : Stage
  to_persistor to_requester to_limiter : DataLimit → Stage

-- `configChans`, with the goroutine. `polled` are the answers of the backend, `logged` its errors.
pub record Polling : Type 0 where
  pub persistor : Slot (Option ℤ)
  pub requester : Slot ℤ
  pub limiter : Slot CellularConfig
  pub stage : Stage
  pub polled : List DataLimit
  pub logged : List String

-- The goroutine polls, which it does not while it has something to send, or sends; or a reader
-- receives. A move that is not possible is not made.
pub data Move : Type 0 where
  poll : Result DataLimit → Move
  send read_persistor read_requester read_limiter : Move

abbrev pub empty_slot : {A : Type 0} → Slot A
empty_slot = record { taken = []; held = none }

-- The channels as `pollConfig` makes them.
abbrev pub new_polling : Polling
new_polling = record {
  persistor = empty_slot;
  requester = empty_slot;
  limiter = empty_slot;
  stage = idle;
  polled = [];
  logged = [];
}

module _ {A : Type 0} where
  take_held : Option A → Slot A → Slot A
  take_held none c = c
  take_held (some x) c = record { taken = c.taken ++ (x ∷ []); held = none }

  -- A receive.
  unfoldable pub take : Slot A → Slot A
  unfolding take_held
  take c = take_held c.held c

answered : Stage → Result DataLimit → Polling → Polling
answered idle (err e) s = record s { logged = s.logged ++ (e ∷ []) }
answered idle (ok dl) s = record s { stage = to_persistor dl; polled = s.polled ++ (dl ∷ []) }
answered _ r s = s

send_storage : Option (Option ℤ) → DataLimit → Polling → Polling
send_storage (some _) dl s = s
send_storage none dl s = record s {
  persistor = record s.persistor { held = some dl.storage };
  stage = to_requester dl;
}

send_period : Option ℤ → DataLimit → Polling → Polling
send_period (some _) dl s = s
send_period none dl s = record s {
  requester = record s.requester { held = some dl.emission_period };
  stage = to_limiter dl;
}

send_cellular : Option CellularConfig → DataLimit → Polling → Polling
send_cellular (some _) dl s = s
send_cellular none dl s = record s {
  limiter = record s.limiter { held = some dl.cellular };
  stage = idle;
}

-- The next send of the function `poll`, if there is room.
send_next : Stage → Polling → Polling
unfolding send_storage send_period send_cellular
send_next idle s = s
send_next (to_persistor dl) s = send_storage s.persistor.held dl s
send_next (to_requester dl) s = send_period s.requester.held dl s
send_next (to_limiter dl) s = send_cellular s.limiter.held dl s

unfoldable pub move : Move → Polling → Polling
unfolding answered send_next
move (poll r) s = answered s.stage r s
move send s = send_next s.stage s
move read_persistor s = record s { persistor = take s.persistor }
move read_requester s = record s { requester = take s.requester }
move read_limiter s = record s { limiter = take s.limiter }

unfoldable pub run : List Move → Polling → Polling
run [] s = s
run (m ∷ ms) s = run ms (move m s)
