-- ===== src/Tests/Polling.antt =====
-- Two answers of the backend, and a requester that has ended.
use auklet_client_c.Prelude.{ℕ, ◌+◌, ◌≤◌, ◌≡◌, refl, none, List, [], ◌∷◌, length, ok, err, true}
use auklet_client_c.Prelude.Int.{pos}
use auklet_client_c.Api.DataLimit.{DataLimit}
use auklet_client_c.Client.Polling.{
  idle, Move, poll, send, read_persistor, read_requester, read_limiter, new_polling, move, run,
  take,
}
use auklet_client_c.Client.Polling.Answers.{IsPolling, run-IsPolling, sent}
use auklet_client_c.Client.Polling.Unread.{run_unread}

abbrev answer : ℕ → DataLimit
answer n = record {
  storage = none;
  emission_period = pos n;
  cellular = record { date = pos 1; defined = true; limit = pos n };
}

abbrev round : List Move
round =
    poll (ok (answer 5))
    ∷ send
    ∷ read_persistor
    ∷ send
    ∷ read_requester
    ∷ send
    ∷ read_limiter
    ∷ poll (err "no network")
    ∷ []

-- Everyone has got the answer, and the goroutine waits for the next tick.
run_test : run round new_polling ≡ record {
  persistor = record { taken = none ∷ []; held = none };
  requester = record { taken = pos 5 ∷ []; held = none };
  limiter = record { taken = (answer 5).cellular ∷ []; held = none };
  stage = idle;
  polled = answer 5 ∷ [];
  logged = "no network" ∷ [];
}
unfolding run move take
run_test = refl

run-IsPolling_example : IsPolling (run round new_polling)
run-IsPolling_example = run-IsPolling round

abbrev without_requester : List Move
without_requester =
    poll (ok (answer 6))
    ∷ send
    ∷ send
    ∷ send
    ∷ read_persistor
    ∷ read_limiter
    ∷ poll (ok (answer 7))
    ∷ send
    ∷ send
    ∷ poll (ok (answer 8))
    ∷ send
    ∷ []

run_unread_example :
    let s = run round new_polling in
    let s' = run without_requester s in
    (length s'.polled ≤ length s.polled + 2) × (length (sent s'.limiter) ≤ length s.polled + 2)
run_unread_example = run_unread round without_requester tt

-- The second answer has not reached the limiter, and the third was not asked for.
run_unread_test :
    let s = run without_requester (run round new_polling) in
    (length s.polled ≡ 3) × (length (sent s.limiter) ≡ 2)
unfolding run move take
run_unread_test = (refl, refl)
