-- ===== src/Client/Polling/Unread.antt =====
-- The polling after the requester has ended, so that nobody receives from its channel.
use auklet_client_c.Prelude.{
  ℕ, suc, ◌+◌, ◌≤◌, ◌≡◌, refl, ap, Option, none, some, List, [], ◌∷◌, map, Result, ok, err, length,
  length-append, arith,
}
use auklet_client_c.Prelude.Int.{ℤ}
use auklet_client_c.Api.DataLimit.{DataLimit, CellularConfig}
use auklet_client_c.Client.Polling.{
  Stage, idle, to_persistor, to_requester, to_limiter, Polling, Move, poll, send, read_persistor,
  read_requester, read_limiter, new_polling, answered, send_storage, send_period, send_cellular,
  send_next, move, run,
}
use auklet_client_c.Client.Polling.Answers.{run-IsPolling, IsPolling-run, sent, for_limiter}

-- Nobody receives from the requester's channel.
abbrev pub IsUnread : List Move → Type 0
IsUnread [] = Unit {0}
IsUnread (read_requester ∷ ms) = ⊥
IsUnread (_ ∷ ms) = IsUnread ms

abbrev free : Option ℤ → ℕ
free none = 1
free (some _) = 0

-- How many answers can still be taken before the goroutine waits for the requester.
abbrev remaining : Stage → Option ℤ → ℕ
remaining idle o = suc (free o)
remaining (to_persistor dl) o = free o
remaining (to_requester dl) o = free o
remaining (to_limiter dl) o = suc (free o)

abbrev most : Polling → ℕ
most s = length s.polled + remaining s.stage s.requester.held

most-answered :
    (g : Stage) (r : Result DataLimit) (s : Polling) → s.stage ≡ g → most (answered g r s) ≤ most s
unfolding answered
most-answered idle (err e) s h = omega arith
most-answered idle (ok dl) s h = rw h (omega (arith, length-append s.polled (dl ∷ [])))
most-answered (to_persistor d) r s h = omega arith
most-answered (to_requester d) r s h = omega arith
most-answered (to_limiter d) r s h = omega arith

most-send_storage :
    (o : Option (Option ℤ)) (d : DataLimit) (s : Polling)
    → s.stage ≡ to_persistor d
    → most (send_storage o d s) ≤ most s
unfolding send_storage
most-send_storage (some x) d s h = omega arith
most-send_storage none d s h = rw h (omega arith)

most-send_period :
    (o : Option ℤ) (d : DataLimit) (s : Polling)
    → s.requester.held ≡ o
    → s.stage ≡ to_requester d
    → most (send_period o d s) ≤ most s
unfolding send_period
most-send_period (some x) d s e h = omega arith
most-send_period none d s e h = rw (h, e) (omega arith)

most-send_cellular :
    (o : Option CellularConfig) (d : DataLimit) (s : Polling)
    → s.stage ≡ to_limiter d
    → most (send_cellular o d s) ≤ most s
unfolding send_cellular
most-send_cellular (some x) d s h = omega arith
most-send_cellular none d s h = rw h (omega arith)

most-send_next : (g : Stage) (s : Polling) → s.stage ≡ g → most (send_next g s) ≤ most s
unfolding send_next
most-send_next idle s h = omega arith
most-send_next (to_persistor d) s h = most-send_storage s.persistor.held d s h
most-send_next (to_requester d) s h = most-send_period s.requester.held d s refl h
most-send_next (to_limiter d) s h = most-send_cellular s.limiter.held d s h

most-move : (m : Move) (s : Polling) → IsUnread (m ∷ []) → most (move m s) ≤ most s
unfolding move
most-move (poll r) s h = most-answered s.stage r s refl
most-move send s h = most-send_next s.stage s refl
most-move read_persistor s h = omega arith
most-move read_requester s h = absurd h
most-move read_limiter s h = omega arith

IsUnread-first : (m : Move) (ms : List Move) → IsUnread (m ∷ ms) → IsUnread (m ∷ []) × IsUnread ms
IsUnread-first (poll r) ms h = (tt, h)
IsUnread-first send ms h = (tt, h)
IsUnread-first read_persistor ms h = (tt, h)
IsUnread-first read_requester ms h = absurd h
IsUnread-first read_limiter ms h = (tt, h)

most-run : (ms : List Move) (s : Polling) → IsUnread ms → most (run ms s) ≤ most s
unfolding run
most-run [] s h = omega arith
most-run (m ∷ ms) s h =
    let parts = IsUnread-first m ms h in
    omega (arith, most-move m s parts.0, most-run ms (move m s) parts.1)

most-bounded : (s : Polling) → most s ≤ length s.polled + 2
most-bounded s = bounded s.stage s.requester.held (length s.polled)
  where
    bounded : (g : Stage) (o : Option ℤ) (n : ℕ) → n + remaining g o ≤ n + 2
    bounded idle none n = omega arith
    bounded idle (some x) n = omega arith
    bounded (to_persistor d) none n = omega arith
    bounded (to_persistor d) (some x) n = omega arith
    bounded (to_requester d) none n = omega arith
    bounded (to_requester d) (some x) n = omega arith
    bounded (to_limiter d) none n = omega arith
    bounded (to_limiter d) (some x) n = omega arith

length-map : {A B : Type 0} → (f : A → B) (xs : List A) → length (map f xs) ≡ length xs
length-map f [] = refl
length-map f (x ∷ xs) = ap suc (length-map f xs)

-- Once nobody receives from the requester's channel, however the others go on and however often
-- the backend is asked: at most two more of its answers are taken, and all that the limiter is ever
-- sent are as many configurations.
pub run_unread :
    (before after : List Move)
    → IsUnread after
    → let s = run before new_polling in
      let s' = run after s in
      (length s'.polled ≤ length s.polled + 2) × (length (sent s'.limiter) ≤ length s.polled + 2)
run_unread before after h =
    let s = run before new_polling in
    let s' = run after s in
    let bound : length s'.polled ≤ length s.polled + 2 =
      omega (arith, most-run after s h, most-bounded s) in
    (
      bound,
      omega (
        arith,
        bound,
        length-append (sent s'.limiter) (for_limiter s'.stage),
        ap length (IsPolling-run after s (run-IsPolling before)).cellulars,
        length-map (λ (d : DataLimit). d.cellular) s'.polled,
      ),
    )
