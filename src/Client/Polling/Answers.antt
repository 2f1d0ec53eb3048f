-- ===== src/Client/Polling/Answers.antt =====
-- Which of the backend's answers the readers get.
use auklet_client_c.Prelude.{
  ◌≡◌, refl, sym, ap, ◌∙◌, Option, none, some, List, [], ◌∷◌, ◌++◌, map, Result, ok, err,
  append-nil, append_assoc,
}
use mathlib.Core.List.{map-append}
use auklet_client_c.Prelude.Int.{ℤ}
use auklet_client_c.Api.DataLimit.{DataLimit, CellularConfig}
use auklet_client_c.Client.Polling.{
  Slot, Stage, idle, to_persistor, to_requester, to_limiter, Polling, Move, poll, send,
  read_persistor, read_requester, read_limiter, new_polling, take, take_held, answered,
  send_storage, send_period, send_cellular, send_next, move, run,
}

abbrev held_list : {A : Type 0} → Option A → List A
held_list none = []
held_list (some x) = x ∷ []

-- What was sent to a channel.
abbrev pub sent : {A : Type 0} → Slot A → List A
sent c = c.taken ++ held_list c.held

-- What is still to be sent to each channel.
abbrev pub for_persistor : Stage → List (Option ℤ)
for_persistor (to_persistor dl) = dl.storage ∷ []
for_persistor _ = []

abbrev pub for_requester : Stage → List ℤ
for_requester idle = []
for_requester (to_persistor dl) = dl.emission_period ∷ []
for_requester (to_requester dl) = dl.emission_period ∷ []
for_requester (to_limiter dl) = []

abbrev pub for_limiter : Stage → List CellularConfig
for_limiter idle = []
for_limiter (to_persistor dl) = dl.cellular ∷ []
for_limiter (to_requester dl) = dl.cellular ∷ []
for_limiter (to_limiter dl) = dl.cellular ∷ []

-- What was sent to each channel and what is still to be sent are the answers' parts, in order.
pub record IsPolling (s : Polling) : Type 0 where
  pub limits : sent s.persistor ++ for_persistor s.stage ≡ map (λ d. d.storage) s.polled
  pub periods : sent s.requester ++ for_requester s.stage ≡ map (λ d. d.emission_period) s.polled
  pub cellulars : sent s.limiter ++ for_limiter s.stage ≡ map (λ d. d.cellular) s.polled

sent-take : {A : Type 0} → (c : Slot A) → sent (take c) ≡ sent c
unfolding take
sent-take c = taken c.held c refl
  where
    taken : {A : Type 0} → (o : Option A) (c : Slot A) → c.held ≡ o → sent (take_held o c) ≡ sent c
    taken none c h = refl
    taken (some x) c h = rw h (append-nil (c.taken ++ (x ∷ [])))

-- A new answer is still to be sent.
asked :
    {A : Type 0}
    → (f : DataLimit → A) (xs : List A) (ds : List DataLimit) (dl : DataLimit) → xs ++ [] ≡ map f ds
    → xs ++ (f dl ∷ []) ≡ map f (ds ++ (dl ∷ []))
asked f xs ds dl h =
    ap (λ l. l ++ (f dl ∷ [])) (sym (append-nil xs) ∙ h) ∙ sym (map-append f ds (dl ∷ []))

-- A value is put into an empty channel.
filled :
    {A : Type 0}
    → (c : Slot A) (x : A) (rest : List A) → c.held ≡ none
    → sent (record c { held = some x }) ++ rest ≡ sent c ++ (x ∷ rest)
filled c x rest h =
    rw h (append_assoc c.taken (x ∷ []) rest ∙ ap (λ l. l ++ (x ∷ rest)) (sym (append-nil c.taken)))

IsPolling-answered :
    (g : Stage) (r : Result DataLimit) (s : Polling)
    → s.stage ≡ g
    → IsPolling s
    → IsPolling (answered g r s)
unfolding answered
IsPolling-answered idle (err e) s h v = record {
  limits = v.limits;
  periods = v.periods;
  cellulars = v.cellulars;
}
IsPolling-answered idle (ok dl) s h v = record {
  limits =
      asked (λ d. d.storage) (sent s.persistor) s.polled dl
        (ap (λ g. sent s.persistor ++ for_persistor g) (sym h) ∙ v.limits);
  periods =
      asked (λ d. d.emission_period) (sent s.requester) s.polled dl
        (ap (λ g. sent s.requester ++ for_requester g) (sym h) ∙ v.periods);
  cellulars =
      asked (λ d. d.cellular) (sent s.limiter) s.polled dl
        (ap (λ g. sent s.limiter ++ for_limiter g) (sym h) ∙ v.cellulars);
}
IsPolling-answered (to_persistor d) r s h v = v
IsPolling-answered (to_requester d) r s h v = v
IsPolling-answered (to_limiter d) r s h v = v

-- The same with another stage that asks for the same.
IsPolling-send_storage :
    (o : Option (Option ℤ)) (dl : DataLimit) (s : Polling)
    → s.persistor.held ≡ o
    → s.stage ≡ to_persistor dl
    → IsPolling s
    → IsPolling (send_storage o dl s)
unfolding send_storage
IsPolling-send_storage (some x) dl s free h v = v
IsPolling-send_storage none dl s free h v = record {
  limits =
      filled s.persistor dl.storage [] free
      ∙ ap (λ g. sent s.persistor ++ for_persistor g) (sym h)
      ∙ v.limits;
  periods = ap (λ g. sent s.requester ++ for_requester g) (sym h) ∙ v.periods;
  cellulars = ap (λ g. sent s.limiter ++ for_limiter g) (sym h) ∙ v.cellulars;
}

IsPolling-send_period :
    (o : Option ℤ) (dl : DataLimit) (s : Polling)
    → s.requester.held ≡ o
    → s.stage ≡ to_requester dl
    → IsPolling s
    → IsPolling (send_period o dl s)
unfolding send_period
IsPolling-send_period (some x) dl s free h v = v
IsPolling-send_period none dl s free h v = record {
  limits = ap (λ g. sent s.persistor ++ for_persistor g) (sym h) ∙ v.limits;
  periods =
      filled s.requester dl.emission_period [] free
      ∙ ap (λ g. sent s.requester ++ for_requester g) (sym h)
      ∙ v.periods;
  cellulars = ap (λ g. sent s.limiter ++ for_limiter g) (sym h) ∙ v.cellulars;
}

IsPolling-send_cellular :
    (o : Option CellularConfig) (dl : DataLimit) (s : Polling)
    → s.limiter.held ≡ o
    → s.stage ≡ to_limiter dl
    → IsPolling s
    → IsPolling (send_cellular o dl s)
unfolding send_cellular
IsPolling-send_cellular (some x) dl s free h v = v
IsPolling-send_cellular none dl s free h v = record {
  limits = ap (λ g. sent s.persistor ++ for_persistor g) (sym h) ∙ v.limits;
  periods = ap (λ g. sent s.requester ++ for_requester g) (sym h) ∙ v.periods;
  cellulars =
      filled s.limiter dl.cellular [] free
      ∙ ap (λ g. sent s.limiter ++ for_limiter g) (sym h)
      ∙ v.cellulars;
}

IsPolling-send_next :
    (g : Stage) (s : Polling) → s.stage ≡ g → IsPolling s → IsPolling (send_next g s)
unfolding send_next
IsPolling-send_next idle s h v = v
IsPolling-send_next (to_persistor dl) s h v = IsPolling-send_storage s.persistor.held dl s refl h v
IsPolling-send_next (to_requester dl) s h v = IsPolling-send_period s.requester.held dl s refl h v
IsPolling-send_next (to_limiter dl) s h v = IsPolling-send_cellular s.limiter.held dl s refl h v

IsPolling-move : (m : Move) (s : Polling) → IsPolling s → IsPolling (move m s)
unfolding move
IsPolling-move (poll r) s v = IsPolling-answered s.stage r s refl v
IsPolling-move send s v = IsPolling-send_next s.stage s refl v
IsPolling-move read_persistor s v = record {
  limits = ap (λ l. l ++ for_persistor s.stage) (sent-take s.persistor) ∙ v.limits;
  periods = v.periods;
  cellulars = v.cellulars;
}
IsPolling-move read_requester s v = record {
  limits = v.limits;
  periods = ap (λ l. l ++ for_requester s.stage) (sent-take s.requester) ∙ v.periods;
  cellulars = v.cellulars;
}
IsPolling-move read_limiter s v = record {
  limits = v.limits;
  periods = v.periods;
  cellulars = ap (λ l. l ++ for_limiter s.stage) (sent-take s.limiter) ∙ v.cellulars;
}

pub IsPolling-run : (ms : List Move) (s : Polling) → IsPolling s → IsPolling (run ms s)
unfolding run
IsPolling-run [] s v = v
IsPolling-run (m ∷ ms) s v = IsPolling-run ms (move m s) (IsPolling-move m s v)

-- Whatever the order of the moves: what was sent to the persistor, the requester and the limiter,
-- and what the goroutine still has to send to each, are the storage limits, the emission periods and
-- the cellular configurations of all of the backend's answers, in their order.
pub run-IsPolling : (ms : List Move) → IsPolling (run ms new_polling)
run-IsPolling ms =
    IsPolling-run ms new_polling (record { limits = refl; periods = refl; cellulars = refl })
