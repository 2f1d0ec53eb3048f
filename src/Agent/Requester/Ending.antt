-- ===== src/Agent/Requester/Ending.antt =====
-- The requester after it has ended, and its output.
use auklet_client_c.Prelude.{◌≡◌, refl, ◌⊎◌, inr, true, false, inl, arith}
use auklet_client_c.Agent.Requester.{
  Event, done, fired, configured, Requester, Status, running, returned, panicked, react, go_on,
  leave, write_error, set_period, new_ticker,
}

-- The requester runs, or its output is closed.
abbrev pub Asks : Requester → Type 0
Asks r = (r.status ≡ running) ⊎ (r.out_closed ≡ true)

Asks-react : (e : Event) (r : Requester) → r.status ≡ running → Asks (react e r)
unfolding react leave write_error set_period new_ticker
Asks-react done r h = inr refl
Asks-react (fired o) r h = ground arith
Asks-react (configured d) r h = ground arith

pub Asks-go_on :
    (s : Status) (e : Event) (r : Requester) → r.status ≡ s → Asks r → Asks (go_on s (react e) r)
unfolding go_on
Asks-go_on running e r h a = Asks-react e r h
Asks-go_on returned e r h a = a
Asks-go_on panicked e r h a = a

-- The output is open, or the requester does not run any more.
abbrev pub Exclusive : Requester → Type 0
Exclusive r = (r.out_closed ≡ false) ⊎ ((r.status ≡ returned) ⊎ (r.status ≡ panicked))

open-running : (r : Requester) → r.status ≡ running → Exclusive r → r.out_closed ≡ false
open-running r h (inl opened) = opened
open-running r h (inr (inl gone)) = cc
open-running r h (inr (inr gone)) = cc

Exclusive-react :
    (e : Event) (r : Requester) → r.status ≡ running → r.out_closed ≡ false → Exclusive (react e r)
unfolding react leave write_error set_period new_ticker
Exclusive-react done r h k = inr (inl refl)
Exclusive-react (fired o) r h k = ground arith
Exclusive-react (configured d) r h k = ground arith

pub Exclusive-go_on :
    (s : Status) (e : Event) (r : Requester)
    → r.status ≡ s
    → Exclusive r
    → Exclusive (go_on s (react e) r)
unfolding go_on
Exclusive-go_on running e r h x = Exclusive-react e r h (open-running r h x)
Exclusive-go_on returned e r h x = x
Exclusive-go_on panicked e r h x = x

go_on-stopped :
    (f : Requester → Requester) (s : Status) (r : Requester)
    → (s ≡ returned) ⊎ (s ≡ panicked)
    → go_on s f r ≡ r
unfolding go_on
go_on-stopped f running r h = ground arith
go_on-stopped f returned r h = refl
go_on-stopped f panicked r h = refl

-- After the close nothing changes.
pub go_on-closed :
    (e : Event) (r : Requester) → r.out_closed ≡ true → Exclusive r → go_on r.status (react e) r ≡ r
go_on-closed e r h (inl opened) = cc
go_on-closed e r h (inr gone) = go_on-stopped (react e) r.status r gone
