-- ===== src/Agent/Requester/Failures.antt =====
-- When the requester ends.
use auklet_client_c.Prelude.{
  ℕ, suc, ◌*◌, ◌<◌, ◌≡◌, refl, sym, String, Bool, true, false, Option, none, some, List, [], ◌∷◌,
  ◌++◌, arith,
}
use mathlib.Core.Path.{subst}
use auklet_client_c.Prelude.Int.{ℤ, pos, negsuc}
use auklet_client_c.Prelude.Int64.{two_63, mul64-pos}
use auklet_client_c.Broker.Message.{Message, error_message, log}
use auklet_client_c.Agent.Requester.{
  Event, done, fired, configured, running, returned, Requester, second, run, new_periodic_requester,
  set_period, go_on,
}

-- The error of the second failed write before the cancellation, counting `one` as the first.
abbrev pub second_error : Bool → List Event → Option String
second_error one [] = none
second_error one (done ∷ es) = none
second_error one (fired none ∷ es) = second_error one es
second_error false (fired (some e) ∷ es) = second_error true es
second_error true (fired (some e) ∷ es) = some e
second_error one (configured dur ∷ es) = second_error one es

abbrev pub cancelled : List Event → Bool
cancelled [] = false
cancelled (done ∷ es) = true
cancelled (_ ∷ es) = cancelled es

-- Periods that do not overflow as nanoseconds.
abbrev pub Fits : ℤ → Type 0
Fits (pos n) = n * 1000000000 < two_63
Fits (negsuc n) = Unit {0}

abbrev pub AllFit : List Event → Type 0
AllFit [] = Unit {0}
AllFit (configured dur ∷ es) = Fits dur × AllFit es
AllFit (_ ∷ es) = AllFit es

abbrev pub report : Option String → List Message
report none = []
report (some e) = error_message e log ∷ []

abbrev pub is_some : {A : Type 0} → Option A → Bool
is_some none = false
is_some (some _) = true

-- A requester that runs.
abbrev pub live : Option ℤ → Option String → ℕ → List Message → Requester
live t p n o = record {
  ticker = t;
  prev_err = p;
  requests = n;
  out = o;
  out_closed = false;
  status = running;
}

set_period-live :
    (dur : ℤ) (t : Option ℤ) (p : Option String) (n : ℕ) (o : List Message)
    → Fits dur
    → (t' : Option ℤ) × (set_period dur (live t p n o) ≡ live t' p n o)
unfolding set_period
set_period-live (pos ℕ.zero) t p n o fits = (none, refl)
set_period-live (pos (suc d)) t p n o fits =
    (some (pos (suc d * 1000000000)), ground (arith, mul64-pos (suc d) 1000000000))
set_period-live (negsuc d) t p n o fits = (none, ground arith)

-- How a requester ends: it has sent the report, and has returned if there is one or it was
-- cancelled.
abbrev pub Ends : Option String → Bool → List Message → Requester → Type 0
Ends (some e) cancel old r =
    (r.status ≡ returned) × (r.out_closed ≡ true) × (r.out ≡ old ++ (error_message e log ∷ []))
Ends none true old r = (r.status ≡ returned) × (r.out_closed ≡ true) × (r.out ≡ old)
Ends none false old r = (r.status ≡ running) × (r.out_closed ≡ false) × (r.out ≡ old)

run-Ends :
    (es : List Event) (t : Option ℤ) (p : Option String) (n : ℕ) (o : List Message)
    → AllFit es
    → Ends (second_error (is_some p) es) (cancelled es) o (run es (live t p n o))
unfolding run
run-Ends [] t p n o fit = (refl, refl, refl)
run-Ends (done ∷ es) t p n o fit = (refl, refl, refl)
run-Ends (fired none ∷ es) t p n o fit = run-Ends es t p (suc n) o fit
run-Ends (fired (some e) ∷ es) t none n o fit = run-Ends es t (some e) n o fit
run-Ends (fired (some e) ∷ es) t (some old) n o fit = (refl, refl, refl)
run-Ends (configured dur ∷ es) t p n o fit =
    let live' = set_period-live dur t p n o fit.0 in
    subst (λ r. Ends (second_error (is_some p) es) (cancelled es) o (go_on r.status (run es) r))
      (sym live'.1) (run-Ends es live'.0 p n o fit.1)

-- The requester goes on until it is cancelled or a second write fails, however many writes have
-- succeeded in between. In the second case it sends a message with that write's error; in both it
-- closes its output. The configured periods do not overflow.
pub new_periodic_requester-Ends :
    (es : List Event)
    → AllFit es
    → Ends (second_error false es) (cancelled es) [] (run es new_periodic_requester)
unfolding new_periodic_requester
new_periodic_requester-Ends es fit = run-Ends es (some second) none 0 [] fit
