-- ===== src/Message/Limiter/Unlimited.antt =====
-- A limiter with no budget.
use auklet_client_c.Prelude.{
  ◌≡◌, refl, sym, ap, ◌∙◌, false, List, [], ◌∷◌, ◌++◌, map, append-nil, append_assoc, arith,
}
use auklet_client_c.Broker.Message.{Message}
use auklet_client_c.Message.Persistor.{Persistor}
use auklet_client_c.Message.Limiter.State.{DataLimiter, State, under_budget}
use auklet_client_c.Message.Limiter.Run.{received, serve_from, serve, step}

module _ (P : Persistor) where
  step_unlimited :
      (m : Message) (l : DataLimiter P.State)
      → l.has_budget ≡ false
      → let r = step P (received m) under_budget l in
        (r.0 ≡ under_budget) × (r.1.has_budget ≡ false) × (r.1.out ≡ l.out ++ (m ∷ []))
  unfolding step
  step_unlimited m l h = ground (arith, h)

  serve_from_unlimited :
      (ms : List Message) (l : DataLimiter P.State)
      → l.has_budget ≡ false
      → let r = serve_from P (map received ms) under_budget l in
        (r.0 ≡ under_budget) × (r.1.out ≡ l.out ++ ms)
  unfolding serve_from
  serve_from_unlimited [] l h = (refl, sym (append-nil l.out))
  serve_from_unlimited (m ∷ ms) l h =
      let one = step_unlimited m l h in
      let rest = serve_from_unlimited ms (step P (received m) under_budget l).1 one.1 in
      let start =
        ap (λ s. serve_from P (map received ms) s (step P (received m) under_budget l).1) one.0 in
      (
        ap (λ (r : State × DataLimiter P.State). r.0) start ∙ rest.0,
        ap (λ (r : State × DataLimiter P.State). r.1.out) start
            ∙ rest.1
            ∙ ap (λ o. o ++ ms) one.2
            ∙ append_assoc l.out (m ∷ []) ms,
      )

  -- With no budget every message is sent, in order, whether or not the count can be saved, and the
  -- limiter is ready for more.
  pub serve_unlimited :
      (ms : List Message) (l : DataLimiter P.State)
      → l.has_budget ≡ false
      → let r = serve P (map received ms) l in (r.0 ≡ under_budget) × (r.1.out ≡ l.out ++ ms)
  unfolding serve
  serve_unlimited ms l h = rw h (serve_from_unlimited ms _ refl)
