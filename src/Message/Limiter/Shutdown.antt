-- ===== src/Message/Limiter/Shutdown.antt =====
-- The end of the limiter's loop.
use auklet_client_c.Prelude.{◌≡◌, refl, ap, ◌∙◌, ◌⊎◌, Bool, true, false, List, [], ◌∷◌, ◌++◌, arith}
use auklet_client_c.Message.Persistor.{Persistor}
use auklet_client_c.Message.Limiter.State.{
  DataLimiter, State, terminal, initial, under_budget, over_budget,
}
use auklet_client_c.Message.Limiter.Run.{
  Event, expired, received, closed, configured, serve_from, serve, step, settle,
}

-- Between two events the limiter waits with its output open, or has ended with its output closed.
abbrev pub IsIdle {ℓ} : {D : Type ℓ} → (D → Bool) → State × D → Type 0
IsIdle closed_of r =
    (((r.0 ≡ under_budget) ⊎ (r.0 ≡ over_budget)) × (closed_of r.1 ≡ false))
    ⊎ ((r.0 ≡ terminal) × (closed_of r.1 ≡ true))

module _ (P : Persistor) where
  abbrev pub IsIdleMachine : State × DataLimiter P.State → Type 0
  IsIdleMachine = IsIdle (λ l. l.out_closed)

  pub step-IsIdle :
      (e : Event) (s : State) (l : DataLimiter P.State)
      → IsIdleMachine (s, l)
      → IsIdleMachine (step P e s l)
  unfolding step
  step-IsIdle (expired now) s l h = ground arith
  step-IsIdle (received m) s l h = ground arith
  step-IsIdle closed s l h = ground arith
  step-IsIdle (configured c now) s l h = ground arith

  serve_from-IsIdle :
      (es : List Event) (s : State) (l : DataLimiter P.State)
      → IsIdleMachine (s, l)
      → IsIdleMachine (serve_from P es s l)
  unfolding serve_from
  serve_from-IsIdle [] s l h = h
  serve_from-IsIdle (e ∷ es) s l h =
      serve_from-IsIdle es (step P e s l).0 (step P e s l).1 (step-IsIdle e s l h)

  pub settle-IsIdle :
      (l : DataLimiter P.State) → l.out_closed ≡ false → IsIdleMachine (settle P initial l)
  unfolding settle
  settle-IsIdle l h = ground arith

  -- A run from the start always waits in one of the two budget states with its output open, or has
  -- ended with its output closed.
  pub serve-IsIdle :
      (es : List Event) (l : DataLimiter P.State)
      → l.out_closed ≡ false
      → IsIdleMachine (serve P es l)
  unfolding serve
  serve-IsIdle es l h = serve_from-IsIdle es _ _ (settle-IsIdle l h)

  serve_from_ended :
      (es : List Event) (l : DataLimiter P.State) → serve_from P es terminal l ≡ (terminal, l)
  unfolding serve_from step
  serve_from_ended [] l = refl
  serve_from_ended (e ∷ es) l = serve_from_ended es l

  pub serve_from-append :
      (es fs : List Event) (s : State) (l : DataLimiter P.State)
      → serve_from P (es ++ fs) s l
        ≡ serve_from P fs (serve_from P es s l).0 (serve_from P es s l).1
  unfolding serve_from
  serve_from-append [] fs s l = refl
  serve_from-append (e ∷ es) fs s l = serve_from-append es fs (step P e s l).0 (step P e s l).1

  pub step-closed :
      (s : State) (l : DataLimiter P.State)
      → IsIdleMachine (s, l)
      → step P closed s l ≡ (terminal, record l { out_closed = true })
  unfolding step
  step-closed s l h = ground arith

  close_ends :
      (fs : List Event) (r : State × DataLimiter P.State)
      → IsIdleMachine r
      → serve_from P (closed ∷ fs) r.0 r.1 ≡ (terminal, record r.1 { out_closed = true })
  unfolding serve_from
  close_ends fs r h =
      ap (λ (q : State × DataLimiter P.State). serve_from P fs q.0 q.1) (step-closed r.0 r.1 h)
      ∙ serve_from_ended fs (record r.1 { out_closed = true })

  -- When the input closes, the loop ends with the output closed, and with nothing else changed: what
  -- was sent and counted stands, and no later event has an effect.
  pub serve-closed :
      (es fs : List Event) (l : DataLimiter P.State)
      → l.out_closed ≡ false
      → serve P (es ++ closed ∷ fs) l ≡ (terminal, record (serve P es l).1 { out_closed = true })
  unfolding serve
  serve-closed es fs l h =
      serve_from-append es (closed ∷ fs) _ _ ∙ close_ends fs (serve P es l) (serve-IsIdle es l h)
