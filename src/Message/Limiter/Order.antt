-- ===== src/Message/Limiter/Order.antt =====
-- Any run of the limiter: what it sends of what it received, and the closing of its output.
use auklet_client_c.Prelude.{
  ◌≡◌, refl, sym, ap, ◌∙◌, ◌⊎◌, inl, inr, List, [], ◌∷◌, ◌++◌, append-nil, append_assoc, arith,
}
use auklet_client_c.Prelude.Subsequences.{IsSubsequence, done, keep, drop}
use auklet_client_c.Broker.Message.{Message}
use auklet_client_c.Message.Persistor.{Persistor}
use auklet_client_c.Message.Limiter.State.{DataLimiter, State, initial, under_budget}
use auklet_client_c.Message.Limiter.Run.{
  Event, expired, received, closed, configured, serve_from, serve, step, settle,
}

-- The messages of a row of events.
abbrev pub messages : List Event → List Message
messages [] = []
messages (received m ∷ es) = m ∷ messages es
messages (_ ∷ es) = messages es

-- What a run sent: a subsequence of what came.
pub record SentOf {S : Type 0} (ms old : List Message) (r : DataLimiter S) : Type 0 where
  pub sent : List Message
  pub out_is : r.out ≡ old ++ sent
  pub is_part : IsSubsequence sent ms

module _ (P : Persistor) where
  pub step-received :
      (m : Message) (s : State) (l : DataLimiter P.State)
      → let out = (step P (received m) s l).1.out in (out ≡ l.out) ⊎ (out ≡ l.out ++ (m ∷ []))
  unfolding step
  step-received m under_budget l = ground arith
  step-received m s l = inl (ground arith)

  pub step-silent :
      (e : Event) (s : State) (l : DataLimiter P.State)
      → messages (e ∷ []) ≡ []
      → (step P e s l).1.out ≡ l.out
  unfolding step
  step-silent (received m) s l h = cc
  step-silent (expired now) s l h = ground arith
  step-silent closed s l h = ground arith
  step-silent (configured c now) s l h = ground arith

  SentOf-drop :
      (m : Message) (ms old old' : List Message) (r : DataLimiter P.State)
      → old' ≡ old
      → SentOf ms old' r
      → SentOf (m ∷ ms) old r
  SentOf-drop m ms old old' r e p = record {
    sent = p.sent;
    out_is = p.out_is ∙ ap (λ o. o ++ p.sent) e;
    is_part = drop p.is_part;
  }

  SentOf-keep :
      (m : Message) (ms old old' : List Message) (r : DataLimiter P.State)
      → old' ≡ old ++ (m ∷ [])
      → SentOf ms old' r
      → SentOf (m ∷ ms) old r
  SentOf-keep m ms old old' r e p = record {
    sent = m ∷ p.sent;
    out_is = p.out_is ∙ ap (λ o. o ++ p.sent) e ∙ append_assoc old (m ∷ []) p.sent;
    is_part = keep p.is_part;
  }

  SentOf-same :
      (ms old old' : List Message) (r : DataLimiter P.State)
      → old' ≡ old
      → SentOf ms old' r
      → SentOf ms old r
  SentOf-same ms old old' r e p = record {
    sent = p.sent;
    out_is = p.out_is ∙ ap (λ o. o ++ p.sent) e;
    is_part = p.is_part;
  }

  serve_from-SentOf :
      (es : List Event) (s : State) (l : DataLimiter P.State)
      → SentOf (messages es) l.out (serve_from P es s l).1
  unfolding serve_from
  serve_from-SentOf [] s l = record { sent = []; out_is = sym (append-nil l.out); is_part = done }
  serve_from-SentOf (received m ∷ es) s l =
      let rest = serve_from-SentOf es (step P (received m) s l).0 (step P (received m) s l).1 in
      elim (step-received m s l) [
        | inl e ↦ SentOf-drop m (messages es) l.out _ _ e rest
        | inr e ↦ SentOf-keep m (messages es) l.out _ _ e rest
      ]
  serve_from-SentOf (expired now ∷ es) s l =
      SentOf-same (messages es) l.out _ _ (step-silent (expired now) s l refl)
        (serve_from-SentOf es (step P (expired now) s l).0 (step P (expired now) s l).1)
  serve_from-SentOf (closed ∷ es) s l =
      SentOf-same (messages es) l.out _ _ (step-silent closed s l refl)
        (serve_from-SentOf es (step P closed s l).0 (step P closed s l).1)
  serve_from-SentOf (configured c now ∷ es) s l =
      SentOf-same (messages es) l.out _ _ (step-silent (configured c now) s l refl)
        (serve_from-SentOf es (step P (configured c now) s l).0 (step P (configured c now) s l).1)

  -- Whatever happens, and in whatever order, the limiter sends only what it received, each message
  -- once at most and in the order in which they came.
  pub serve-SentOf :
      (es : List Event) (l : DataLimiter P.State) → SentOf (messages es) l.out (serve P es l).1
  unfolding serve
  serve-SentOf es l = serve_from-SentOf es (settle P initial l).0 (settle P initial l).1
