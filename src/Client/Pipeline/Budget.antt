-- ===== src/Client/Pipeline/Budget.antt =====
-- The pipeline and the data budget.
use auklet_client_c.Prelude.{
  ℕ, ◌+◌, ◌*◌, ◌≤◌, ◌<◌, ◌≡◌, refl, ap, ◌∙◌, String, List, [], ◌∷◌, ◌++◌, map, arith, max,
}
use auklet_client_c.Prelude.Int64.{two_63}
use auklet_client_c.Prelude.Subsequences.{IsSubsequence, done, keep, drop, take-IsSubsequence}
use auklet_client_c.Fsutil.{Fs}
use auklet_client_c.Agent.Message.{Message as AgentMessage, Decoded}
use auklet_client_c.Broker.Message.{Message}
use auklet_client_c.Broker.Store.{Text}
use auklet_client_c.Broker.Mqtt.{Client, Producer}
use auklet_client_c.Message.Persistor.{Persistor}
use auklet_client_c.Message.Limiter.State.{initial}
use auklet_client_c.Message.Limiter.Run.{
  Event, expired, received, closed, configured, Machine, settle, serve, new_data_limiter,
}
use auklet_client_c.Message.Limiter.Order.{messages}
use auklet_client_c.Message.Limiter.Budget.{Budgeted, total_bytes}
use auklet_client_c.Message.Limiter.Admission.{serve-within}
use auklet_client_c.Schema.Convert.{Codec, Config}
use auklet_client_c.Client.Channel.{Channel}
use auklet_client_c.Client.Pipeline.{Source, Flow, Move, run_moves, start_pipeline}
use auklet_client_c.Client.Pipeline.Accounts.{of_source, Only, IsReceived}
use auklet_client_c.Client.Pipeline.Origin.{Accounts}
use auklet_client_c.Client.Pipeline.Turns.{AllPermitted}
use auklet_client_c.Client.Pipeline.Traced.{Accounts-started, new_data_limiter-out}

total_bytes-IsSubsequence :
    {xs ys : List Message} → IsSubsequence xs ys → total_bytes xs ≤ total_bytes ys
total_bytes-IsSubsequence done = omega arith
total_bytes-IsSubsequence (keep h) = omega (arith, total_bytes-IsSubsequence h)
total_bytes-IsSubsequence (drop h) = omega (arith, total_bytes-IsSubsequence h)

-- The event is a message.
abbrev pub IsMessage : Event → Type 0
IsMessage (received m) = Unit {0}
IsMessage _ = ⊥

Only-received : (es : List Event) → Only IsMessage es → es ≡ map received (messages es)
Only-received [] h = refl
Only-received (received m ∷ es) h = ap (λ l. received m ∷ l) (Only-received es h.1)
Only-received (expired now ∷ es) h = absurd h.0
Only-received (closed ∷ es) h = absurd h.0
Only-received (configured conf now ∷ es) h = absurd h.0

-- The bytes of the arrivals are those of the three sources.
total_bytes-of_source :
    (l : List (Source × Message))
    → total_bytes (map (λ a. a.1) l)
      ≡ total_bytes (of_source Source.converter l)
        + (total_bytes (of_source Source.loader l) + total_bytes (of_source Source.requester l))
total_bytes-of_source [] = refl
total_bytes-of_source ((Source.converter, m) ∷ l) = omega (arith, total_bytes-of_source l)
total_bytes-of_source ((Source.loader, m) ∷ l) = omega (arith, total_bytes-of_source l)
total_bytes-of_source ((Source.requester, m) ∷ l) = omega (arith, total_bytes-of_source l)

total_bytes-IsReceived :
    (ms : List Message) (ch : Channel Message)
    → IsReceived ms ch
    → total_bytes ms ≤ total_bytes ch.sent
total_bytes-IsReceived ms ch h = omega (
  arith,
  ap total_bytes h.is_first,
  total_bytes-IsSubsequence (take-IsSubsequence ch.received ch.sent),
)

module _ (X : Codec) (F : Fs Text) (P : Persistor) (C : Client) (c : Config) (dir : String)
    (pr : Producer) where
  abbrev Now : Type 0
  Now = Flow X F P C c dir pr

  -- No new period and no configuration, and the sources have not ended.
  abbrev pub IsOnePeriod : List (Move X.Metrics) → Type 0
  IsOnePeriod ms = AllPermitted X F P C c dir pr IsMessage (λ m. tt) ms

  -- The bytes of all that the sources have sent.
  abbrev pub sent_bytes : Now → ℕ
  sent_bytes f =
      total_bytes f.from_converter.sent
      + (total_bytes f.from_loader.sent + total_bytes f.from_requester.sent)

  arrived-within :
      (f : Now) {start : Machine P} (a : Accounts X F P C c dir pr IsMessage start f)
      → total_bytes (map (λ a. a.1) a.arrivals) ≤ sent_bytes f
  arrived-within f a = omega (
    arith,
    total_bytes-of_source a.arrivals,
    total_bytes-IsReceived _ f.from_converter (a.received_all Source.converter),
    total_bytes-IsReceived _ f.from_loader (a.received_all Source.loader),
    total_bytes-IsReceived _ f.from_requester (a.received_all Source.requester),
  )

  delivered-within :
      (b spent : ℕ) (store : P.State) (f : Now)
      → Budgeted (new_data_limiter P store) b spent
      → 9 * b < two_63
      → sent_bytes f + spent < two_63
      → Accounts X F P C c dir pr IsMessage (settle P initial (new_data_limiter P store)) f
      → total_bytes f.delivered + spent ≤ max b spent
  unfolding serve
  delivered-within b spent store f k small fits a =
      let l = new_data_limiter P store in
      let ms = messages a.events in
      let run_is : f.limiter ≡ serve P (map received ms) l =
        a.served ∙ ap (λ es. serve P es l) (Only-received a.events a.only) in
      let fits_all : total_bytes ms + spent < two_63 =
        omega (arith, fits, ap total_bytes a.arrived, arrived-within f a) in
      let w = serve-within P b spent ms l k small fits_all in
      let out_is : f.limiter.1.out ≡ w.sent =
        ap (λ (m : Machine P). m.1.out) run_is
        ∙ w.out_is
        ∙ ap (λ o. o ++ w.sent) (new_data_limiter-out X F P C c dir pr store) in
      omega (
        arith,
        w.within,
        ap total_bytes out_is,
        total_bytes-IsSubsequence a.published.is_part,
        total_bytes-IsSubsequence (take-IsSubsequence f.passed f.limiter.1.out),
      )

  -- As long as no new period begins, no configuration comes and the sources have not ended, whatever
  -- the order of the turns: the bytes that are published with no error are within the budget that the
  -- limiter loads from its store, together with those that were spent before, or are none. Nine times
  -- the budget and the bytes that the sources send, with those spent, are in the range of `int`.
  pub run_moves-within :
      (b spent : ℕ) (quote : String → String) (from_app : List (Decoded AgentMessage))
      (points : List (Decoded (List ℕ))) (store : P.State) (pid : ℕ) (client : C.State)
      (fs : F.State) (ms : List (Move X.Metrics))
      → Budgeted (new_data_limiter P store) b spent
      → 9 * b < two_63
      → sent_bytes (
            run_moves X F P C c dir pr ms
              (start_pipeline X F P C c dir pr quote from_app points store pid client fs))
          + spent
        < two_63
      → IsOnePeriod ms
      → total_bytes
            (run_moves X F P C c dir pr ms
              (start_pipeline X F P C c dir pr quote from_app points store pid client fs)).delivered
          + spent
        ≤ max b spent
  run_moves-within b spent quote from_app points store pid client fs ms k small fits one =
      delivered-within b spent store _ k small fits (
        Accounts-started X F P C c dir pr IsMessage (λ m. tt) quote from_app points store pid client
          fs ms one)
