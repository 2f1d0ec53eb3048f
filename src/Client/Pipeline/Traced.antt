-- ===== src/Client/Pipeline/Traced.antt =====
-- What became of the messages in any run of the pipeline.
use auklet_client_c.Prelude.{ℕ, ◌≡◌, refl, ap, ◌∙◌, String, List, [], ◌∷◌, ◌++◌, map, arith, take}
use mathlib.Core.Path.{subst}
use auklet_client_c.Prelude.Subsequences.{
  IsSubsequence, done, IsSubsequence_trans, take-IsSubsequence,
}
use auklet_client_c.Fsutil.{Fs}
use auklet_client_c.Agent.Message.{Message as AgentMessage, Decoded}
use auklet_client_c.Broker.Message.{Message}
use auklet_client_c.Broker.Store.{Text}
use auklet_client_c.Broker.Mqtt.{Client, Producer}
use auklet_client_c.Message.Persistor.{Persistor}
use auklet_client_c.Message.Limiter.State.{initial}
use auklet_client_c.Message.Limiter.Run.{
  Event, received, Machine, settle, serve_from, serve, new_data_limiter,
}
use auklet_client_c.Message.Limiter.Order.{messages, serve-SentOf}
use auklet_client_c.Schema.Convert.{Codec, Config}
use auklet_client_c.Client.Pipeline.{Source, Flow, Move, run_moves, start_pipeline}
use auklet_client_c.Client.Pipeline.Accounts.{of_source, IsReceived}
use auklet_client_c.Client.Pipeline.Sending.{IsReceived-start}
use auklet_client_c.Client.Pipeline.Origin.{from, Accounts}
use auklet_client_c.Client.Pipeline.Turns.{Permitted, AllPermitted, Accounts-run_moves}

module _ (X : Codec) (F : Fs Text) (P : Persistor) (C : Client) (c : Config) (dir : String)
    (pr : Producer) where
  abbrev Now : Type 0
  Now = Flow X F P C c dir pr

  -- The account of a run: the events that the limiter saw, the messages that arrived with them, each
  -- with its source, and what of these was delivered.
  pub record Traced (store : P.State) (f : Now) : Type 0 where
    pub events : List Event
    pub arrivals : List (Source × Message)
    pub is_served : f.limiter ≡ serve P events (new_data_limiter P store)
    pub is_arrived : messages events ≡ map (λ a. a.1) arrivals
    pub in_order : (s : Source) → IsReceived (of_source s arrivals) (from X F P C c dir pr s f)
    pub is_part : IsSubsequence f.delivered (map (λ a. a.1) arrivals)

  -- Nothing was sent yet.
  pub new_data_limiter-out : (store : P.State) → (new_data_limiter P store).out ≡ []
  unfolding new_data_limiter
  new_data_limiter-out store = ground arith

  Accounts-Traced :
      (A : Event → Type 0) (store : P.State) (f : Now)
      → Accounts X F P C c dir pr A (settle P initial (new_data_limiter P store)) f
      → Traced store f
  unfolding serve
  Accounts-Traced A store f a =
      let l = new_data_limiter P store in
      let sent = serve-SentOf P a.events l in
      let out_is : f.limiter.1.out ≡ sent.sent =
        ap (λ (m : Machine P). m.1.out) a.served
        ∙ sent.out_is
        ∙ ap (λ o. o ++ sent.sent) (new_data_limiter-out store) in
      record {
        events = a.events;
        arrivals = a.arrivals;
        is_served = a.served;
        is_arrived = a.arrived;
        in_order = a.received_all;
        is_part =
            IsSubsequence_trans
              (IsSubsequence_trans (subst (λ l. IsSubsequence sent.sent l) a.arrived sent.is_part) (
                subst (λ l. IsSubsequence (take f.passed f.limiter.1.out) l) out_is
                  (take-IsSubsequence f.passed f.limiter.1.out)))
              a.published.is_part;
      }

  -- The account of a run from the start.
  pub Accounts-started :
      (A : Event → Type 0) (passes : (m : Message) → A (received m)) (quote : String → String)
      (from_app : List (Decoded AgentMessage)) (points : List (Decoded (List ℕ))) (store : P.State)
      (pid : ℕ) (client : C.State) (fs : F.State) (ms : List (Move X.Metrics))
      → AllPermitted X F P C c dir pr A passes ms
      → Accounts X F P C c dir pr A (settle P initial (new_data_limiter P store)) (
          run_moves X F P C c dir pr ms
            (start_pipeline X F P C c dir pr quote from_app points store pid client fs))
  unfolding start_pipeline serve_from
  Accounts-started A passes quote from_app points store pid client fs ms all =
      Accounts-run_moves X F P C c dir pr A passes (settle P initial (new_data_limiter P store)) ms
        (start_pipeline X F P C c dir pr quote from_app points store pid client fs) all
        (record {
          events = [];
          arrivals = [];
          only = tt;
          served = refl;
          arrived = refl;
          received_all = λ s. IsReceived-start X F P C c dir pr s _ refl refl refl;
          published = record { is_part = done; bounded = omega arith };
        })

  abbrev Any : Event → Type 0
  Any e = Unit {0}

  all_permitted : (ms : List (Move X.Metrics)) → AllPermitted X F P C c dir pr Any (λ m. tt) ms
  all_permitted [] = tt
  all_permitted (m ∷ ms) = (permitted m, all_permitted ms)
    where
      permitted : (m : Move X.Metrics) → Permitted X F P C c dir pr Any (λ m. tt) m
      permitted (Move.convert_message a) = tt
      permitted (Move.convert_point a) = tt
      permitted Move.list_files = tt
      permitted Move.load_file = tt
      permitted (Move.request e) = tt
      permitted (Move.limit_storage n) = tt
      permitted (Move.expire now) = tt
      permitted (Move.configure conf now) = tt
      permitted (Move.pass s) = tt
      permitted Move.end_input = tt
      permitted Move.publish = tt

  -- Whatever the order in which the goroutines take their turns, the pipeline's limiter is in the
  -- state and has the output of a run of `DataLimiter.Serve` from `NewDataLimiter`. The messages of
  -- that run are the arrivals from the sources: for each source those are, in order, the first of
  -- what it has sent, all that were received from it. What was published with no error is a part of
  -- the arrivals, each once at most, in the order in which they arrived.
  pub run_moves-Traced :
      (quote : String → String) (from_app : List (Decoded AgentMessage))
      (points : List (Decoded (List ℕ))) (store : P.State) (pid : ℕ) (client : C.State)
      (fs : F.State) (ms : List (Move X.Metrics))
      → Traced store (
          run_moves X F P C c dir pr ms
            (start_pipeline X F P C c dir pr quote from_app points store pid client fs))
  run_moves-Traced quote from_app points store pid client fs ms = Accounts-Traced Any store _ (
      Accounts-started Any (λ m. tt) quote from_app points store pid client fs ms
        (all_permitted ms))
