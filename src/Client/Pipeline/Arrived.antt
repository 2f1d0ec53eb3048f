-- ===== src/Client/Pipeline/Arrived.antt =====
-- What the limiter of the pipeline has received when it closes its output.
use auklet_client_c.Prelude.{
  ℕ, zero, suc, ◌+◌, ◌≤◌, get_elem?, length, drop, ◌≡◌, refl, true, String, none, some, List, [],
  ◌∷◌, arith, ap, ◌∙◌, inl, inr,
}
use auklet_client_c.Fsutil.{FilePath, Fs}
use auklet_client_c.Agent.Message.{Message as AgentMessage, Decoded}
use auklet_client_c.Broker.Message.{Message}
use auklet_client_c.Broker.Store.{Text, filepaths}
use auklet_client_c.Broker.Mqtt.{Client, Producer}
use auklet_client_c.Message.Persistor.{Persistor}
use auklet_client_c.Schema.Convert.{Codec, Config}
use auklet_client_c.Agent.Server
use auklet_client_c.Agent.DataPoint
use auklet_client_c.Client.Channel.{Channel, next}
use auklet_client_c.Client.Pipeline.Listed.{Loads, to_load, Loads-run_moves}
use auklet_client_c.Client.Pipeline.Counted.{kept, waiting, total, total-run_moves}
use auklet_client_c.Client.Pipeline.Traced.{Traced, run_moves-Traced}
use auklet_client_c.Client.Pipeline.{
  Source, Flow, Move, sent_by, channel, run_moves, start_pipeline,
}
use auklet_client_c.Client.Pipeline.Over.{IsOver}
use auklet_client_c.Client.Pipeline.Complete.{run_moves-IsOver}

get_elem?-none : {A : Type 0} → (n : ℕ) (xs : List A) → get_elem? xs n ≡ none → length xs ≤ n
get_elem?-none n [] h = omega arith
get_elem?-none zero (x ∷ xs) h = cc
get_elem?-none (suc n) (x ∷ xs) h = omega (arith, get_elem?-none n xs h)

drop-all : (n : ℕ) (ms : List AgentMessage) → length ms ≤ n → kept (drop n ms) ≡ 0
drop-all n [] h = kept-drop-nil n
  where
    kept-drop-nil : (n : ℕ) → kept (drop n []) ≡ 0
    kept-drop-nil zero = refl
    kept-drop-nil (suc n) = refl
drop-all zero (m ∷ ms) h = absurd (omega arith)
drop-all (suc n) (m ∷ ms) h = drop-all n ms (omega arith)

waiting-none : (ch : Channel AgentMessage) → next ch ≡ none → waiting ch ≡ 0
waiting-none ch h = drop-all ch.received ch.sent (get_elem?-none ch.received ch.sent h)

all_received :
    (ch : Channel Message)
    → ch.received ≤ length ch.sent
    → next ch ≡ none
    → ch.received ≡ length ch.sent
all_received ch h e = omega (arith, h, get_elem?-none ch.received ch.sent e)

module _ (X : Codec) (F : Fs Text) (P : Persistor) (C : Client) (c : Config) (dir : String)
    (pr : Producer) where
  abbrev pub Now : Type 0
  Now = Flow X F P C c dir pr

  within_from :
      (s : Source) {store : P.State} {f : Now}
      → Traced X F P C c dir pr store f
      → (channel X F P C c dir pr s f).received ≤ length (channel X F P C c dir pr s f).sent
  within_from Source.converter t = (t.in_order Source.converter).within
  within_from Source.loader t = (t.in_order Source.loader).within
  within_from Source.requester t = (t.in_order Source.requester).within

  -- What the limiter has received: a message for each of the servers' that is not dropped, one for
  -- each file of a listing, or one for its error, and all of the requester, which has ended.
  pub record IsComplete (messages points : List AgentMessage) (f : Now) : Type 0 where
    pub from_converter : f.from_converter.received ≡ kept messages + kept points
    pub all_loaded : f.loading ≡ some []
    pub listed_on : F.State
    pub from_loader : f.from_loader.received ≡ to_load (filepaths F listed_on dir)
    pub requester_closed : f.requests.out_closed ≡ true
    pub from_requester : f.from_requester.received ≡ length f.from_requester.sent

  -- A loader that has loaded all paths.
  loaded :
      (f : Now)
      → f.loading ≡ some []
      → Loads X F P C c dir pr f
      → (fs : F.State) × (length f.from_loader.sent ≡ to_load (filepaths F fs dir))
  loaded f e (inl u) = cc (e, u.is_none)
  loaded f e (inr l) =
      let none_left : l.rest ≡ [] = cc (e, l.is_rest) in
      (l.fs, omega (arith, l.count, ap (λ (ps : List FilePath). length ps) none_left))

  IsOver-IsComplete :
      (messages points : List AgentMessage) (f : Now)
      → total X F P C c dir pr f ≡ kept messages + kept points
      → ((s : Source)
          → (channel X F P C c dir pr s f).received ≤ length (channel X F P C c dir pr s f).sent)
      → Loads X F P C c dir pr f
      → IsOver X F P C c dir pr f
      → IsComplete messages points f
  IsOver-IsComplete messages points f sum within loads h = record {
    from_converter = omega (
      arith,
      sum,
      all_received f.from_converter (within Source.converter) h.no_converted,
      waiting-none f.from_server h.no_message,
      waiting-none f.from_points h.no_point,
    );
    all_loaded = h.all_loaded;
    listed_on = (loaded f h.all_loaded loads).0;
    from_loader =
        all_received f.from_loader (within Source.loader) h.no_loaded
        ∙ (loaded f h.all_loaded loads).1;
    requester_closed = h.requester_closed;
    from_requester = all_received f.from_requester (within Source.requester) h.no_requested;
  }

  -- Once the limiter has closed its output, whatever the order of the turns: it has received from the
  -- converter as many messages as the two servers sent together, those of the dropped types left
  -- out; from the loader as many as the directory had files in some state of the filesystem, or the
  -- one for the error of the listing; and all that the requester sent, which has closed its output.
  pub run_moves-IsComplete :
      (quote : String → String) (from_app : List (Decoded AgentMessage))
      (points : List (Decoded (List ℕ))) (store : P.State) (pid : ℕ) (client : C.State)
      (fs : F.State) (ms : List (Move X.Metrics))
      → (run_moves X F P C c dir pr ms (
          start_pipeline X F P C c dir pr quote from_app points store pid client
            fs)).limiter.1.out_closed
        ≡ true
      → IsComplete
          (sent_by (Server.serve from_app Server.new_server).actions)
          (DataPoint.serve quote points DataPoint.new_data_point_server).out
          (run_moves X F P C c dir pr ms
            (start_pipeline X F P C c dir pr quote from_app points store pid client fs))
  unfolding start_pipeline
  run_moves-IsComplete quote from_app points store pid client fs ms shut =
      let f = start_pipeline X F P C c dir pr quote from_app points store pid client fs in
      let t = run_moves-Traced X F P C c dir pr quote from_app points store pid client fs ms in
      IsOver-IsComplete _ _ _ (omega (arith, total-run_moves X F P C c dir pr ms f))
        (λ s. within_from s t)
        (Loads-run_moves X F P C c dir pr ms f (inl (record { is_none = refl; unsent = refl })))
        (run_moves-IsOver X F P C c dir pr quote from_app points store pid client fs ms shut)
