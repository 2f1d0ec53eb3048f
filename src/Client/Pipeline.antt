-- ===== src/Client/Pipeline.antt =====
-- The pipeline of `client.run` in cmd/client/main.go as it runs: its goroutines take turns in any
-- order, and share one filesystem.
pub mod Held
pub mod Accounts
pub mod Origin
pub mod Sending
pub mod Turns
pub mod Traced
pub mod Budget
pub mod Counted
pub mod Listed
pub mod Able
pub mod Over
pub mod Opened
pub mod Complete
pub mod Arrived
pub mod Safe
pub mod Kept
use auklet_client_c.Prelude.{
  ℕ, suc, ◌+◌, Bool, true, false, ◌&&◌, String, Option, none, some, List, [], ◌∷◌, ◌++◌, length,
  drop, get_elem?, ltb, Result, ok, err, if◌then◌else◌,
}
use mathlib.Core.Option
use auklet_client_c.Prelude.Int.{ℤ}
use auklet_client_c.Clock.{Time}
use auklet_client_c.Fsutil.{FilePath, Fs}
use auklet_client_c.Agent.Message.{Message as AgentMessage, Decoded}
use auklet_client_c.Agent.Server
use auklet_client_c.Agent.DataPoint
use auklet_client_c.Agent.Requester
use auklet_client_c.Agent.Requester.{Requester, new_periodic_requester, react, go_on}
use auklet_client_c.Api.DataLimit.{CellularConfig}
use auklet_client_c.Broker.Message.{Message, error_message, log}
use auklet_client_c.Broker.Store.{Text, new_persistor, set_limit, filepaths, load_message}
use auklet_client_c.Broker.Mqtt
use auklet_client_c.Broker.Mqtt.{Client, Producer, topic_of}
use auklet_client_c.Message.Persistor.{Persistor}
use auklet_client_c.Message.Limiter.State.{DataLimiter, State, initial, under_budget, over_budget}
use auklet_client_c.Message.Limiter.Run.{
  Event, expired, received, closed, configured, Machine, settle, step, new_data_limiter,
}
use auklet_client_c.Schema.Convert.{Codec, Ambient, Config}
use auklet_client_c.Schema.Convert.Serve
use auklet_client_c.Schema.Convert.Serve.{Action, send, forward}
use auklet_client_c.Client.Channel.{Channel, holding, next, receive, put}

-- The messages among the converter's actions.
abbrev pub messages_of : List Action → List Message
messages_of [] = []
messages_of (send m ∷ rest) = m ∷ messages_of rest
messages_of (_ ∷ rest) = messages_of rest

-- The messages among a server's actions.
abbrev pub sent_by : List Server.Action → List AgentMessage
sent_by [] = []
sent_by (Server.sent m ∷ rest) = m ∷ sent_by rest
sent_by (_ ∷ rest) = sent_by rest

-- The sources that the limiter's merger has.
pub data Source : Type 0 where
  converter loader requester : Source

-- A turn of one goroutine. The converter takes a message from one of the two servers; the loader lists
-- the directory and then loads one file after the other; the requester and the limiter see an event
-- of theirs, the persistor a new limit; the limiter takes a message from a source, or sees the end
-- of all; the producer publishes one message.
pub data Move (M : Type 0) : Type 0 where
  convert_message convert_point : Ambient M → Move M
  list_files load_file : Move M
  request : Requester.Event → Move M
  limit_storage : Option ℤ → Move M
  expire : Time → Move M
  configure : CellularConfig → Time → Move M
  pass : Source → Move M
  end_input publish : Move M

-- The messages delivered, after a publication with that error.
unfoldable pub keep_delivered : Option String → Message → List Message → List Message
keep_delivered none m ms = ms ++ (m ∷ [])
keep_delivered (some _) m ms = ms

module _ (X : Codec) (F : Fs Text) (P : Persistor) (C : Client) (c : Config) (dir : String)
    (p : Producer) where
  -- `world` is that of the converter, with the filesystem that all share. `loading` are the listed
  -- files that are still to be loaded, before the listing `none`. `delivered` are the messages that
  -- were published with no error.
  pub record Flow : Type 0 where
    pub from_server : Channel AgentMessage
    pub from_points : Channel AgentMessage
    pub world : Serve.World F
    pub from_converter : Channel Message
    pub loading : Option (List FilePath)
    pub from_loader : Channel Message
    pub requests : Requester
    pub from_requester : Channel Message
    pub limiter : Machine P
    pub passed : ℕ
    pub client : C.State
    pub delivered : List Message
    pub logged : List String

  -- `f` has the message of a server received, `old` has not.
  pub take_message : Option AgentMessage → Ambient X.Metrics → Flow → Flow → Flow
  take_message none a old f = old
  take_message (some m) a old f =
      let w = forward X F c (a, m) (record f.world { actions = [] }) in
      record f {
        world = record w { actions = f.world.actions ++ w.actions };
        from_converter = put (messages_of w.actions) f.from_converter;
      }

  pub listed : Result (List FilePath) → Flow → Flow
  listed (ok paths) f = record f { loading = some paths }
  listed (err e) f = record f {
    loading = some [];
    from_loader = put (error_message e log ∷ []) f.from_loader;
  }

  pub list_once : Option (List FilePath) → Flow → Flow
  unfolding listed
  list_once none f = listed (filepaths F f.world.fs dir) f
  list_once (some _) f = f

  pub load_next : Option (List FilePath) → Flow → Flow
  load_next (some (q ∷ paths)) f = record f {
    loading = some paths;
    from_loader = put (load_message F f.world.fs q ∷ []) f.from_loader;
  }
  load_next _ f = f

  -- The requester's new messages go on.
  pub requested : Requester → Flow → Flow
  requested r f = record f {
    requests = r;
    from_requester = put (drop (length f.requests.out) r.out) f.from_requester;
  }

  pub limit : Event → Flow → Flow
  limit e f = record f { limiter = step P e f.limiter.0 f.limiter.1 }

  is_waiting : State → Bool
  is_waiting under_budget = true
  is_waiting over_budget = true
  is_waiting _ = false

  pass_from : Source → Option Message → Flow → Flow
  unfolding limit
  pass_from s none f = f
  pass_from converter (some m) f =
      limit (received m) (record f { from_converter = receive f.from_converter })
  pass_from loader (some m) f =
      limit (received m) (record f { from_loader = receive f.from_loader })
  pass_from requester (some m) f =
      limit (received m) (record f { from_requester = receive f.from_requester })

  -- The channel from a source to the limiter.
  abbrev pub channel : Source → Flow → Channel Message
  channel converter f = f.from_converter
  channel loader f = f.from_loader
  channel requester f = f.from_requester

  -- What a source has for the limiter.
  unfoldable pub offered : Source → Flow → Option Message
  offered s f = next (channel s f)

  is_none : {A : Type 0} → Option A → Bool
  is_none none = true
  is_none (some _) = false

  is_loaded : Option (List FilePath) → Bool
  is_loaded (some []) = true
  is_loaded _ = false

  -- The loop of the converter has ended, and `c.out` is closed: both servers have closed their outputs,
  -- and all that they sent was taken.
  pub converter_closed : Flow → Bool
  unfolding is_none
  converter_closed f = is_none (next f.from_server) && is_none (next f.from_points)

  -- The goroutine of `load` has ended, and `out` is closed: the paths that were listed are loaded.
  pub loader_closed : Flow → Bool
  unfolding is_loaded
  loader_closed f = is_loaded f.loading

  -- `merge` for one source has ended: the source's output is closed, and all of it was passed on.
  pub is_merged : Bool → Option Message → Bool
  unfolding is_none
  is_merged ended o = ended && is_none o

  -- `wg.Wait` of the merger has returned, and its output is closed and empty.
  unfoldable pub is_ended : Flow → Bool
  unfolding converter_closed loader_closed is_merged offered
  is_ended f =
      is_merged (converter_closed f) (offered converter f)
      && is_merged (loader_closed f) (offered loader f)
      && is_merged f.requests.out_closed (offered requester f)

  pub publish_next : Option Message → Flow → Flow
  unfolding keep_delivered
  publish_next none f = f
  publish_next (some m) f =
      let w =
        Mqtt.publish C F p m (record { client = f.client; fs = f.world.fs; logged = f.logged }) in
      record f {
        client = w.client;
        world = record f.world { fs = w.fs };
        logged = w.logged;
        passed = suc f.passed;
        delivered = keep_delivered (C.publish f.client (topic_of p m) m.bytes).1 m f.delivered;
      }

  unfoldable pub move : Move X.Metrics → Flow → Flow
  unfolding take_message list_once load_next requested limit is_waiting pass_from publish_next
  move (convert_message a) f =
      take_message (next f.from_server) a f (record f { from_server = receive f.from_server })
  move (convert_point a) f =
      take_message (next f.from_points) a f (record f { from_points = receive f.from_points })
  move list_files f = list_once f.loading f
  move load_file f = load_next f.loading f
  move (request e) f = requested (go_on f.requests.status (react e) f.requests) f
  move (limit_storage n) f = record f {
    world = record f.world { persistor = Option.map (set_limit n) f.world.persistor };
  }
  move (expire now) f = limit (expired now) f
  move (configure conf now) f = limit (configured conf now) f
  move (pass s) f = if is_waiting f.limiter.0 then pass_from s (offered s f) f else f
  move end_input f = if is_ended f then limit closed f else f
  move publish f = publish_next (get_elem? f.limiter.1.out f.passed) f

  unfoldable pub run_moves : List (Move X.Metrics) → Flow → Flow
  run_moves [] f = f
  run_moves (m ∷ ms) f = run_moves ms (move m f)

  -- The pipeline as it starts, with what the two streams of the application will give, the limiter's
  -- store, and the process id.
  unfoldable pub start_pipeline :
      (String → String)
      → List (Decoded AgentMessage)
      → List (Decoded (List ℕ))
      → P.State
      → ℕ
      → C.State
      → F.State
      → Flow
  start_pipeline quote messages points store pid client fs = record {
    from_server = holding (sent_by (Server.serve messages Server.new_server).actions);
    from_points = holding (DataPoint.serve quote points DataPoint.new_data_point_server).out;
    world = record { persistor = some (new_persistor dir pid); fs = fs; actions = [] };
    from_converter = holding [];
    loading = none;
    from_loader = holding [];
    requests = new_periodic_requester;
    from_requester = holding [];
    limiter = settle P initial (new_data_limiter P store);
    passed = 0;
    client = client;
    delivered = [];
    logged = [];
  }
