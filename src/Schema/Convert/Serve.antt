-- ===== src/Schema/Convert/Serve.antt =====
-- The loop `Converter.serve` of schema/convert.go.
pub mod Output
use auklet_client_c.Prelude.{
  Bool, true, false, ◌||◌, String, Option, none, some, List, [], ◌∷◌, ◌++◌, ◌==◌, string_eq,
  if◌then◌else◌,
}
use auklet_client_c.Fsutil.{Fs}
use auklet_client_c.Agent.Message.{Message as AgentMessage}
use auklet_client_c.Broker.Message.{Message, log, error_message}
use auklet_client_c.Broker.Store.{Text, Persistor, Created, CreateError, create_message, error_text}
use auklet_client_c.Schema.Convert.{Codec, Ambient, Config, convert}

-- What the loop does to the outside: it sends to `c.out`, closes the monitor and closes `c.out`.
pub data Action : Type 0 where
  send : Message → Action
  close_monitor close_out : Action

-- The messages that the loop drops.
unfoldable pub is_dropped : AgentMessage → Bool
is_dropped m = m.type == "applog" || m.type == "log"

-- `persistor` is `c.Persistor`, which may be nil, with the filesystem.
pub record World (F : Fs Text) : Type 0 where
  pub persistor : Option Persistor
  pub fs : F.State
  pub actions : List Action

module _ (X : Codec) (F : Fs Text) (c : Config) where
  -- What is sent for a message after `CreateMessage`.
  unfoldable pub outcome : Option CreateError → Message → Message
  outcome none m = m
  outcome (some e) m = error_message (error_text e) log

  act : Action → World F → World F
  act x w = record w { actions = w.actions ++ (x ∷ []) }

  store_or_pass : Option Persistor → Message → World F → World F
  unfolding outcome act
  store_or_pass none m w = act (send m) w
  store_or_pass (some p) m w =
      let r = create_message F p m w.fs in
      act (send (outcome r.error r.message)) (record w { persistor = some r.persistor; fs = r.fs })

  -- The body of the loop, with what the methods find at that time.
  unfoldable pub forward : Ambient X.Metrics × AgentMessage → World F → World F
  unfolding store_or_pass
  forward (a, m) w = if is_dropped m then w else store_or_pass w.persistor (convert X c a m) w

  unfoldable pub forward_all : List (Ambient X.Metrics × AgentMessage) → World F → World F
  forward_all [] w = w
  forward_all (m ∷ ms) w = forward_all ms (forward m w)

  -- `serve`, until the input closes, with what is deferred.
  unfoldable pub serve : List (Ambient X.Metrics × AgentMessage) → World F → World F
  unfolding forward_all act
  serve ms w = act close_out (act close_monitor (forward_all ms w))
