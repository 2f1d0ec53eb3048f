-- ===== src/Client/Serial.antt =====
-- `serial` and `dumper` of cmd/client/main.go: the pipelines that write to a serial device, or print.
pub mod Writing
pub mod Serving
use auklet_client_c.Prelude.{
  ℕ, zero, suc, ◌<>◌, String, Option, none, some, List, [], ◌∷◌, ◌++◌, map, Result, ok, err,
}
use auklet_client_c.Fsutil.{FilePath, Fs}
use auklet_client_c.Json.{Json, null}
use auklet_client_c.Agent.Message.{Message as AgentMessage, Decoded}
use auklet_client_c.Agent.Server
use auklet_client_c.Agent.DataPoint
use auklet_client_c.Agent.Requester
use auklet_client_c.Agent.Requester.{new_periodic_requester}
use auklet_client_c.App.Socketpair.{System}
use auklet_client_c.App.Exec.{Exec, Outcome, connect}
use auklet_client_c.Broker.Message.{Message}
use auklet_client_c.Broker.Store.{Text, path_text}
use auklet_client_c.Config.{Getenv, app_id}
use auklet_client_c.Merge
use auklet_client_c.Merge.{Merging, merge}
use auklet_client_c.Schema.Convert.{Codec, Ambient, Config, json}
use auklet_client_c.Schema.Convert.Serve
use auklet_client_c.Client.Pipeline.{messages_of, sent_by}

-- `serial`, without its filesystem. `addr` is a file.
pub record SerialConfig : Type 0 where
  pub user_version : String
  pub app_id : String
  pub mac_hash : String
  pub addr : FilePath

-- `newserial`
unfoldable pub new_serial : Getenv → String → FilePath → String → SerialConfig
new_serial env mac_hash addr user_version = record {
  user_version = user_version;
  app_id = app_id env;
  mac_hash = mac_hash;
  addr = addr;
}

-- The configuration of its converter.
unfoldable pub serial_config : SerialConfig → String → Config
serial_config c client_version = record {
  username = "";
  user_version = c.user_version;
  app_id = c.app_id;
  mac_hash = c.mac_hash;
  encoding = json;
  client_version = client_version;
}

-- What one write holds: a JSON object with these two members, and an end of line.
pub record Line : Type 0 where
  pub topic : String
  pub payload : Json

-- The filesystem with the device, and what was logged.
pub record Port (D : Fs Line) : Type 0 where
  pub fs : D.State
  pub logged : List String

module _ (X : Codec) where
  raw_payload : String → Result Json → Result Line
  raw_payload topic (ok j) = ok (record { topic = topic; payload = j })
  raw_payload topic (err e) =
      err ("json: error calling MarshalJSON for type json.RawMessage: " <> e)

  bytes_json : List ℕ → Result Json
  bytes_json [] = ok null
  bytes_json (b ∷ bs) = X.parse (b ∷ bs)

  -- `json.Marshal` of the topic and of the message's bytes as they are: no bytes are written as null,
  -- others must be JSON.
  unfoldable pub line_of : Message → Result Line
  unfolding raw_payload bytes_json
  line_of m = raw_payload ("c/" <> (m.topic <> "/")) (bytes_json m.bytes)

  module _ (D : Fs Line) (addr : FilePath) where
    log_line : String → Port D → Port D
    log_line t p = record p { logged = p.logged ++ (t ∷ []) }

    after_write : D.State × Option String → Port D → Port D
    unfolding log_line
    after_write (s, none) p = record p { fs = s }
    after_write (s, some e) p =
        log_line ("could not write to " <> (path_text addr <> (": " <> e))) (record p { fs = s })

    write_line : Result Line → Port D → Port D
    unfolding after_write log_line
    write_line (err e) p = log_line ("could not serialize message: " <> e) p
    write_line (ok l) p = after_write (D.write p.fs addr l) p

    after_open : Message → D.State × Option String → Port D → Port D
    unfolding write_line log_line
    after_open m (s, none) p = write_line (line_of m) (record p { fs = s })
    after_open m (s, some e) p =
        log_line ("could not open " <> (path_text addr <> (": " <> e))) (record p { fs = s })

    -- `tryWrite`: the file is emptied, then the line is made, then it is written.
    unfoldable pub try_write : Message → Port D → Port D
    unfolding after_open
    try_write m p = after_open m (D.open_file p.fs addr) p

    -- The loop over what the merger gives.
    unfoldable pub write_all : List Message → Port D → Port D
    write_all [] p = p
    write_all (m ∷ ms) p = write_all ms (try_write m p)

-- Two sources, for a merger.
abbrev pub sources : {A : Type 0} → List A → List A → ℕ → List A
sources xs ys zero = xs
sources xs ys (suc zero) = ys
sources xs ys (suc (suc _)) = []

-- What a merger of two sources has delivered, after these moves of its goroutines.
unfoldable pub merging : {A : Type 0} → ℕ → List Merge.Move → List A → List A → Merging A
merging room ms xs ys = Merge.serve 2 room ms (merge (sources xs ys))

unfoldable pub merged : {A : Type 0} → ℕ → List Merge.Move → List A → List A → List A
merged room ms xs ys = map (λ d. d.1) (merging room ms xs ys).delivered

-- What is done by an application that was connected to, and how the mergers move: what its two
-- streams give, the events of the requester, which `configured` is none of here, and what the methods
-- of the converter find at its n-th message.
pub record Session (M : Type 0) : Type 0 where
  pub from_app : List (Decoded AgentMessage)
  pub points : List (Decoded (List ℕ))
  pub agent_moves : List Merge.Move
  pub ticks : List Requester.Event
  pub moves : List Merge.Move
  pub found : ℕ → Ambient M

module _ (X : Codec) where
  pub with_found :
      (ℕ → Ambient X.Metrics) → List AgentMessage → List (Ambient X.Metrics × AgentMessage)
  with_found found [] = []
  with_found found (m ∷ ms) = (found 0, m) ∷ with_found (λ n. found (suc n)) ms

  -- `agent.Merge`, whose output has no room, of the two servers.
  unfoldable pub agent_messages : Session X.Metrics → List AgentMessage
  agent_messages t =
      merged 0 t.agent_moves (sent_by (Server.serve t.from_app Server.new_server).actions)
        (DataPoint.serve X.quote t.points DataPoint.new_data_point_server).out

  -- What the requester sends.
  unfoldable pub requested_messages : Session X.Metrics → List Message
  requested_messages t = (Requester.run t.ticks new_periodic_requester).out

  -- What the dumper prints of a message.
  unfoldable pub dump_text : AgentMessage → String
  dump_text m = "type: " <> (m.type <> ("\ndata: " <> (X.text_of m.raw_data <> "\n\n")))

  module _ (F : Fs Text) (c : SerialConfig) (client_version : String) where
    -- What the converter sends, with no persistor: the filesystem is not used.
    unfoldable pub serial_converted : F.State → Session X.Metrics → List Message
    unfolding with_found
    serial_converted s t =
        messages_of
          (Serve.serve X F (serial_config c client_version) (with_found t.found (agent_messages t))
            (record { persistor = none; fs = s; actions = [] })).actions

    -- `message.Merge`, whose output has room for ten, of the two.
    unfoldable pub serial_messages : F.State → Session X.Metrics → List Message
    serial_messages s t = merged 10 t.moves (serial_converted s t) (requested_messages t)

    module _ (S : System) (D : Fs Line) where
      serial_connected : F.State → Session X.Metrics → Port D → Outcome S → Outcome S × Port D
      serial_connected s t p (x, y, some e) = ((x, y, some e), p)
      serial_connected s t p (x, y, none) =
          ((x, y, none), write_all X D c.addr (serial_messages s t) p)

      -- `run` of `serial`
      unfoldable pub run_serial :
          F.State → Session X.Metrics → Exec S.File → S.State → Port D → Outcome S × Port D
      unfolding serial_connected
      run_serial s t x y p = serial_connected s t p (connect S x y)

  module _ (S : System) where
    dumper_connected : Session X.Metrics → Outcome S → Outcome S × List String
    dumper_connected t (x, y, some e) = ((x, y, some e), [])
    dumper_connected t (x, y, none) = ((x, y, none), map dump_text (agent_messages t))

    -- `run` of `dumper`: what it prints.
    unfoldable pub run_dumper : Session X.Metrics → Exec S.File → S.State → Outcome S × List String
    unfolding dumper_connected
    run_dumper t x y = dumper_connected t (connect S x y)
