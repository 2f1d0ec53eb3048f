-- ===== src/Schema/Convert.antt =====
-- `Converter` of schema/convert.go, and its methods in schema/schema.go.
pub mod Serve
pub mod Payloads
pub mod Points
pub mod Number
use auklet_client_c.Prelude.{
  ℕ, ◌<>◌, String, Bool, true, false, ◌||◌, Option, none, some, List, [], ◌∷◌, ◌++◌, ◌==◌,
  string_eq, Result, ok, err, if◌then◌else◌,
}
use auklet_client_c.Prelude.Int.{ℤ, pos}
use auklet_client_c.Fsutil.{Fs}
use auklet_client_c.Json.{Json, null, Reader, generic}
use auklet_client_c.Agent.Message.{Message as AgentMessage}
use auklet_client_c.Broker.Message.{Message, profile, event, log, data_point, error_message}
use auklet_client_c.Broker.Store.{Text, Persistor, Created, CreateError, create_message, error_text}
use auklet_client_c.Schema.Payload.{
  Metadata, no_metadata, no_node, Profile, read_profile, Frame, ErrorSig, read_error_sig, Exit,
  DataPoint, RawPoint, read_raw_point,
}

-- `Encoding`
pub data Encoding : Type 0 where
  msg_pack json : Encoding

pub data Payload (M : Type 0) : Type 0 where
  of_profile : Profile → Payload M
  of_error_sig : ErrorSig M → Payload M
  of_exit : Exit M → Payload M
  of_data_point : DataPoint → Payload M

-- What reads and writes texts: `parse` reads bytes that are one JSON value, as `json.Unmarshal` does,
-- `decode` the first value of some bytes, as a decoder with `UseNumber` does; `text_of` is
-- `string(data)`, `quote` is `%q`. `marshal` is `json.Marshal` or the encoder of the library msgpack,
-- with the error that it may give.
pub record Codec : Type 1 where
  pub Metrics : Type 0
  pub parse : List ℕ → Result Json
  pub decode : List ℕ → Result Json
  pub text_of : List ℕ → String
  pub quote : String → String
  pub marshal : Encoding → Payload Metrics → List ℕ × Option String

-- What the methods find when they ask: the app, the address, a new id, the time, the metrics. A method
-- that waits, as `ExitStatus` and `Signal` do for the end of the process, has found it when it
-- returns; the conversion stands for the whole of it.
pub record Ambient (M : Type 0) : Type 0 where
  pub agent_version : String
  pub check_sum : String
  pub exit_status : ℤ
  pub signal : String
  pub ip : String
  pub uuid : String
  pub now_milli : ℤ
  pub metrics : M

-- `Config`, without its interfaces, and the version that is set at build time.
pub record Config : Type 0 where
  pub username : String
  pub user_version : String
  pub app_id : String
  pub mac_hash : String
  pub encoding : Encoding
  pub client_version : String

module _ (X : Codec) (c : Config) where
  open X use {Metrics, parse, decode, text_of, quote, marshal}

  -- `metadata`
  unfoldable pub metadata : Ambient Metrics → Metadata
  metadata a = record {
    version = c.user_version;
    username = c.username;
    client_version = c.client_version;
    agent_version = a.agent_version;
    app_id = c.app_id;
    check_sum = a.check_sum;
    mac_hash = c.mac_hash;
    ip = a.ip;
    uuid = a.uuid;
    time = a.now_milli;
    error = "";
  }

  -- `json.Unmarshal`: the value, which may be changed in part, and the error.
  unfoldable pub unmarshal : {A : Type 0} → Reader A → A → Result Json → A × Option String
  unmarshal read old (ok j) = read old j
  unmarshal read old (err e) = (old, some e)

  with_error : Option String → Metadata → Metadata
  with_error none m = m
  with_error (some e) m = record m { error = e }

  -- `profile`: the error is noted, and then all metadata are set.
  unfoldable pub profile_of : Ambient Metrics → List ℕ → Profile
  unfolding unmarshal with_error metadata
  profile_of a b =
      let (p, e) =
        unmarshal read_profile (record { metadata = no_metadata; tree = no_node }) (parse b) in
      let noted = record p { metadata = with_error e p.metadata } in
      record noted { metadata = metadata a }

  abbrev no_error_sig : ErrorSig Metrics
  no_error_sig = record {
    metadata = no_metadata;
    status = pos 0;
    signal = "";
    trace = [];
    metrics = none;
  }

  -- `errorSig`
  unfoldable pub error_sig_of : Ambient Metrics → List ℕ → ErrorSig Metrics
  unfolding unmarshal with_error metadata
  error_sig_of a b =
      let (s, e) = unmarshal read_error_sig no_error_sig (parse b) in
      let noted = record s { metadata = with_error e s.metadata } in
      record noted { metadata = metadata a; status = a.exit_status; metrics = some a.metrics }

  -- `exit`
  unfoldable pub exit_of : Ambient Metrics → Exit Metrics
  unfolding metadata
  exit_of a = record {
    metadata = metadata a;
    status = a.exit_status;
    signal = a.signal;
    metrics = some a.metrics;
  }

  -- The error of `unmarshalLossless`.
  unfoldable pub lossless_error : String → String → String
  lossless_error e what = "unmarshalLossless: " <> (e <> (" in " <> quote what))

  -- `genericDataPoint`; no payload is an empty text.
  unfoldable pub generic_data_point : Ambient Metrics → String → Option Json → DataPoint
  unfolding lossless_error metadata
  generic_data_point a type none = record {
    metadata = record (metadata a) { error = lossless_error "EOF" "" };
    type = type;
    payload = null;
  }
  generic_data_point a type (some j) = record {
    metadata = metadata a;
    type = type;
    payload = generic j;
  }

  pub point_of : Ambient Metrics → List ℕ → RawPoint × Option String → DataPoint
  unfolding lossless_error generic_data_point
  point_of a b (raw, some e) = record {
    metadata = record no_metadata { error = lossless_error e (text_of b) };
    type = "";
    payload = null;
  }
  point_of a b (raw, none) = generic_data_point a raw.type raw.payload

  -- `dataPoint`
  unfoldable pub data_point_of : Ambient Metrics → List ℕ → DataPoint
  unfolding point_of unmarshal
  data_point_of a b =
      point_of a b (unmarshal read_raw_point (record { type = ""; payload = none }) (decode b))

  text_or_empty : Option String → String
  text_or_empty none = ""
  text_or_empty (some e) = e

  -- `marshal`
  unfoldable pub marshal_message : Payload Metrics → String → Message
  unfolding text_or_empty
  marshal_message v topic =
      let (b, e) = marshal c.encoding v in
      record { error = text_or_empty e; topic = topic; bytes = b; path = none; has_fs = false }

  -- `convert`
  unfoldable pub convert : Ambient Metrics → AgentMessage → Message
  unfolding marshal_message profile_of error_sig_of exit_of data_point_of
  convert a m =
      if m.type == "profile"
      then marshal_message (of_profile (profile_of a m.raw_data)) profile
      else if m.type == "event"
      then marshal_message (of_error_sig (error_sig_of a m.raw_data)) event
      else if m.type == "log"
      then record { error = ""; topic = log; bytes = m.raw_data; path = none; has_fs = false }
      else if m.type == "cleanExit"
      then marshal_message (of_exit (exit_of a)) event
      else if m.type == "datapoint"
      then marshal_message (of_data_point (data_point_of a m.raw_data)) data_point
      else error_message ("message of type " <> (quote m.type <> " not handled")) log
