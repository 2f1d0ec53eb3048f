-- ===== src/Agent/DataPoint.antt =====
-- `DataPointServer` of agent/datapoint.go, over what the calls of `Decode` give.
pub mod Forward
use auklet_client_c.Prelude.{
  ℕ, ◌<>◌, String, Bool, true, false, Option, none, some, List, [], ◌∷◌, ◌++◌, if◌then◌else◌,
}
use auklet_client_c.Agent.Message.{Message, Decoded, value, eof, failed}
use auklet_client_c.Agent.Server.{no_message}

-- `logged` holds the texts that were written to the error log.
pub record DataPointServer : Type 0 where
  pub msg : Message
  pub err : Option String
  pub out : List Message
  pub out_closed : Bool
  pub logged : List String

-- `newDataPointServer`
unfoldable pub new_data_point_server : DataPointServer
new_data_point_server = record {
  msg = no_message;
  err = none;
  out = [];
  out_closed = false;
  logged = [];
}

abbrev pub data_point : List ℕ → Message
data_point raw_data = record { type = "datapoint"; raw_data = raw_data }

-- `fmt.Errorf("error decoding data point stream: %v in %q", err, buf)`, the quotation being `quote`.
abbrev pub stream_error : (String → String) → String → String → String
stream_error quote e buf = "error decoding data point stream: " <> (e <> (" in " <> quote buf))

module _ (quote : String → String) where
  -- `scan`: whether to go on.
  unfoldable pub scan : Decoded (List ℕ) → DataPointServer → Bool × DataPointServer
  scan (value raw_data) s = (true, record s { msg = data_point raw_data })
  scan eof s = (false, s)
  scan (failed e buf) s = (true, record s { err = some (stream_error quote e buf) })

  send_or_log : Option String → DataPointServer → DataPointServer
  send_or_log none s = record s { out = s.out ++ (s.msg ∷ []) }
  send_or_log (some e) s = record s { logged = s.logged ++ (e ∷ []) }

  -- The body of the loop.
  unfoldable pub deliver : DataPointServer → DataPointServer
  unfolding send_or_log
  deliver s = send_or_log s.err s

  -- `serve`; with nothing more in the stream, and no end of it, it waits.
  unfoldable pub serve : List (Decoded (List ℕ)) → DataPointServer → DataPointServer
  unfolding scan deliver
  serve [] s = s
  serve (d ∷ ds) s =
      let more = serve ds (deliver (scan d s).1) in
      if (scan d s).0 then more else record (scan d s).1 { out_closed = true }
