-- ===== src/Agent/Server.antt =====
-- `Server` of agent/server.go. The stream is the list of what the calls of `Decode` give; after an
-- error the code decodes the same stream by a new decoder.
pub mod Forward
use auklet_client_c.Prelude.{
  ◌<>◌, String, Bool, true, false, Option, none, some, List, [], ◌∷◌, ◌++◌, ◌==◌, string_eq,
  if◌then◌else◌,
}
use auklet_client_c.Agent.Message.{Message, Decoded, value, eof, failed}

-- What is done to the channels.
pub data Action : Type 0 where
  sent : Message → Action
  closed_out closed_done : Action

pub record Server : Type 0 where
  pub errd : Bool
  pub msg : Message
  pub err : Option String
  pub actions : List Action

abbrev pub no_message : Message
no_message = record { type = ""; raw_data = [] }

abbrev pub clean_exit : Message
clean_exit = record { type = "cleanExit"; raw_data = [] }

-- `newServer`
unfoldable pub new_server : Server
new_server = record { errd = false; msg = no_message; err = none; actions = [] }

-- `scan`: whether to go on.
unfoldable pub scan : Decoded Message → Server → Bool × Server
scan eof s = (false, s)
scan (failed e buf) s = (true, record s { err = some (e <> " in " <> buf) })
scan (value msg) s =
    (true, record s { errd = if msg.type == "event" then true else s.errd; msg = msg })

act : Action → Server → Server
act a s = record s { actions = s.actions ++ (a ∷ []) }

send_unless_error : Option String → Server → Server
unfolding act
send_unless_error none s = act (sent s.msg) s
send_unless_error (some _) s = s

-- The body of the loop.
unfoldable pub deliver : Server → Server
unfolding send_unless_error
deliver s = send_unless_error s.err s

-- After the loop: the message of a clean exit, and the deferred calls, the last one first.
unfoldable pub finish : Server → Server
unfolding act
finish s = act closed_done (act closed_out (if s.errd then s else act (sent clean_exit) s))

-- `serve`; with nothing more in the stream, and no end of it, it waits.
unfoldable pub serve : List (Decoded Message) → Server → Server
unfolding scan deliver finish
serve [] s = s
serve (d ∷ ds) s =
    let more = serve ds (deliver (scan d s).1) in if (scan d s).0 then more else finish (scan d s).1
