-- ===== src/Broker/Message.antt =====
-- `Topic` and `Message` of broker/message.go.
use auklet_client_c.Fsutil.{FilePath}
use auklet_client_c.Prelude.{ℕ, Option, none, String, List, [], Bool, false, length}

-- `Topic` is a string; these are its constants.
abbrev pub Topic : Type 0
Topic = String

abbrev pub profile : Topic
profile = "profiler"

abbrev pub event : Topic
event = "events"

abbrev pub log : Topic
log = "logs"

abbrev pub data_point : Topic
data_point = "datapoints"

-- `has_fs` says that the field `fs` is not nil. A program has one filesystem, which is a parameter
-- of the operations that use it.
pub record Message : Type 0 where
  pub error : String
  pub topic : Topic
  pub bytes : List ℕ
  pub path : Option FilePath
  pub has_fs : Bool

-- A message of an error and a topic, the other fields zero.
abbrev pub error_message : String → Topic → Message
error_message e t = record { error = e; topic = t; bytes = []; path = none; has_fs = false }

-- `len(m.Bytes)`
abbrev pub size_of : Message → ℕ
size_of m = length m.bytes
