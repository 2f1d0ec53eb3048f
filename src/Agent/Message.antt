-- ===== src/Agent/Message.antt =====
-- `Message` of agent/server.go, and the results of decoding a stream of JSON texts.
use auklet_client_c.Prelude.{ℕ, String, List}

-- `raw_data` is the field `Data`, JSON that is not looked into.
pub record Message : Type 0 where
  pub type : String
  pub raw_data : List ℕ

-- What a call of the decoder's `Decode` gives: a value, the end of the stream, or an error, with
-- its text and the text that was left in the decoder's buffer.
pub data Decoded (A : Type 0) : Type 0 where
  value : A → Decoded A
  eof : Decoded A
  failed : String → String → Decoded A
