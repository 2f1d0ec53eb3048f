-- ===== src/Message/Persistor.antt =====
-- message/persistor.go: how the limiter's exported fields are kept in a file, and the interface
-- `Persistor` of message/limiter.go through which the limiter uses it.
pub mod FilePersistor
pub mod MemPersistor
use auklet_client_c.Prelude.{Bool, Option}
use auklet_client_c.Prelude.Int.{ℤ}
use auklet_client_c.Clock.{Time}

-- A JSON text in a stream: an object with these members, each of which may be missing, or no JSON.
pub data Doc : Type 0 where
  object : Option ℤ → Option Bool → Option ℤ → Option Time → Doc
  malformed : Doc

-- `Save` returns whether it succeeded. `Load` hands over the text that `Decode` reads, if there is
-- one: `none` stands for a file that cannot be opened and for the end of the stream.
pub record Persistor : Type 1 where
  pub State : Type 0
  pub save : State → Doc → State × Bool
  pub load : State → Option Doc
