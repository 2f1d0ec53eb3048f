-- ===== src/Message/Persistor/MemPersistor.antt =====
-- `MemPersistor` of message/persistor.go: a buffer in memory, which the tests of the limiter use.
use auklet_client_c.Prelude.{Option, none, some, List, [], ◌∷◌, ◌++◌}
use auklet_client_c.Message.Persistor.{Doc}

-- The JSON texts that the buffer holds and that were not read.
abbrev pub Buffer : Type 0
Buffer = List Doc

-- `Save`: the text is put at the end.
unfoldable pub save : Buffer → Doc → Buffer
save b d = b ++ (d ∷ [])

-- `Load`: a new decoder reads all of the buffer, as far as it fits into one read of 512 bytes, and
-- decodes the first text.
unfoldable pub load : Buffer → Buffer × Option Doc
load [] = ([], none)
load (d ∷ ds) = ([], some d)
