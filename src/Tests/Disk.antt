-- ===== src/Tests/Disk.antt =====
-- A small disk, for the tests of what stores messages.
use auklet_client_c.Prelude.{ℕ, some, List, [], ◌∷◌}
use auklet_client_c.Prelude.Int.{pos}
use auklet_client_c.Fsutil.{FilePath, file, generated, named, Fs, IsLawful}
use auklet_client_c.Broker.Store.{Text, malformed, Persistor}
use auklet_client_c.Tests.MemoryFs.{memory_fs, memory_fs-IsLawful}

-- Each text is taken to be ten bytes long.
abbrev ten_bytes : Text → ℕ
ten_bytes t = 10

abbrev pub disk : Fs Text
disk = memory_fs (malformed "unexpected end of JSON input") ten_bytes

abbrev Files : Type 0
Files = List (FilePath × Text)

abbrev pub persistor : Persistor
persistor = record { limit = some (pos 50); directory = "d"; count = 3; pid = 7 }

abbrev pub two_files : Files
two_files = (file "d" (generated 6 0), malformed "no") ∷ (file "d" (named "x"), malformed "no") ∷ []

pub disk-IsLawful : IsLawful disk
disk-IsLawful = memory_fs-IsLawful (malformed "unexpected end of JSON input") ten_bytes
