-- ===== src/Message/Persistor/FilePersistor.antt =====
-- `FilePersistor` of message/persistor.go over the operating system's files.
use auklet_client_c.Prelude.{Bool, true, false, Option, none, some, List, [], ◌∷◌}
use auklet_client_c.Message.Persistor.{Persistor, Doc}

-- How the next call of the operating system behaves: it works, `os.Create` fails, or the write does
-- after the file was emptied.
pub data Fault : Type 0 where
  fine no_create no_write : Fault

-- A file and what happens to the calls that come. No entry means that the call works.
pub record File : Type 0 where
  pub contents : Option (List Doc)
  pub faults : List Fault

abbrev pub next_fault : List Fault → Fault
next_fault [] = fine
next_fault (f ∷ _) = f

abbrev pub later_faults : List Fault → List Fault
later_faults [] = []
later_faults (_ ∷ fs) = fs

write_doc : Fault → File → Doc → File × Bool
write_doc fine f d = (record f { contents = some (d ∷ []) }, true)
write_doc no_create f d = (f, false)
write_doc no_write f d = (record f { contents = some [] }, false)

-- `Save`: create or empty the file, and encode the object into it.
unfoldable pub save : File → Doc → File × Bool
unfolding write_doc
save f d = write_doc (next_fault f.faults) (record f { faults = later_faults f.faults }) d

first_doc : List Doc → Option Doc
first_doc [] = none
first_doc (d ∷ _) = some d

read_doc : Option (List Doc) → Option Doc
unfolding first_doc
read_doc none = none
read_doc (some ds) = first_doc ds

-- `Load`: the first JSON text of the file.
unfoldable pub load : File → Option Doc
unfolding read_doc
load f = read_doc f.contents

abbrev pub file_persistor : Persistor
file_persistor = record { State = File; save = save; load = load }
