-- ===== src/Broker/Store.antt =====
-- `Persistor` and `MessageLoader` of broker/message.go: messages as files of a directory.
pub mod Create
pub mod Retention
pub mod Loading
pub mod Restart
use auklet_client_c.Prelude.{
  ℕ, suc, ◌+◌, ◌<>◌, String, Bool, true, false, ◌&&◌, Option, none, some, List, [], ◌∷◌, ◌++◌, map,
  Result, ok, err, if◌then◌else◌,
}
use auklet_client_c.Prelude.Int.{ℤ, pos}
use auklet_client_c.Prelude.Int64.{add64, mul64, quot64, gtb64}
use auklet_client_c.Prelude.Decimal.{decimal}
use auklet_client_c.Fsutil.{Name, generated, FilePath, dir, file, Fs, write_file}
use auklet_client_c.Broker.Message.{Message, error_message, log, size_of}

-- What a file holds: a JSON object with these members, each of which may be missing, or another
-- text, with the error that `json.Unmarshal` gives for it.
pub data Text : Type 0 where
  object : Option String → Option String → Option (List ℕ) → Text
  malformed : String → Text

-- `json.Marshal` and `json.Unmarshal` on the exported fields.
unfoldable pub marshal : Message → Text
marshal m = object (some m.error) (some m.topic) (some m.bytes)

abbrev or_old : {A : Type 0} → Option A → A → A
or_old none old = old
or_old (some new) old = new

unfoldable pub unmarshal : Text → Message → Result Message
unmarshal (object e t b) m =
    ok (record m { error = or_old e m.error; topic = or_old t m.topic; bytes = or_old b m.bytes })
unmarshal (malformed e) m = err e

-- After `json.Unmarshal`: an error stands in the message.
unfoldable pub decoded : Message → Result Message → Message
decoded m (ok m') = m'
decoded m (err e) = record m { error = e }

-- `Persistor`, without its channels: `limit` is what `serve` hands out, and `pid` is `os.Getpid()`.
pub record Persistor : Type 0 where
  pub limit : Option ℤ
  pub directory : String
  pub count : ℕ
  pub pid : ℕ

-- `NewPersistor`
unfoldable pub new_persistor : String → ℕ → Persistor
new_persistor directory pid = record { limit = none; directory = directory; count = 0; pid = pid }

-- `serve`: a new limit.
unfoldable pub set_limit : Option ℤ → Persistor → Persistor
set_limit limit p = record p { limit = limit }

-- The errors of `CreateMessage`.
pub data CreateError : Type 0 where
  storage_full : ℤ → ℤ → CreateError
  other : String → CreateError

failure : Option String → Option CreateError
failure none = none
failure (some e) = some (other e)

-- `Error()`
unfoldable pub error_text : CreateError → String
error_text (storage_full limit used) =
    "persistor: storage full: " <> (decimal used <> (" used of " <> (decimal limit <> " limit")))
error_text (other e) = e

-- The text of a path, in error messages.
unfoldable pub path_text : FilePath → String
path_text (dir d) = d
path_text (file d (generated pid n)) = d <> ("/" <> (decimal (pos pid) <> ("-" <> decimal (pos n))))
path_text (file d (Name.named s)) = d <> ("/" <> s)

-- Whether the message and what is used exceed nine tenths of the limit.
unfoldable pub exceeds : ℤ → ℕ → ℤ → Bool
exceeds limit n used = gtb64 (add64 (pos n) used) (quot64 (mul64 (pos 9) limit) 10)

module _ (F : Fs Text) where
  names_result : String → Result (List Name) → Result (List FilePath)
  names_result d (err e) =
      err ("filepaths: failed to read directory names in " <> (d <> (": " <> e)))
  names_result d (ok names) = ok (map (file d) names)

  open_result : F.State → String → Option String → Result (List FilePath)
  unfolding names_result
  open_result s d (some e) = err ("filepaths: failed to open message directory: " <> e)
  open_result s d none = names_result d (F.read_dir_names s d)

  stat_result : F.State → String → Result ℕ → Result (List FilePath)
  unfolding open_result
  stat_result s d (err _) = ok []
  stat_result s d (ok _) = open_result s d (F.open_dir s d)

  -- `filepaths`; no directory is no error.
  unfoldable pub filepaths : F.State → String → Result (List FilePath)
  unfolding stat_result
  filepaths s d = stat_result s d (F.stat s (dir d))

  size_step : Result ℕ → FilePath → ℤ × Option String → ℤ × Option String
  size_step (ok k) path (n, e) = (add64 n (pos k), e)
  size_step (err e2) path (n, e) = (
    n,
    some ("size: failed to calculate storage size of message " <> (path_text path <> (": " <> e2))),
  )

  -- The loop of `size`: the sum, and the last error.
  unfoldable pub size_loop : F.State → List FilePath → ℤ × Option String → ℤ × Option String
  unfolding size_step
  size_loop s [] acc = acc
  size_loop s (path ∷ paths) acc = size_loop s paths (size_step (F.stat s path) path acc)

  size_result : F.State → Result (List FilePath) → ℤ × Option String
  unfolding size_loop
  size_result s (err e) = (pos 0, some e)
  size_result s (ok paths) = size_loop s paths (pos 0, none)

  -- `size`
  unfoldable pub size : F.State → String → ℤ × Option String
  unfolding size_result
  size s d = size_result s (filepaths s d)

  save_made : String → FilePath → Message → F.State × Option String → F.State × Option CreateError
  save_made d path m (s, some e) =
      (s, some (other ("save: unable to save message to " <> (d <> (": " <> e)))))
  save_made d path m (s, none) = let (s', e) = write_file F s path (marshal m) in (s', failure e)

  -- `save`, of a message whose path is a file of `d`.
  unfoldable pub save : F.State → String → Name → Message → F.State × Option CreateError
  unfolding save_made failure
  save s d name m = save_made d (file d name) m (F.mkdir_all s d)

  -- What `CreateMessage` leaves: the persistor, the message behind the pointer, the filesystem, and
  -- the error.
  pub record Created : Type 0 where
    pub persistor : Persistor
    pub message : Message
    pub fs : F.State
    pub error : Option CreateError

  -- The end of `CreateMessage`: the message gets a path, which is counted, and is saved.
  store_message : Persistor → Message → F.State → Created
  unfolding save
  store_message p m s =
      let name = generated p.pid p.count in
      let m' = record m { path = some (file p.directory name); has_fs = true } in
      let (s', e) = save s p.directory name m' in
      record { persistor = record p { count = suc p.count }; message = m'; fs = s'; error = e }

  check_limit : Option ℤ → Persistor → Message → F.State → ℤ → Created
  unfolding store_message
  check_limit none p m s used = store_message p m s
  check_limit (some limit) p m s used =
      if exceeds limit (size_of m) used
      then record { persistor = p; message = m; fs = s; error = some (storage_full limit used) }
      else store_message p m s

  check_storage : Persistor → Message → F.State → ℤ × Option String → Created
  unfolding check_limit
  check_storage p m s (used, some e) = record {
    persistor = p;
    message = m;
    fs = s;
    error = some (other e);
  }
  check_storage p m s (used, none) = check_limit p.limit p m s used

  -- `CreateMessage`
  unfoldable pub create_message : Persistor → Message → F.State → Created
  unfolding check_storage
  create_message p m s = check_storage p m s (size s p.directory)

  read_result : Message → Result Text → Message
  read_result m (err e) = record m { error = e }
  read_result m (ok t) = decoded m (unmarshal t m)

  -- `loadMessage`
  unfoldable pub load_message : F.State → FilePath → Message
  unfolding read_result
  load_message s path =
      read_result (record { error = ""; topic = ""; bytes = []; path = some path; has_fs = true })
        (F.read_all s path)

  load_result : F.State → Result (List FilePath) → List Message
  load_result s (err e) = error_message e log ∷ []
  load_result s (ok paths) = map (load_message s) paths

  -- `load`: the messages of the stream.
  unfoldable pub load : F.State → String → List Message
  unfolding load_result
  load s d = load_result s (filepaths s d)

  -- `Remove`: the filesystem, and what is logged.
  unfoldable pub remove_path : F.State → Option FilePath → F.State × Option String
  remove_path s none = (s, none)
  remove_path s (some path) = F.remove s path

  unfoldable pub remove : F.State → Message → F.State × Option String
  unfolding remove_path
  remove s m = if m.has_fs then remove_path s m.path else (s, none)
