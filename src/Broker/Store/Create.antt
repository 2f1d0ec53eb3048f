-- ===== src/Broker/Store/Create.antt =====
-- `CreateMessage` on every branch: the storage limit, and what is stored.
use auklet_client_c.Prelude.{
  ℕ, suc, ◌+◌, ◌*◌, ◌/◌, ◌≤◌, ◌<◌, ◌≡◌, ◌≢◌, refl, sym, ◌∙◌, ltb, ◌⊎◌, String, true, none, some, ok,
  arith,
}
use auklet_client_c.Prelude.Int.{pos}
use auklet_client_c.Prelude.Int64.{two_63, quot64, mul64-pos, add64-pos}
use auklet_client_c.Fsutil.{
  FilePath, file, generated, Name, Fs, IsLawful, write_file, read-write_file, read-write_file_other,
}
use auklet_client_c.Broker.Message.{Message, size_of}
use auklet_client_c.Broker.Store.{
  Text, Persistor, storage_full, marshal, unmarshal, decoded, size, exceeds, save, create_message,
  load_message,
}

-- Within the range of `int64` the test is that of plain numbers.
exceeds-pos :
    (limit n used : ℕ)
    → 9 * limit < two_63
    → n + used < two_63
    → exceeds (pos limit) n (pos used) ≡ ltb (9 * limit / 10) (n + used)
unfolding exceeds quot64
exceeds-pos limit n used small fits = ground (arith, mul64-pos 9 limit, add64-pos n used)

module _ (F : Fs Text) where
  -- The path that the next message gets.
  abbrev pub next_path : Persistor → FilePath
  next_path p = file p.directory (generated p.pid p.count)

  -- The message with that path.
  abbrev pub placed : Persistor → Message → Message
  placed p m = record m { path = some (next_path p); has_fs = true }

  -- With a limit, and a directory whose size can be read, `CreateMessage` refuses a message exactly
  -- if the message's bytes and the bytes in use exceed nine tenths of the limit. Then it changes
  -- nothing and says how much is used; else the message gets a path of its own, whether or not it
  -- can be written. The numbers are in the range of `int64`.
  pub create_message-limit :
      (limit used : ℕ) (p : Persistor) (m : Message) (s : F.State)
      → p.limit ≡ some (pos limit)
      → size F s p.directory ≡ (pos used, none)
      → 9 * limit < two_63
      → size_of m + used < two_63
      → let r = create_message F p m s in
        ((9 * limit / 10 < size_of m + used)
          × (r.error ≡ some (storage_full (pos limit) (pos used)))
          × (r.fs ≡ s)
          × (r.persistor ≡ p)
          × (r.message ≡ m))
        ⊎ ((size_of m + used ≤ 9 * limit / 10)
            × (r.persistor ≡ record p { count = suc p.count })
            × (r.message ≡ placed p m))
  unfolding create_message
  create_message-limit limit used p m s has known small fits =
      ground (arith, has, known, exceeds-pos limit (size_of m) used small fits)

  module _ (L : IsLawful F) where
    read-save_other :
        (s : F.State) (d : String) (q : FilePath) (name : Name) (m : Message)
        → file d name ≢ q
        → F.read_all (save F s d name m).0 q ≡ F.read_all s q
    unfolding save
    read-save_other s d q name m ne = ground (
      arith,
      L.read-mkdir_all s d q,
      read-write_file_other F L (F.mkdir_all s d).0 (file d name) q (marshal m) ne,
    )

    read-save :
        (s : F.State) (d : String) (name : Name) (m : Message)
        → (save F s d name m).1 ≡ none
        → F.read_all (save F s d name m).0 (file d name) ≡ ok (marshal m)
    unfolding save
    read-save s d name m h = ground (
      arith,
      read-write_file F L (F.mkdir_all s d).0
          (write_file F (F.mkdir_all s d).0 (file d name) (marshal m)).0 (file d name) (marshal m),
    )

    -- Whatever its result, `CreateMessage` leaves the other files alone.
    pub create_message-other :
        (p : Persistor) (m : Message) (s : F.State) (q : FilePath)
        → next_path p ≢ q
        → F.read_all (create_message F p m s).fs q ≡ F.read_all s q
    unfolding create_message
    create_message-other p m s q ne =
        ground (arith, read-save_other s p.directory q (generated p.pid p.count) (placed p m) ne)

    load-marshal :
        (s : F.State) (p : Persistor) (m : Message)
        → F.read_all s (next_path p) ≡ ok (marshal m)
        → load_message F s (next_path p) ≡ placed p m
    unfolding load_message marshal unmarshal decoded
    load-marshal s p m h = rw h refl

    read-create :
        (p : Persistor) (m : Message) (s : F.State)
        → (create_message F p m s).error ≡ none
        → F.read_all (create_message F p m s).fs (next_path p) ≡ ok (marshal m)
    unfolding create_message marshal
    read-create p m s h =
        ground (arith, read-save s p.directory (generated p.pid p.count) (placed p m))

    pub created-placed :
        (p : Persistor) (m : Message) (s : F.State)
        → (create_message F p m s).error ≡ none
        → ((create_message F p m s).message ≡ placed p m)
          × ((create_message F p m s).persistor ≡ record p { count = suc p.count })
    unfolding create_message
    created-placed p m s h = ground arith

    -- On a lawful filesystem, a message that `CreateMessage` has stored with no error is loaded
    -- as it was handed over, with its path.
    pub load-create :
        (p : Persistor) (m : Message) (s : F.State)
        → (create_message F p m s).error ≡ none
        → let r = create_message F p m s in
          (load_message F r.fs (next_path p) ≡ r.message) × (r.message ≡ placed p m)
    load-create p m s h =
        let made = created-placed p m s h in
        (load-marshal (create_message F p m s).fs p m (read-create p m s h) ∙ sym made.0, made.0)
