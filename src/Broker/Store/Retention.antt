-- ===== src/Broker/Store/Retention.antt =====
-- A row of messages that are created under one persistor, and what is stored at the end.
use auklet_client_c.Prelude.{
  ℕ, ◌≤◌, ◌<◌, ◌≡◌, ◌≢◌, refl, sym, ap, ◌∙◌, Option, none, some, List, [], ◌∷◌, arith,
}
use auklet_client_c.Fsutil.{FilePath, file, generated, Fs, IsLawful}
use auklet_client_c.Broker.Message.{Message}
use auklet_client_c.Broker.Store.{Text, Persistor, CreateError, create_message, load_message}
use auklet_client_c.Broker.Store.Create.{
  next_path, create_message-other, created-placed, load-create,
}

-- A message whose creation gave no error comes in front of those that follow.
unfoldable pub keep_stored : Option CreateError → Message → List Message → List Message
keep_stored none m ms = m ∷ ms
keep_stored (some _) m ms = ms

module _ (F : Fs Text) where
  -- The messages that were stored, and the filesystem at the end.
  unfoldable pub create_all : Persistor → List Message → F.State → List Message × F.State
  unfolding keep_stored
  create_all p [] s = ([], s)
  create_all p (m ∷ ms) s =
      let r = create_message F p m s in
      let rest = create_all r.persistor ms r.fs in (keep_stored r.error r.message rest.0, rest.1)

  -- A message that its file holds.
  abbrev pub IsStored : F.State → Message → Type 0
  IsStored s m = (q : FilePath) × (m.path ≡ some q) × (load_message F s q ≡ m)

  abbrev pub AllStored : F.State → List Message → Type 0
  AllStored s [] = Unit {0}
  AllStored s (m ∷ ms) = IsStored s m × AllStored s ms

  -- The counter never falls, and the directory and the process stay.
  pub record Follows (p p' : Persistor) : Type 0 where
    pub same_directory : p'.directory ≡ p.directory
    pub same_pid : p'.pid ≡ p.pid
    pub counted : p.count ≤ p'.count

  pub Follows-create :
      (p : Persistor) (m : Message) (s : F.State) → Follows p (create_message F p m s).persistor
  unfolding create_message
  Follows-create p m s = ground arith

  -- The file of an earlier count.
  abbrev pub earlier : Persistor → ℕ → FilePath
  earlier p k = file p.directory (generated p.pid k)

  pub next-ne_earlier : (p : Persistor) (k : ℕ) → k < p.count → next_path F p ≢ earlier p k
  next-ne_earlier p k h e = ground arith

  pub load-read :
      (s s' : F.State) (q : FilePath)
      → F.read_all s' q ≡ F.read_all s q
      → load_message F s' q ≡ load_message F s q
  unfolding load_message
  load-read s s' q h = rw h refl

  AllStored-keep :
      (s : F.State) (e : Option CreateError) (m : Message) (ms : List Message)
      → (e ≡ none → IsStored s m)
      → AllStored s ms
      → AllStored s (keep_stored e m ms)
  unfolding keep_stored
  AllStored-keep s none m ms h hs = (h refl, hs)
  AllStored-keep s (some _) m ms h hs = hs

  module _ (L : IsLawful F) where
    load-earlier :
        (ms : List Message) (p : Persistor) (s : F.State) (k : ℕ)
        → k < p.count
        → load_message F (create_all p ms s).1 (earlier p k) ≡ load_message F s (earlier p k)
    unfolding create_all
    load-earlier [] p s k h = refl
    load-earlier (m ∷ ms) p s k h =
        let r = create_message F p m s in
        let f = Follows-create p m s in
        let same : earlier r.persistor k ≡ earlier p k = cc (f.same_directory, f.same_pid) in
        ap (load_message F (create_all r.persistor ms r.fs).1) (sym same)
        ∙ load-earlier ms r.persistor r.fs k (omega (arith, f.counted))
        ∙ ap (load_message F r.fs) same
        ∙ load-read s r.fs (earlier p k)
            (create_message-other F L p m s (earlier p k) (next-ne_earlier p k h))

    pub create-IsStored :
        (m : Message) (ms : List Message) (p : Persistor) (s : F.State)
        → (create_message F p m s).error ≡ none
        → let r = create_message F p m s in IsStored (create_all r.persistor ms r.fs).1 r.message
    create-IsStored m ms p s h =
        let r = create_message F p m s in
        let made = created-placed F L p m s h in
        let there = load-create F L p m s h in
        let same : earlier r.persistor p.count ≡ next_path F p =
          ap (λ (q : Persistor). earlier q p.count) made.1 in
        (
          next_path F p,
          ap (λ (x : Message). x.path) made.0,
          ap (load_message F (create_all r.persistor ms r.fs).1) (sym same)
              ∙ load-earlier ms r.persistor r.fs p.count
                  (omega (arith, ap (λ (q : Persistor). q.count) made.1))
              ∙ ap (load_message F r.fs) same
              ∙ there.0,
        )

    -- On a lawful filesystem: of a row of messages that are created one after the other, each
    -- that was stored with no error is loaded from its path at the end as it was handed out. None
    -- overwrites another, whatever the errors between them.
    pub create_all-AllStored :
        (ms : List Message) (p : Persistor) (s : F.State)
        → AllStored (create_all p ms s).1 (create_all p ms s).0
    unfolding create_all
    create_all-AllStored [] p s = tt
    create_all-AllStored (m ∷ ms) p s =
        let r = create_message F p m s in
        AllStored-keep (create_all r.persistor ms r.fs).1 r.error r.message
          (create_all r.persistor ms r.fs).0 (create-IsStored m ms p s)
          (create_all-AllStored ms r.persistor r.fs)
