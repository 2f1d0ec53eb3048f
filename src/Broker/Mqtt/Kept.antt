-- ===== src/Broker/Mqtt/Kept.antt =====
-- Stored messages on their way from the store to the publication.
use auklet_client_c.Prelude.{◌≡◌, sym, ap, ◌∙◌, String, some, List, [], ◌∷◌, ok}
use mathlib.Core.List.{Memᴰ}
use mathlib.Core.List.Memᴰ.{head, tail}
use mathlib.Core.Path.{subst}
use auklet_client_c.Fsutil.{FilePath, Fs, IsLawful}
use auklet_client_c.Broker.Message.{Message}
use auklet_client_c.Broker.Store.{Text, Persistor, filepaths, load_message, load}
use auklet_client_c.Broker.Store.Loading.{load-Mem}
use auklet_client_c.Broker.Store.Retention.{
  create_all, IsStored, AllStored, create_all-AllStored, load-read,
}
use auklet_client_c.Broker.Mqtt.{Client, Producer, World, serve}
use auklet_client_c.Broker.Mqtt.Delivery.{published, NotAt, read-serve}

some-injective : {A : Type 0} {a b : A} → some a ≡ some b → a ≡ b
some-injective h = cc

module _ (F : Fs Text) where
  AllStored-Mem :
      (s : F.State) (m : Message) (ms : List Message)
      → AllStored F s ms
      → Memᴰ m ms
      → IsStored F s m
  AllStored-Mem s m [] h e = elim e [ ]
  AllStored-Mem s m (x ∷ xs) (h, hs) (head e) = subst (λ y. IsStored F s y) (sym e) h
  AllStored-Mem s m (x ∷ xs) (h, hs) (tail e) = AllStored-Mem s m xs hs e

  IsStored-load :
      (s : F.State) (m : Message) (q : FilePath)
      → IsStored F s m
      → m.path ≡ some q
      → load_message F s q ≡ m
  IsStored-load s m q (r, path, there) is_q =
      ap (load_message F s) (some-injective (sym is_q ∙ path)) ∙ there

  -- On a lawful filesystem: a message that was stored, in a row of messages created one after the
  -- other, is loaded from its file as it was handed out after the producer has served any
  -- messages, in any order, unless one with that file was published with no error.
  pub load-serve :
      IsLawful F
      → (C : Client) (c : C.State) (producer : Producer) (logged : List String)
      → (p : Persistor) (ms : List Message) (s : F.State) (passed : List Message)
      → (m : Message) (q : FilePath) → Memᴰ m (create_all F p ms s).0
      → m.path ≡ some q
      → NotAt q (published C producer c passed)
      → let w : World C F = record { client = c; fs = (create_all F p ms s).1; logged = logged } in
        load_message F (serve C F producer passed w).fs q ≡ m
  load-serve L C c producer logged p ms s passed m q stored is_q free =
      let r = create_all F p ms s in
      let w : World C F = record { client = c; fs = r.1; logged = logged } in
      load-read F r.1 (serve C F producer passed w).fs q (read-serve C F L producer q passed w free)
      ∙ IsStored-load r.1 m q (AllStored-Mem r.1 m r.0 (create_all-AllStored F L ms p s) stored)
          is_q

  -- On a lawful filesystem: a message that was stored, in a row of messages created one after the
  -- other, is among those that are loaded from a directory after the producer has served any
  -- messages, if the directory then lists its file, and unless one with that file was published
  -- with no error.
  pub load-reloads :
      IsLawful F
      → (C : Client) (c : C.State) (producer : Producer) (logged : List String)
      → (p : Persistor) (ms : List Message) (s : F.State) (passed : List Message)
      → (m : Message) (q : FilePath) (d : String) (paths : List FilePath)
      → Memᴰ m (create_all F p ms s).0
      → m.path ≡ some q
      → NotAt q (published C producer c passed)
      → let w : World C F = record { client = c; fs = (create_all F p ms s).1; logged = logged } in
        filepaths F (serve C F producer passed w).fs d ≡ ok paths
        → Memᴰ q paths
        → Memᴰ m (load F (serve C F producer passed w).fs d)
  load-reloads L C c producer logged p ms s passed m q d paths stored is_q free listed e =
      let w : World C F = record { client = c; fs = (create_all F p ms s).1; logged = logged } in
      let s' = (serve C F producer passed w).fs in
      subst (λ y. Memᴰ y (load F s' d))
        (load-serve L C c producer logged p ms s passed m q stored is_q free)
        (load-Mem F s' d paths q listed e)
