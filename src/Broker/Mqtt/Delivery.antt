-- ===== src/Broker/Mqtt/Delivery.antt =====
-- Which files the publishing loop removes.
use auklet_client_c.Prelude.{
  ◌≡◌, ◌≢◌, refl, sym, ap, ◌∙◌, ◌⊎◌, inl, inr, String, false, Option, none, some, List, [], ◌∷◌,
  arith,
}
use mathlib.Core.Path.{subst}
use auklet_client_c.Fsutil.{FilePath, Fs, IsLawful}
use auklet_client_c.Broker.Message.{Message}
use auklet_client_c.Broker.Store.{Text, remove, remove_path}
use auklet_client_c.Broker.Mqtt.{
  Client, Producer, World, topic_of, publish, publish_all, serve, settle, log_error,
}

-- The messages that are published with no error, as the client's answers come.
module _ (C : Client) (p : Producer) where
  keep_published : Option String → Message → List Message → List Message
  keep_published none m ms = m ∷ ms
  keep_published (some _) m ms = ms

  unfoldable pub published : C.State → List Message → List Message
  unfolding keep_published
  published c [] = []
  published c (m ∷ ms) =
      let r = C.publish c (topic_of p m) m.bytes in keep_published r.1 m (published r.0 ms)

-- No message has the path.
abbrev pub NotAt : FilePath → List Message → Type 0
NotAt q [] = Unit {0}
NotAt q (m ∷ ms) = ((m.has_fs ≡ false) ⊎ (m.path ≢ some q)) × NotAt q ms

module _ (C : Client) (F : Fs Text) (L : IsLawful F) (p : Producer) (q : FilePath) where
  read-remove_path :
      (s : F.State) (o : Option FilePath)
      → o ≢ some q
      → F.read_all (remove_path F s o).0 q ≡ F.read_all s q
  unfolding remove_path
  read-remove_path s none h = refl
  read-remove_path s (some r) h = L.read-remove_other s r q (λ e. h (ap some e))

  read-remove :
      (s : F.State) (m : Message)
      → (m.has_fs ≡ false) ⊎ (m.path ≢ some q)
      → F.read_all (remove F s m).0 q ≡ F.read_all s q
  unfolding remove
  read-remove s m (inl h) = rw h refl
  read-remove s m (inr h) = ground (arith, read-remove_path s m.path h)

  fs-log_error : (e : Option String) (w : World C F) → (log_error C F e w).fs ≡ w.fs
  unfolding log_error
  fs-log_error none w = refl
  fs-log_error (some e) w = refl

  client-log_error : (e : Option String) (w : World C F) → (log_error C F e w).client ≡ w.client
  unfolding log_error
  client-log_error none w = refl
  client-log_error (some e) w = refl

  read-settle :
      (m : Message) (e : Option String) (w : World C F)
      → (e ≡ none → (m.has_fs ≡ false) ⊎ (m.path ≢ some q))
      → F.read_all (settle C F m e w).fs q ≡ F.read_all w.fs q
  unfolding settle
  read-settle m (some e) w h = refl
  read-settle m none w h =
      ap (λ s. F.read_all s q)
        (fs-log_error (remove F w.fs m).1 (record w { fs = (remove F w.fs m).0 }))
      ∙ read-remove w.fs m (h refl)

  -- One publication leaves the file alone unless it succeeds and the message has that path.
  pub read-publish :
      (m : Message) (w : World C F)
      → ((C.publish w.client (topic_of p m) m.bytes).1 ≡ none
          → (m.has_fs ≡ false) ⊎ (m.path ≢ some q))
      → F.read_all (publish C F p m w).fs q ≡ F.read_all w.fs q
  unfolding publish
  read-publish m w h =
      let (c, e) = C.publish w.client (topic_of p m) m.bytes in
      read-settle m e (record w { client = c }) h

  NotAt-head :
      (e : Option String) (m : Message) (ms : List Message)
      → NotAt q (keep_published C p e m ms)
      → (e ≡ none → (m.has_fs ≡ false) ⊎ (m.path ≢ some q)) × NotAt q ms
  unfolding keep_published
  NotAt-head none m ms h = (λ _. h.0, h.1)
  NotAt-head (some e) m ms h = ((λ none_is. cc), h)

  client-settle :
      (m : Message) (e : Option String) (w : World C F) → (settle C F m e w).client ≡ w.client
  unfolding settle
  client-settle m (some e) w = refl
  client-settle m none w =
      client-log_error (remove F w.fs m).1 (record w { fs = (remove F w.fs m).0 })

  read-publish_all :
      (ms : List Message) (w : World C F)
      → NotAt q (published C p w.client ms)
      → F.read_all (publish_all C F p ms w).fs q ≡ F.read_all w.fs q
  unfolding publish_all published publish
  read-publish_all [] w h = refl
  read-publish_all (m ∷ ms) w h =
      let (c, e) = C.publish w.client (topic_of p m) m.bytes in
      let (head, tail) = NotAt-head e m (published C p c ms) h in
      let client_is = client-settle m e (record w { client = c }) in
      read-publish_all ms (publish C F p m w)
        (subst (λ d. NotAt q (published C p d ms)) (sym client_is) tail)
      ∙ read-settle m e (record w { client = c }) head

  -- On a lawful filesystem, `Serve` leaves a file alone unless a message with that path was
  -- published with no error.
  pub read-serve :
      (ms : List Message) (w : World C F)
      → NotAt q (published C p w.client ms)
      → F.read_all (serve C F p ms w).fs q ≡ F.read_all w.fs q
  unfolding serve
  read-serve ms w h = read-publish_all ms w h
