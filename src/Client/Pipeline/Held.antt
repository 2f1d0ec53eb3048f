-- ===== src/Client/Pipeline/Held.antt =====
-- One stored message, as other messages are created and published.
use auklet_client_c.Prelude.{
  ℕ, ◌<◌, ◌≡◌, sym, ap, ◌∙◌, ◌⊎◌, inl, inr, true, String, Option, none, some, List, [], ◌∷◌, ◌++◌,
  arith, Option-cases, Bool-cases,
}
use auklet_client_c.Fsutil.{FilePath, FilePath-discrete, Fs, IsLawful}
use auklet_client_c.Broker.Message.{Message}
use auklet_client_c.Broker.Store.{Text, Persistor, create_message, load_message}
use auklet_client_c.Broker.Store.Create.{
  next_path, create_message-other, created-placed, load-create,
}
use auklet_client_c.Broker.Store.Retention.{
  IsStored, Follows, Follows-create, earlier, next-ne_earlier, load-read,
}
use auklet_client_c.Broker.Mqtt.{Client, Producer, World, topic_of, publish}
use auklet_client_c.Broker.Mqtt.Delivery.{read-publish}
use auklet_client_c.Client.Pipeline.{keep_delivered}

-- A message with that path is among them.
abbrev pub IsDelivered : Option FilePath → List Message → Type 0
IsDelivered p [] = ⊥
IsDelivered p (m ∷ ms) = ((m.has_fs ≡ true) × (m.path ≡ p)) ⊎ IsDelivered p ms

pub IsDelivered-append :
    (p : Option FilePath) (ms more : List Message)
    → IsDelivered p ms ⊎ IsDelivered p more
    → IsDelivered p (ms ++ more)
IsDelivered-append p [] more (inl h) = absurd h
IsDelivered-append p [] more (inr h) = h
IsDelivered-append p (m ∷ ms) more (inl (inl h)) = inl h
IsDelivered-append p (m ∷ ms) more (inl (inr h)) = inr (IsDelivered-append p ms more (inl h))
IsDelivered-append p (m ∷ ms) more (inr h) = inr (IsDelivered-append p ms more (inr h))

some-injective : {A : Type 0} {a b : A} → some a ≡ some b → a ≡ b
some-injective h = cc

Option_path-discrete : Discrete (Option FilePath)
Option_path-discrete = hlevel (FilePath-discrete)

module _ (F : Fs Text) where
  -- A message that the persistor has placed: its file holds it, or it was delivered.
  pub record Held (p : Persistor) (s : F.State) (delivered : List Message) (m : Message)
      : Type 0 where
    pub number : ℕ
    pub below : number < p.count
    pub place : m.path ≡ some (earlier F p number)
    pub kept : IsStored F s m ⊎ IsDelivered m.path delivered

  -- The persistor's number goes on, and its other fields stay.
  pub Held-Follows :
      (p p' : Persistor) (s s' : F.State) (d : List Message) (m : Message)
      → Follows F p p'
      → (h : Held p s d m) → (IsStored F s m → IsStored F s' m)
      → Held p' s' d m
  Held-Follows p p' s s' d m f h keep = record {
    number = h.number;
    below = omega (arith, f.counted, h.below);
    place = h.place ∙ cc (f.same_directory, f.same_pid);
    kept = elim h.kept [ inl stored ↦ inl (keep stored) | inr gone ↦ inr gone ];
  }

  -- Reading the message's own path the same as before keeps it stored.
  IsStored-read :
      (s s' : F.State) (m : Message) (q : FilePath)
      → m.path ≡ some q
      → F.read_all s' q ≡ F.read_all s q
      → IsStored F s m
      → IsStored F s' m
  IsStored-read s s' m q is_q same (r, is_r, there) = (
    q,
    is_q,
    load-read F s s' q same ∙ ap (load_message F s) (some-injective (sym is_q ∙ is_r)) ∙ there,
  )

  module _ (L : IsLawful F) where
    -- The creation of another message.
    pub Held-create :
        (p : Persistor) (s : F.State) (d : List Message) (m x : Message)
        → Held p s d m
        → let r = create_message F p x s in Held r.persistor r.fs d m
    Held-create p s d m x h =
        let r = create_message F p x s in
        Held-Follows p r.persistor s r.fs d m (Follows-create F p x s) h (
          IsStored-read s r.fs m (earlier F p h.number) h.place (
            create_message-other F L p x s (earlier F p h.number)
              (next-ne_earlier F p h.number h.below)))

    -- The message that was created itself.
    pub Held-created :
        (p : Persistor) (s : F.State) (d : List Message) (x : Message)
        → (create_message F p x s).error ≡ none
        → let r = create_message F p x s in Held r.persistor r.fs d r.message
    Held-created p s d x h =
        let r = create_message F p x s in
        let made = created-placed F L p x s h in
        let there = load-create F L p x s h in
        let at_path : r.message.path ≡ some (next_path F p) = ap (λ (y : Message). y.path) made.0 in
        record {
          number = p.count;
          below = omega (arith, ap (λ (y : Persistor). y.count) made.1);
          place = at_path ∙ ap (λ (y : Persistor). some (earlier F y p.count)) (sym made.1);
          kept = inl (next_path F p, at_path, there.0);
        }

    module _ (C : Client) (producer : Producer) where
      -- The error of a publication.
      abbrev pub error_of : Message → World C F → Option String
      error_of x w = (C.publish w.client (topic_of producer x) x.bytes).1

      IsDelivered-keep :
          (q : Option FilePath) (e : Option String) (x : Message) (d : List Message)
          → IsDelivered q d
          → IsDelivered q (keep_delivered e x d)
      unfolding keep_delivered
      IsDelivered-keep q none x d h = IsDelivered-append q d (x ∷ []) (inl h)
      IsDelivered-keep q (some e) x d h = h

      IsDelivered-last :
          (q : Option FilePath) (e : Option String) (x : Message) (d : List Message)
          → e ≡ none
          → x.has_fs ≡ true
          → x.path ≡ q
          → IsDelivered q (keep_delivered e x d)
      unfolding keep_delivered
      IsDelivered-last q none x d h f g = IsDelivered-append q d (x ∷ []) (inr (inl (f, g)))
      IsDelivered-last q (some e) x d h f g = cc

      -- What can become of a file by a publication.
      unaffected :
          (x : Message) (w : World C F) (q : FilePath)
          → (F.read_all (publish C F producer x w).fs q ≡ F.read_all w.fs q)
            ⊎ ((error_of x w ≡ none) × (x.has_fs ≡ true) × (x.path ≡ some q))
      unaffected x w q = elim (Option-cases (error_of x w)) [
        | inr failed ↦ inl (read-publish C F L producer q x w (λ fine. cc (fine, failed.1)))
        | inl fine ↦ elim (Bool-cases x.has_fs) [
          | inr no_fs ↦ inl (read-publish C F L producer q x w (λ _. inl no_fs))
          | inl has_fs ↦ elim (Option_path-discrete x.path (some q)) [
            | yes same ↦ inr (fine, has_fs, same)
            | no other ↦ inl (read-publish C F L producer q x w (λ _. inr other))
          ]
        ]
      ]

      -- The publication of a message.
      pub Held-publish :
          (p : Persistor) (d : List Message) (m x : Message) (w : World C F)
          → Held p w.fs d m
          → Held p (publish C F producer x w).fs (keep_delivered (error_of x w) x d) m
      Held-publish p d m x w h = record {
        number = h.number;
        below = h.below;
        place = h.place;
        kept = elim h.kept [
          | inr gone ↦ inr (IsDelivered-keep m.path (error_of x w) x d gone)
          | inl stored ↦ elim (unaffected x w (earlier F p h.number)) [
            | inl same ↦ inl (
                IsStored-read w.fs (publish C F producer x w).fs m (earlier F p h.number) h.place
                  same stored)
            | inr (fine, has_fs, is_q) ↦
                inr (IsDelivered-last m.path (error_of x w) x d fine has_fs (is_q ∙ sym h.place))
          ]
        ];
      }
