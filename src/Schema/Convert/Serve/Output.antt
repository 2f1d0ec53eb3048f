-- ===== src/Schema/Convert/Serve/Output.antt =====
-- What the converter sends, with a persistor and without.
use auklet_client_c.Prelude.{
  ◌≡◌, refl, sym, ap, ◌∙◌, true, false, Option, none, some, List, [], ◌∷◌, ◌++◌, ◌<>◌, map,
  append-nil, append_assoc, arith, if◌then◌else◌, Bool-cases, inl, inr,
}
use mathlib.Core.Path.{subst}
use auklet_client_c.Fsutil.{Fs, IsLawful}
use auklet_client_c.Agent.Message.{Message as AgentMessage}
use auklet_client_c.Broker.Message.{Message, log}
use auklet_client_c.Prelude.Decimal.{decimal}
use auklet_client_c.Broker.Store.{
  Text, Persistor, CreateError, storage_full, other, create_message, error_text,
}
use auklet_client_c.Broker.Store.Create.{created-placed}
use auklet_client_c.Broker.Store.Retention.{
  create_all, AllStored, create_all-AllStored, keep_stored,
}
use auklet_client_c.Schema.Convert.{Codec, Ambient, Config, convert}
use auklet_client_c.Schema.Convert.Serve.{
  Action, send, close_monitor, close_out, is_dropped, World, outcome, act, store_or_pass, forward,
  forward_all, serve,
}

-- The messages that name a file.
abbrev pub with_file : List Message → List Message
with_file [] = []
with_file (m ∷ ms) = let rest = with_file ms in if m.has_fs then m ∷ rest else rest

module _ (X : Codec) (F : Fs Text) (c : Config) where
  -- The messages that are not dropped, converted.
  abbrev pub converted : List (Ambient X.Metrics × AgentMessage) → List Message
  converted [] = []
  converted ((a, m) ∷ ms) =
      let rest = converted ms in if is_dropped m then rest else convert X c a m ∷ rest

  -- What is to be sent for a message after its creation: the message, or one for the log with the text
  -- of the error and nothing else.
  abbrev pub reply_of : Option CreateError → Message → Message
  reply_of none m = m
  reply_of (some (storage_full limit used)) m = record {
    error =
        "persistor: storage full: "
        <> (decimal used <> (" used of " <> (decimal limit <> " limit")));
    topic = log;
    bytes = [];
    path = none;
    has_fs = false;
  }
  reply_of (some (other e)) m = record {
    error = e;
    topic = log;
    bytes = [];
    path = none;
    has_fs = false;
  }

  outcome-reply_of : (e : Option CreateError) (m : Message) → outcome X F c e m ≡ reply_of e m
  unfolding outcome error_text
  outcome-reply_of none m = refl
  outcome-reply_of (some (storage_full limit used)) m = refl
  outcome-reply_of (some (other e)) m = refl

  -- What is to be sent for messages that are created one after the other.
  abbrev pub replies : Persistor → List Message → F.State → List Message
  replies p [] s = []
  replies p (m ∷ ms) s =
      let r = create_message F p m s in reply_of r.error r.message ∷ replies r.persistor ms r.fs

  -- The whole of the loop's actions for the messages that it sends.
  abbrev pub all_actions : List Message → List Action
  all_actions ms = map send ms ++ (close_monitor ∷ close_out ∷ [])

  pub forward-dropped :
      (a : Ambient X.Metrics) (m : AgentMessage) (w : World F)
      → is_dropped m ≡ true
      → forward X F c (a, m) w ≡ w
  unfolding forward
  forward-dropped a m w dropped = rw dropped refl

  pub forward-unstored :
      (a : Ambient X.Metrics) (m : AgentMessage) (s : F.State) (old : List Action)
      → is_dropped m ≡ false
      → forward X F c (a, m) (record { persistor = none; fs = s; actions = old })
        ≡ record { persistor = none; fs = s; actions = old ++ (send (convert X c a m) ∷ []) }
  unfolding forward store_or_pass act
  forward-unstored a m s old kept = rw kept refl

  pub forward-stored :
      (a : Ambient X.Metrics) (m : AgentMessage) (p : Persistor) (s : F.State) (old : List Action)
      → is_dropped m ≡ false
      → let r = create_message F p (convert X c a m) s in
        forward X F c (a, m) (record { persistor = some p; fs = s; actions = old }) ≡ record {
          persistor = some r.persistor;
          fs = r.fs;
          actions = old ++ (send (reply_of r.error r.message) ∷ []);
        }
  unfolding forward store_or_pass act
  forward-stored a m p s old kept =
      let r = create_message F p (convert X c a m) s in
      rw (kept, sym (outcome-reply_of r.error r.message)) refl

  forward_all-unstored :
      (ms : List (Ambient X.Metrics × AgentMessage)) (s : F.State) (old : List Action)
      → forward_all X F c ms (record { persistor = none; fs = s; actions = old })
        ≡ record { persistor = none; fs = s; actions = old ++ map send (converted ms) }
  unfolding forward_all
  forward_all-unstored [] s old = ground (arith, append-nil old)
  forward_all-unstored ((a, m) ∷ ms) s old = elim (Bool-cases (is_dropped m)) [
    | inl dropped ↦ rw (forward-dropped a m _ dropped, dropped) (forward_all-unstored ms s old)
    | inr kept ↦
        rw (forward-unstored a m s old kept, kept)
          (forward_all-unstored ms s (old ++ (send (convert X c a m) ∷ []))
            ∙ ap (λ l. record { persistor = none; fs = s; actions = l })
                (append_assoc old (send (convert X c a m) ∷ []) (map send (converted ms))))
  ]

  forward_all-stored :
      (ms : List (Ambient X.Metrics × AgentMessage)) (p : Persistor) (s : F.State)
      (old : List Action)
      → let w = forward_all X F c ms (record { persistor = some p; fs = s; actions = old }) in
        (w.actions ≡ old ++ map send (replies p (converted ms) s))
        × (w.fs ≡ (create_all F p (converted ms) s).1)
  unfolding forward_all create_all keep_stored
  forward_all-stored [] p s old = (ground (arith, append-nil old), refl)
  forward_all-stored ((a, m) ∷ ms) p s old = elim (Bool-cases (is_dropped m)) [
    | inl dropped ↦
        rw
          (
            forward_all,
            forward-dropped a m (record { persistor = some p; fs = s; actions = old }) dropped,
            dropped,
          )
          (forward_all-stored ms p s old)
    | inr kept ↦
        let r = create_message F p (convert X c a m) s in
        let x = send (reply_of r.error r.message) ∷ [] in
        let rest = forward_all-stored ms r.persistor r.fs (old ++ x) in
        rw (forward_all, forward-stored a m p s old kept, kept)
          (rest.0 ∙ append_assoc old x (map send (replies r.persistor (converted ms) r.fs)), rest.1)
  ]

  -- With no persistor, the loop sends each message that is not dropped as it was converted, in order,
  -- and then closes the monitor and after it the output.
  pub serve-unstored :
      (ms : List (Ambient X.Metrics × AgentMessage)) (s : F.State)
      → (serve X F c ms (record { persistor = none; fs = s; actions = [] })).actions
        ≡ all_actions (converted ms)
  unfolding serve act
  serve-unstored ms s =
      rw (forward_all-unstored ms s [])
        (append_assoc (map send (converted ms)) (close_monitor ∷ []) (close_out ∷ []))

  with_file-reply_of :
      (e : Option CreateError) (m : Message) (ms : List Message)
      → (e ≡ none → m.has_fs ≡ true)
      → with_file (reply_of e m ∷ ms) ≡ keep_stored e m (with_file ms)
  unfolding keep_stored
  with_file-reply_of none m ms h = rw (h refl) refl
  with_file-reply_of (some (storage_full limit used)) m ms h = refl
  with_file-reply_of (some (other e)) m ms h = refl

  with_file-replies :
      IsLawful F
      → (ms : List Message) (p : Persistor) (s : F.State)
      → with_file (replies p ms s) ≡ (create_all F p ms s).0
  unfolding create_all
  with_file-replies L [] p s = refl
  with_file-replies L (m ∷ ms) p s =
      let r = create_message F p m s in
      with_file-reply_of r.error r.message (replies r.persistor ms r.fs)
        (λ h. ap (λ (x : Message). x.has_fs) (created-placed F L p m s h).0)
      ∙ ap (keep_stored r.error r.message) (with_file-replies L ms r.persistor r.fs)

  -- With a persistor, the loop sends for each message that is not dropped, in order, the stored
  -- message, or else one for the log with the error's text: that the storage is full, with what is
  -- used and the limit, or the error of the filesystem. Then it closes the monitor and after it
  -- the output. On a lawful filesystem, every message sent that names a file is loaded
  -- from it at the end as it was sent.
  pub serve-AllStored :
      IsLawful F
      → (ms : List (Ambient X.Metrics × AgentMessage)) (p : Persistor) (s : F.State)
      → let w = serve X F c ms (record { persistor = some p; fs = s; actions = [] }) in
        let sent = replies p (converted ms) s in
        (w.actions ≡ all_actions sent) × AllStored F w.fs (with_file sent)
  unfolding serve act
  serve-AllStored L ms p s =
      let w = forward_all-stored ms p s [] in
      let sent = replies p (converted ms) s in
      (
        rw (w.0) (append_assoc (map send sent) (close_monitor ∷ []) (close_out ∷ [])),
        subst
            (λ l.
              AllStored F
                (forward_all X F c ms (record { persistor = some p; fs = s; actions = [] })).fs l)
            (sym (with_file-replies L (converted ms) p s))
            (subst (λ t. AllStored F t (create_all F p (converted ms) s).0) (sym w.1)
              (create_all-AllStored F L (converted ms) p s)),
      )
