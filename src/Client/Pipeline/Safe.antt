-- ===== src/Client/Pipeline/Safe.antt =====
-- All messages that the converter has sent, as it goes on.
use auklet_client_c.Prelude.{
  ◌≡◌, refl, sym, ◌⊎◌, inl, inr, false, Option, none, some, List, [], ◌∷◌, ◌++◌, append-nil, arith,
  Bool-cases,
}
use mathlib.Core.Path.{subst}
use auklet_client_c.Fsutil.{Fs, IsLawful}
use auklet_client_c.Agent.Message.{Message as AgentMessage}
use auklet_client_c.Broker.Message.{Message}
use auklet_client_c.Broker.Store.{Text, Persistor, CreateError, storage_full, other, create_message}
use auklet_client_c.Schema.Convert.{Codec, Ambient, Config, convert}
use auklet_client_c.Schema.Convert.Serve.{is_dropped, forward}
use auklet_client_c.Schema.Convert.Serve.Output.{
  reply_of, forward-dropped, forward-unstored, forward-stored,
}
use auklet_client_c.Client.Pipeline.{messages_of}
use auklet_client_c.Client.Pipeline.Held.{Held, Held-create, Held-created}

module _ (F : Fs Text) where
  -- A message that names no file, or that the persistor has placed.
  abbrev pub IsSafe : Option Persistor → F.State → List Message → Message → Type 0
  IsSafe o s d m = (m.has_fs ≡ false) ⊎ ((p : Persistor) × (o ≡ some p) × Held F p s d m)

  abbrev pub AllSafe : Option Persistor → F.State → List Message → List Message → Type 0
  AllSafe o s d [] = Unit {0}
  AllSafe o s d (m ∷ ms) = IsSafe o s d m × AllSafe o s d ms

  AllSafe-append :
      (o : Option Persistor) (s : F.State) (d ms more : List Message)
      → AllSafe o s d ms
      → AllSafe o s d more
      → AllSafe o s d (ms ++ more)
  AllSafe-append o s d [] more h k = k
  AllSafe-append o s d (m ∷ ms) more (h, hs) k = (h, AllSafe-append o s d ms more hs k)

  pub AllSafe-map :
      (o o' : Option Persistor) (s s' : F.State) (d d' ms : List Message)
      → ((m : Message) → IsSafe o s d m → IsSafe o' s' d' m)
      → AllSafe o s d ms
      → AllSafe o' s' d' ms
  AllSafe-map o o' s s' d d' [] f h = tt
  AllSafe-map o o' s s' d d' (m ∷ ms) f (h, hs) = (f m h, AllSafe-map o o' s s' d d' ms f hs)

  some-injective : {A : Type 0} {a b : A} → some a ≡ some b → a ≡ b
  some-injective h = cc

  -- What every placed message keeps, every message keeps.
  pub IsSafe-map :
      (p p' : Persistor) (s s' : F.State) (d d' : List Message) (m : Message)
      → (Held F p s d m → Held F p' s' d' m)
      → IsSafe (some p) s d m
      → IsSafe (some p') s' d' m
  IsSafe-map p p' s s' d d' m f (inl plain) = inl plain
  IsSafe-map p p' s s' d d' m f (inr (q, e, h)) =
      inr (p', refl, f (subst (λ r. Held F r s d m) (sym (some-injective e)) h))

module _ (X : Codec) (c : Config) where
  -- The converter's messages name no file before they are stored.
  convert-plain : (a : Ambient X.Metrics) (m : AgentMessage) → (convert X c a m).has_fs ≡ false
  unfolding convert
  convert-plain a m = ground arith

module _ (X : Codec) (F : Fs Text) (L : IsLawful F) (c : Config) where
  IsSafe-reply_of :
      (p : Persistor) (s : F.State) (d : List Message) (x : Message) (e : Option CreateError)
      → (create_message F p x s).error ≡ e
      → let r = create_message F p x s in
        IsSafe F (some r.persistor) r.fs d (reply_of X F c e r.message)
  IsSafe-reply_of p s d x none h =
      inr ((create_message F p x s).persistor, refl, Held-created F L p s d x h)
  IsSafe-reply_of p s d x (some (storage_full n k)) h = inl refl
  IsSafe-reply_of p s d x (some (other e)) h = inl refl

  -- What the converter has sent, after a message that it takes.
  pub AllSafe-forward :
      (o : Option Persistor) (s : F.State) (d sent : List Message) (a : Ambient X.Metrics)
      (m : AgentMessage)
      → AllSafe F o s d sent
      → let w = forward X F c (a, m) (record { persistor = o; fs = s; actions = [] }) in
        AllSafe F w.persistor w.fs d (sent ++ messages_of w.actions)
  AllSafe-forward none s d sent a m h = elim (Bool-cases (is_dropped m)) [
    | inl dropped ↦
        rw
          (
            forward-dropped X F c a m (record { persistor = none; fs = s; actions = [] }) dropped,
            append-nil sent,
          )
          h
    | inr taken ↦
        rw (forward-unstored X F c a m s [] taken) (
          AllSafe-append F none s d sent (convert X c a m ∷ []) h (inl (convert-plain X c a m), tt))
  ]
  AllSafe-forward (some p) s d sent a m h = elim (Bool-cases (is_dropped m)) [
    | inl dropped ↦
        rw
          (
            forward-dropped X F c a m (record { persistor = some p; fs = s; actions = [] }) dropped,
            append-nil sent,
          )
          h
    | inr taken ↦
        let x = convert X c a m in
        let r = create_message F p x s in
        rw (forward-stored X F c a m p s [] taken) (
          AllSafe-append F (some r.persistor) r.fs d sent (reply_of X F c r.error r.message ∷ [])
            (AllSafe-map F (some p) (some r.persistor) s r.fs d d sent
              (λ y. IsSafe-map F p r.persistor s r.fs d d y (Held-create F L p s d y x)) h)
            (IsSafe-reply_of p s d x r.error refl, tt))
  ]
