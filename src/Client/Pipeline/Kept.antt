-- ===== src/Client/Pipeline/Kept.antt =====
-- The stored messages while the pipeline runs.
use auklet_client_c.Prelude.{
  ℕ, ◌≡◌, refl, inl, inr, Bool, true, false, String, Option, none, some, List, [], ◌∷◌, arith,
  Result, ok, err, if◌then◌else◌,
}
use mathlib.Core.Option
use auklet_client_c.Fsutil.{FilePath, Fs, IsLawful}
use auklet_client_c.Agent.Message.{Message as AgentMessage, Decoded}
use auklet_client_c.Broker.Message.{Message}
use auklet_client_c.Broker.Store.{Text, Persistor, set_limit}
use auklet_client_c.Broker.Store.Retention.{Follows}
use auklet_client_c.Broker.Mqtt
use auklet_client_c.Broker.Mqtt.{Client, Producer, publish}
use auklet_client_c.Message.Persistor
use auklet_client_c.Schema.Convert.{Codec, Ambient, Config}
use auklet_client_c.Client.Pipeline.{
  Flow, Move, Source, take_message, listed, list_once, load_next, limit, pass_from, publish_next,
  move, run_moves, start_pipeline, keep_delivered,
}
use auklet_client_c.Client.Pipeline.Safe.{IsSafe, AllSafe, IsSafe-map, AllSafe-map, AllSafe-forward}
use auklet_client_c.Client.Pipeline.Held.{Held-Follows, Held-publish, error_of}

-- A new limit changes nothing else.
Follows-set_limit : (F : Fs Text) (n : Option _) (p : Persistor) → Follows F p (set_limit n p)
unfolding set_limit
Follows-set_limit F n p = record { same_directory = refl; same_pid = refl; counted = omega arith }

module _ (X : Codec) (F : Fs Text) (L : IsLawful F) (P : Persistor.Persistor) (C : Client)
    (c : Config) (dir : String) (pr : Producer) where
  abbrev State : Type 0
  State = Flow X F P C c dir pr

  -- Every message that the converter has sent names no file, or its file holds it, or it was
  -- delivered.
  abbrev pub NoLoss : State → Type 0
  NoLoss f = AllSafe F f.world.persistor f.world.fs f.delivered f.from_converter.sent

  -- A turn that leaves alone what the statement is about.
  record SameStore (f f' : State) : Type 0 where
    same_world : f'.world ≡ f.world
    same_delivered : f'.delivered ≡ f.delivered
    same_sent : f'.from_converter.sent ≡ f.from_converter.sent

  NoLoss-SameStore : (f f' : State) → SameStore f f' → NoLoss f → NoLoss f'
  NoLoss-SameStore f f' e h = rw (e.same_world, e.same_delivered, e.same_sent) h

  SameStore-listed :
      (r : Result (List FilePath)) (f : State) → SameStore f (listed X F P C c dir pr r f)
  unfolding listed
  SameStore-listed (ok paths) f = record {
    same_world = refl;
    same_delivered = refl;
    same_sent = refl;
  }
  SameStore-listed (err e) f = record { same_world = refl; same_delivered = refl; same_sent = refl }

  SameStore-pass_from :
      (s : Source) (o : Option Message) (f : State) → SameStore f (pass_from X F P C c dir pr s o f)
  unfolding pass_from limit
  SameStore-pass_from s none f = record {
    same_world = refl;
    same_delivered = refl;
    same_sent = refl;
  }
  SameStore-pass_from Source.converter (some m) f = record {
    same_world = refl;
    same_delivered = refl;
    same_sent = refl;
  }
  SameStore-pass_from Source.loader (some m) f = record {
    same_world = refl;
    same_delivered = refl;
    same_sent = refl;
  }
  SameStore-pass_from Source.requester (some m) f = record {
    same_world = refl;
    same_delivered = refl;
    same_sent = refl;
  }

  SameStore-list_once :
      (o : Option (List FilePath)) (f : State) → SameStore f (list_once X F P C c dir pr o f)
  unfolding list_once
  SameStore-list_once none f = SameStore-listed _ f
  SameStore-list_once (some _) f = record {
    same_world = refl;
    same_delivered = refl;
    same_sent = refl;
  }

  SameStore-load_next :
      (o : Option (List FilePath)) (f : State) → SameStore f (load_next X F P C c dir pr o f)
  unfolding load_next
  SameStore-load_next none f = record { same_world = refl; same_delivered = refl; same_sent = refl }
  SameStore-load_next (some []) f = record {
    same_world = refl;
    same_delivered = refl;
    same_sent = refl;
  }
  SameStore-load_next (some (q ∷ qs)) f = record {
    same_world = refl;
    same_delivered = refl;
    same_sent = refl;
  }

  SameStore-if : (b : Bool) (f g : State) → SameStore f g → SameStore f (if b then g else f)
  SameStore-if true f g e = e
  SameStore-if false f g e = record { same_world = refl; same_delivered = refl; same_sent = refl }

  NoLoss-take_message :
      (o : Option AgentMessage) (a : Ambient X.Metrics) (old f : State)
      → NoLoss old
      → NoLoss f
      → NoLoss (take_message X F P C c dir pr o a old f)
  unfolding take_message
  NoLoss-take_message none a old f h k = h
  NoLoss-take_message (some m) a old f h k =
      AllSafe-forward X F L c f.world.persistor f.world.fs f.delivered f.from_converter.sent a m k

  NoLoss-limit_storage :
      (n : Option _) (o : Option Persistor) (s : F.State) (d ms : List Message)
      → AllSafe F o s d ms
      → AllSafe F (Option.map (set_limit n) o) s d ms
  NoLoss-limit_storage n none s d ms h = h
  NoLoss-limit_storage n (some p) s d ms h =
      AllSafe-map F (some p) (some (set_limit n p)) s s d d ms
        (λ m.
          IsSafe-map F p (set_limit n p) s s d d m
            (λ k. Held-Follows F p (set_limit n p) s s d m (Follows-set_limit F n p) k (λ t. t)))
        h

  IsSafe-publish :
      (o : Option Persistor) (d : List Message) (m x : Message) (w : Mqtt.World C F)
      → IsSafe F o w.fs d m
      → IsSafe F o (publish C F pr x w).fs (keep_delivered (error_of F L C pr x w) x d) m
  IsSafe-publish o d m x w (inl plain) = inl plain
  IsSafe-publish o d m x w (inr (p, e, h)) = inr (p, e, Held-publish F L C pr p d m x w h)

  NoLoss-publish_next :
      (o : Option Message) (f : State) → NoLoss f → NoLoss (publish_next X F P C c dir pr o f)
  unfolding publish_next
  NoLoss-publish_next none f h = h
  NoLoss-publish_next (some x) f h =
      let o = f.world.persistor in
      let w : Mqtt.World C F = record { client = f.client; fs = f.world.fs; logged = f.logged } in
      let w' = publish C F pr x w in
      AllSafe-map F o o w.fs w'.fs f.delivered
        (keep_delivered (error_of F L C pr x w) x f.delivered) f.from_converter.sent
        (λ m. IsSafe-publish o f.delivered m x w) h

  NoLoss-move : (m : Move X.Metrics) (f : State) → NoLoss f → NoLoss (move X F P C c dir pr m f)
  unfolding move
  NoLoss-move (Move.convert_message a) f h = NoLoss-take_message _ a f _ h h
  NoLoss-move (Move.convert_point a) f h = NoLoss-take_message _ a f _ h h
  NoLoss-move Move.list_files f h = NoLoss-SameStore f _ (SameStore-list_once f.loading f) h
  NoLoss-move Move.load_file f h = NoLoss-SameStore f _ (SameStore-load_next f.loading f) h
  NoLoss-move (Move.request e) f h = h
  NoLoss-move (Move.limit_storage n) f h =
      NoLoss-limit_storage n f.world.persistor f.world.fs f.delivered f.from_converter.sent h
  NoLoss-move (Move.expire now) f h = h
  NoLoss-move (Move.configure conf now) f h = h
  NoLoss-move (Move.pass s) f h =
      NoLoss-SameStore f _ (SameStore-if _ f _ (SameStore-pass_from s _ f)) h
  NoLoss-move Move.end_input f h =
      NoLoss-SameStore f _
        (SameStore-if _ f _ (record { same_world = refl; same_delivered = refl; same_sent = refl }))
        h
  NoLoss-move Move.publish f h = NoLoss-publish_next _ f h

  NoLoss-run_moves :
      (ms : List (Move X.Metrics)) (f : State) → NoLoss f → NoLoss (run_moves X F P C c dir pr ms f)
  unfolding run_moves
  NoLoss-run_moves [] f h = h
  NoLoss-run_moves (m ∷ ms) f h =
      NoLoss-run_moves ms (move X F P C c dir pr m f) (NoLoss-move m f h)

  -- On a lawful filesystem, whatever the order in which the goroutines take their turns: every
  -- message that the converter has sent and that names a file is held by its file, from which it is
  -- loaded as it was sent, or a message of that file was published with no error.
  pub run_moves-NoLoss :
      (quote : String → String) (messages : List (Decoded AgentMessage))
      (points : List (Decoded (List ℕ))) (store : P.State) (pid : ℕ) (client : C.State)
      (fs : F.State) (ms : List (Move X.Metrics))
      → NoLoss (
          run_moves X F P C c dir pr ms
            (start_pipeline X F P C c dir pr quote messages points store pid client fs))
  unfolding start_pipeline
  run_moves-NoLoss quote messages points store pid client fs ms =
      NoLoss-run_moves ms
        (start_pipeline X F P C c dir pr quote messages points store pid client fs) tt
