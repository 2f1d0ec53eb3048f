-- ===== src/Client/Pipeline/Listed.antt =====
-- What the loader of the pipeline has sent of the directory that it listed.
use auklet_client_c.Prelude.{
  ℕ, ◌+◌, ◌≡◌, refl, ap, ◌∙◌, ◌⊎◌, inl, inr, Bool, true, false, String, Option, none, some, List,
  [], ◌∷◌, arith, length, length-append, Result, ok, err, if◌then◌else◌,
}
use auklet_client_c.Fsutil.{FilePath, Fs}
use auklet_client_c.Agent.Message.{Message as AgentMessage}
use auklet_client_c.Broker.Message.{Message}
use auklet_client_c.Broker.Store.{Text, filepaths}
use auklet_client_c.Broker.Mqtt.{Client, Producer}
use auklet_client_c.Message.Persistor.{Persistor}
use auklet_client_c.Message.Limiter.Run.{closed}
use auklet_client_c.Schema.Convert.{Codec, Ambient, Config}
use auklet_client_c.Client.Channel.{next, receive}
use auklet_client_c.Client.Pipeline.{
  Source, Flow, Move, offered, is_waiting, is_ended, take_message, listed, list_once, load_next,
  requested, limit, pass_from, publish_next, move, run_moves,
}

-- How many messages the loader makes of a listing: one of each file, or one of the error.
abbrev pub to_load : Result (List FilePath) → ℕ
to_load (ok paths) = length paths
to_load (err e) = 1

module _ (X : Codec) (F : Fs Text) (P : Persistor) (C : Client) (c : Config) (dir : String)
    (pr : Producer) where
  abbrev pub Now : Type 0
  Now = Flow X F P C c dir pr

  -- The directory was listed on a filesystem, and some of its paths are still to be loaded.
  pub record Listing (f : Now) : Type 0 where
    pub fs : F.State
    pub rest : List FilePath
    pub is_rest : f.loading ≡ some rest
    pub count : length f.from_loader.sent + length rest ≡ to_load (filepaths F fs dir)

  -- The directory was not listed yet, and nothing was sent.
  pub record Unlisted (f : Now) : Type 0 where
    pub is_none : f.loading ≡ none
    pub unsent : f.from_loader.sent ≡ []

  abbrev pub Loads : Now → Type 0
  Loads f = Unlisted f ⊎ Listing f

  -- A turn that leaves the loader as it is.
  Loads-same :
      (f g : Now)
      → g.loading ≡ f.loading
      → g.from_loader.sent ≡ f.from_loader.sent
      → Loads f
      → Loads g
  Loads-same f g e s (inl u) = inl (record { is_none = e ∙ u.is_none; unsent = s ∙ u.unsent })
  Loads-same f g e s (inr l) = inr (record {
    fs = l.fs;
    rest = l.rest;
    is_rest = e ∙ l.is_rest;
    count = ap (λ (ms : List Message). length ms + length l.rest) s ∙ l.count;
  })

  Loads-take_message :
      (o : Option AgentMessage) (a : Ambient X.Metrics) (old f : Now)
      → Loads old
      → Loads f
      → Loads (take_message X F P C c dir pr o a old f)
  unfolding take_message
  Loads-take_message none a old f h k = h
  Loads-take_message (some m) a old f h k = Loads-same f _ refl refl k

  Loads-listed :
      (r : Result (List FilePath)) (f : Now)
      → filepaths F f.world.fs dir ≡ r
      → Unlisted f
      → Loads (listed X F P C c dir pr r f)
  unfolding listed
  Loads-listed (ok paths) f e u = inr (record {
    fs = f.world.fs;
    rest = paths;
    is_rest = refl;
    count = rw (u.unsent, e) (omega arith);
  })
  Loads-listed (err x) f e u = inr (record {
    fs = f.world.fs;
    rest = [];
    is_rest = refl;
    count = rw (u.unsent, e) (omega arith);
  })

  Loads-list_once :
      (o : Option (List FilePath)) (f : Now)
      → f.loading ≡ o
      → Loads f
      → Loads (list_once X F P C c dir pr o f)
  unfolding list_once
  Loads-list_once none f e (inl u) = Loads-listed _ f refl u
  Loads-list_once none f e (inr l) = cc (e, l.is_rest)
  Loads-list_once (some paths) f e h = h

  Loads-load_next :
      (o : Option (List FilePath)) (f : Now)
      → f.loading ≡ o
      → Loads f
      → Loads (load_next X F P C c dir pr o f)
  unfolding load_next
  Loads-load_next none f e h = h
  Loads-load_next (some []) f e h = h
  Loads-load_next (some (q ∷ paths)) f e (inl u) = cc (e, u.is_none)
  Loads-load_next (some (q ∷ paths)) f e (inr l) =
      let same : l.rest ≡ q ∷ paths = cc (e, l.is_rest) in
      inr (record {
        fs = l.fs;
        rest = paths;
        is_rest = refl;
        count = omega (
          arith,
          l.count,
          ap (λ (ps : List FilePath). length ps) same,
          length-append f.from_loader.sent _,
        );
      })

  Loads-pass_from :
      (s : Source) (o : Option Message) (f : Now)
      → Loads f
      → Loads (pass_from X F P C c dir pr s o f)
  unfolding pass_from limit
  Loads-pass_from s none f h = h
  Loads-pass_from Source.converter (some m) f h = Loads-same f _ refl refl h
  Loads-pass_from Source.loader (some m) f h = Loads-same f _ refl refl h
  Loads-pass_from Source.requester (some m) f h = Loads-same f _ refl refl h

  Loads-publish_next :
      (o : Option Message) (f : Now) → Loads f → Loads (publish_next X F P C c dir pr o f)
  unfolding publish_next
  Loads-publish_next none f h = h
  Loads-publish_next (some m) f h = Loads-same f _ refl refl h

  Loads-if : (b : Bool) (f g : Now) → Loads f → Loads g → Loads (if b then g else f)
  Loads-if true f g h k = k
  Loads-if false f g h k = h

  Loads-move : (m : Move X.Metrics) (f : Now) → Loads f → Loads (move X F P C c dir pr m f)
  unfolding move requested limit
  Loads-move (Move.convert_message a) f h =
      let g : Now = record f { from_server = receive f.from_server } in
      Loads-take_message (next f.from_server) a f g h (Loads-same f g refl refl h)
  Loads-move (Move.convert_point a) f h =
      let g : Now = record f { from_points = receive f.from_points } in
      Loads-take_message (next f.from_points) a f g h (Loads-same f g refl refl h)
  Loads-move Move.list_files f h = Loads-list_once f.loading f refl h
  Loads-move Move.load_file f h = Loads-load_next f.loading f refl h
  Loads-move (Move.request e) f h = Loads-same f _ refl refl h
  Loads-move (Move.limit_storage n) f h = Loads-same f _ refl refl h
  Loads-move (Move.expire now) f h = Loads-same f _ refl refl h
  Loads-move (Move.configure conf now) f h = Loads-same f _ refl refl h
  Loads-move (Move.pass s) f h =
      let o = offered X F P C c dir pr s f in
      Loads-if (is_waiting X F P C c dir pr f.limiter.0) f (pass_from X F P C c dir pr s o f) h
        (Loads-pass_from s o f h)
  Loads-move Move.end_input f h =
      Loads-if (is_ended X F P C c dir pr f) f (limit X F P C c dir pr closed f) h
        (Loads-same f _ refl refl h)
  Loads-move Move.publish f h = Loads-publish_next _ f h

  pub Loads-run_moves :
      (ms : List (Move X.Metrics)) (f : Now) → Loads f → Loads (run_moves X F P C c dir pr ms f)
  unfolding run_moves
  Loads-run_moves [] f h = h
  Loads-run_moves (m ∷ ms) f h = Loads-run_moves ms (move X F P C c dir pr m f) (Loads-move m f h)
