-- ===== src/Client/Pipeline/Complete.antt =====
-- The closing of the limiter's output in the pipeline, and what the sources have sent by then.
use auklet_client_c.Prelude.{
  ℕ, ◌≡◌, refl, sym, ◌⊎◌, inl, inr, Bool, true, false, String, Option, none, some, List, [], ◌∷◌,
  arith, if◌then◌else◌,
}
use mathlib.Core.Path.{subst}
use auklet_client_c.Fsutil.{Fs}
use auklet_client_c.Agent.Message.{Message as AgentMessage, Decoded}
use auklet_client_c.Agent.Requester
use auklet_client_c.Agent.Requester.{Requester, react, go_on}
use auklet_client_c.Agent.Requester.Ending.{Exclusive, Exclusive-go_on}
use auklet_client_c.Broker.Message.{Message}
use auklet_client_c.Broker.Store.{Text}
use auklet_client_c.Broker.Mqtt.{Client, Producer}
use auklet_client_c.Message.Persistor.{Persistor}
use auklet_client_c.Message.Limiter.State.{initial}
use auklet_client_c.Message.Limiter.Run.{settle, new_data_limiter}
use auklet_client_c.Schema.Convert.{Codec, Config}
use auklet_client_c.Client.Channel.{next, receive}
use auklet_client_c.Client.Pipeline.Able.{IsAble, IsAble-move, started-IsAble}
use auklet_client_c.Client.Pipeline.{
  Source, Flow, Move, requested, limit, pass_from, move, run_moves, start_pipeline,
}
use auklet_client_c.Client.Pipeline.Over.{IsOver, IsOver-move}
use auklet_client_c.Client.Pipeline.Opened.{
  SameEnds-take_message, SameEnds-list_once, SameEnds-load_next, SameEnds-publish_next,
  KeepsOpen-move,
}

module _ (X : Codec) (F : Fs Text) (P : Persistor) (C : Client) (c : Config) (dir : String)
    (pr : Producer) where
  abbrev pub Now : Type 0
  Now = Flow X F P C c dir pr

  -- The limiter's output is open, or all sources are over; and the requester.
  pub record IsOpenOrOver (f : Now) : Type 0 where
    pub able : IsAble X F P C c dir pr f
    pub exclusive : Exclusive f.requests
    pub state : (f.limiter.1.out_closed ≡ false) ⊎ IsOver X F P C c dir pr f

  requests-pass_from :
      (s : Source) (o : Option Message) (f : Now)
      → (pass_from X F P C c dir pr s o f).requests ≡ f.requests
  unfolding pass_from limit
  requests-pass_from s none f = refl
  requests-pass_from Source.converter (some m) f = refl
  requests-pass_from Source.loader (some m) f = refl
  requests-pass_from Source.requester (some m) f = refl

  requests-if :
      (b : Bool) (f g : Now) → g.requests ≡ f.requests → (if b then g else f).requests ≡ f.requests
  requests-if true f g e = e
  requests-if false f g e = refl

  -- A turn of another goroutine leaves the requester as it is.
  Exclusive-move :
      (m : Move X.Metrics) (f : Now)
      → Exclusive f.requests
      → Exclusive (move X F P C c dir pr m f).requests
  unfolding move requested limit
  Exclusive-move (Move.convert_message a) f x =
      let g : Now = record f { from_server = receive f.from_server } in
      rw
        (SameEnds-take_message X F P C c dir pr (next f.from_server) a f g
          (record { same_requests = refl; same_limiter = refl })).same_requests
        x
  Exclusive-move (Move.convert_point a) f x =
      let g : Now = record f { from_points = receive f.from_points } in
      rw
        (SameEnds-take_message X F P C c dir pr (next f.from_points) a f g
          (record { same_requests = refl; same_limiter = refl })).same_requests
        x
  Exclusive-move Move.list_files f x =
      rw (SameEnds-list_once X F P C c dir pr f.loading f).same_requests x
  Exclusive-move Move.load_file f x =
      rw (SameEnds-load_next X F P C c dir pr f.loading f).same_requests x
  Exclusive-move (Move.request e) f x = Exclusive-go_on f.requests.status e f.requests refl x
  Exclusive-move (Move.limit_storage n) f x = x
  Exclusive-move (Move.expire now) f x = x
  Exclusive-move (Move.configure conf now) f x = x
  Exclusive-move (Move.pass s) f x =
      subst Exclusive (sym (requests-if _ f _ (requests-pass_from s _ f))) x
  Exclusive-move Move.end_input f x = subst Exclusive (sym (requests-if _ f _ refl)) x
  Exclusive-move Move.publish f x =
      subst Exclusive (sym (SameEnds-publish_next X F P C c dir pr _ f).same_requests) x

  IsOpenOrOver-move :
      (m : Move X.Metrics) (f : Now) → IsOpenOrOver f → IsOpenOrOver (move X F P C c dir pr m f)
  IsOpenOrOver-move m f h = record {
    able = IsAble-move X F P C c dir pr m f h.able;
    exclusive = Exclusive-move m f h.exclusive;
    state = elim h.state [
      | inl opened ↦ (KeepsOpen-move X F P C c dir pr m f h.able h.exclusive opened).state
      | inr over ↦ inr (IsOver-move X F P C c dir pr m f h.exclusive over)
    ];
  }

  IsOpenOrOver-run_moves :
      (ms : List (Move X.Metrics)) (f : Now)
      → IsOpenOrOver f
      → IsOpenOrOver (run_moves X F P C c dir pr ms f)
  unfolding run_moves
  IsOpenOrOver-run_moves [] f h = h
  IsOpenOrOver-run_moves (m ∷ ms) f h =
      IsOpenOrOver-run_moves ms (move X F P C c dir pr m f) (IsOpenOrOver-move m f h)

  settle-open :
      (store : P.State) → (settle P initial (new_data_limiter P store)).1.out_closed ≡ false
  unfolding settle new_data_limiter
  settle-open store = ground arith

  -- The end of the limiter's input is the end of all its sources.
  pub run_moves-IsOver :
      (quote : String → String) (from_app : List (Decoded AgentMessage))
      (points : List (Decoded (List ℕ))) (store : P.State) (pid : ℕ) (client : C.State)
      (fs : F.State) (ms : List (Move X.Metrics))
      → (run_moves X F P C c dir pr ms (
          start_pipeline X F P C c dir pr quote from_app points store pid client
            fs)).limiter.1.out_closed
        ≡ true
      → IsOver X F P C c dir pr (
          run_moves X F P C c dir pr ms
            (start_pipeline X F P C c dir pr quote from_app points store pid client fs))
  unfolding start_pipeline Requester.new_periodic_requester
  run_moves-IsOver quote from_app points store pid client fs ms shut =
      let f = start_pipeline X F P C c dir pr quote from_app points store pid client fs in
      let h = IsOpenOrOver-run_moves ms f (record {
        able = started-IsAble X F P C c dir pr quote from_app points store pid client fs;
        exclusive = inl refl;
        state = inl (settle-open store);
      }) in
      elim h.state [ inl opened ↦ cc (opened, shut) | inr over ↦ over ]
