-- ===== src/Client/Pipeline/Able.antt =====
-- The states of the limiter and of the requester between the turns of the pipeline.
use auklet_client_c.Prelude.{
  ℕ, inl, ◌≡◌, arith, refl, Bool, true, false, String, Option, none, some, List, [], ◌∷◌, Result,
  ok, err, if◌then◌else◌,
}
use auklet_client_c.Fsutil.{FilePath, Fs}
use auklet_client_c.Agent.Message.{Message as AgentMessage, Decoded}
use auklet_client_c.Agent.Requester
use auklet_client_c.Agent.Requester.Ending.{Asks, Asks-go_on}
use auklet_client_c.Broker.Message.{Message}
use auklet_client_c.Broker.Store.{Text}
use auklet_client_c.Broker.Mqtt.{Client, Producer}
use auklet_client_c.Message.Persistor.{Persistor}
use auklet_client_c.Message.Limiter.Run.{
  Event, expired, received, closed, configured, new_data_limiter,
}
use auklet_client_c.Message.Limiter.Shutdown.{IsIdleMachine, step-IsIdle, settle-IsIdle}
use auklet_client_c.Schema.Convert.{Codec, Ambient, Config}
use auklet_client_c.Client.Channel.{next, receive}
use auklet_client_c.Client.Pipeline.{
  Source, Flow, Move, take_message, listed, list_once, load_next, requested, limit, pass_from,
  publish_next, move, run_moves, start_pipeline,
}

module _ (X : Codec) (F : Fs Text) (P : Persistor) (C : Client) (c : Config) (dir : String)
    (pr : Producer) where
  abbrev pub Now : Type 0
  Now = Flow X F P C c dir pr

  -- The limiter waits or has ended, and so has the requester.
  pub record IsAble (f : Now) : Type 0 where
    pub idle : IsIdleMachine P f.limiter
    pub asks : Asks f.requests

  IsAble-take_message :
      (o : Option AgentMessage) (a : Ambient X.Metrics) (old f : Now)
      → IsAble old
      → IsAble f
      → IsAble (take_message X F P C c dir pr o a old f)
  unfolding take_message
  IsAble-take_message none a old f h k = h
  IsAble-take_message (some m) a old f h k = record { idle = k.idle; asks = k.asks }

  IsAble-listed :
      (r : Result (List FilePath)) (f : Now) → IsAble f → IsAble (listed X F P C c dir pr r f)
  unfolding listed
  IsAble-listed (ok paths) f h = record { idle = h.idle; asks = h.asks }
  IsAble-listed (err e) f h = record { idle = h.idle; asks = h.asks }

  IsAble-list_once :
      (o : Option (List FilePath)) (f : Now) → IsAble f → IsAble (list_once X F P C c dir pr o f)
  unfolding list_once
  IsAble-list_once none f h = IsAble-listed _ f h
  IsAble-list_once (some paths) f h = h

  IsAble-load_next :
      (o : Option (List FilePath)) (f : Now) → IsAble f → IsAble (load_next X F P C c dir pr o f)
  unfolding load_next
  IsAble-load_next none f h = h
  IsAble-load_next (some []) f h = h
  IsAble-load_next (some (q ∷ qs)) f h = record { idle = h.idle; asks = h.asks }

  IsAble-limit : (e : Event) (f : Now) → IsAble f → IsAble (limit X F P C c dir pr e f)
  unfolding limit
  IsAble-limit e f h = record {
    idle = step-IsIdle P e f.limiter.0 f.limiter.1 h.idle;
    asks = h.asks;
  }

  IsAble-pass_from :
      (s : Source) (o : Option Message) (f : Now)
      → IsAble f
      → IsAble (pass_from X F P C c dir pr s o f)
  unfolding pass_from
  IsAble-pass_from s none f h = h
  IsAble-pass_from Source.converter (some m) f h =
      IsAble-limit (received m) _ (record { idle = h.idle; asks = h.asks })
  IsAble-pass_from Source.loader (some m) f h =
      IsAble-limit (received m) _ (record { idle = h.idle; asks = h.asks })
  IsAble-pass_from Source.requester (some m) f h =
      IsAble-limit (received m) _ (record { idle = h.idle; asks = h.asks })

  IsAble-publish_next :
      (o : Option Message) (f : Now) → IsAble f → IsAble (publish_next X F P C c dir pr o f)
  unfolding publish_next
  IsAble-publish_next none f h = h
  IsAble-publish_next (some m) f h = record { idle = h.idle; asks = h.asks }

  IsAble-if : (b : Bool) (f g : Now) → IsAble f → IsAble g → IsAble (if b then g else f)
  IsAble-if true f g h k = k
  IsAble-if false f g h k = h

  pub IsAble-move : (m : Move X.Metrics) (f : Now) → IsAble f → IsAble (move X F P C c dir pr m f)
  unfolding move requested
  IsAble-move (Move.convert_message a) f h =
      IsAble-take_message (next f.from_server) a f
        (record f { from_server = receive f.from_server }) h
        (record { idle = h.idle; asks = h.asks })
  IsAble-move (Move.convert_point a) f h =
      IsAble-take_message (next f.from_points) a f
        (record f { from_points = receive f.from_points }) h
        (record { idle = h.idle; asks = h.asks })
  IsAble-move Move.list_files f h = IsAble-list_once f.loading f h
  IsAble-move Move.load_file f h = IsAble-load_next f.loading f h
  IsAble-move (Move.request e) f h = record {
    idle = h.idle;
    asks = Asks-go_on f.requests.status e f.requests refl h.asks;
  }
  IsAble-move (Move.limit_storage n) f h = record { idle = h.idle; asks = h.asks }
  IsAble-move (Move.expire now) f h = IsAble-limit (expired now) f h
  IsAble-move (Move.configure conf now) f h = IsAble-limit (configured conf now) f h
  IsAble-move (Move.pass s) f h = IsAble-if _ f _ h (IsAble-pass_from s _ f h)
  IsAble-move Move.end_input f h = IsAble-if _ f _ h (IsAble-limit closed f h)
  IsAble-move Move.publish f h = IsAble-publish_next _ f h

  pub IsAble-run_moves :
      (ms : List (Move X.Metrics)) (f : Now) → IsAble f → IsAble (run_moves X F P C c dir pr ms f)
  unfolding run_moves
  IsAble-run_moves [] f h = h
  IsAble-run_moves (m ∷ ms) f h =
      IsAble-run_moves ms (move X F P C c dir pr m f) (IsAble-move m f h)

  new_data_limiter-open : (store : P.State) → (new_data_limiter P store).out_closed ≡ false
  unfolding new_data_limiter
  new_data_limiter-open store = ground arith

  pub started-IsAble :
      (quote : String → String) (from_app : List (Decoded AgentMessage))
      (points : List (Decoded (List ℕ))) (store : P.State) (pid : ℕ) (client : C.State)
      (fs : F.State)
      → IsAble (start_pipeline X F P C c dir pr quote from_app points store pid client fs)
  unfolding start_pipeline Requester.new_periodic_requester
  started-IsAble quote from_app points store pid client fs = record {
    idle = settle-IsIdle P (new_data_limiter P store) (new_data_limiter-open store);
    asks = inl refl;
  }
