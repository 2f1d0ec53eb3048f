-- ===== src/Client/Pipeline/Opened.antt =====
-- The limiter's output during the turns of the pipeline, before it is closed.
use auklet_client_c.Prelude.{
  ◌≡◌, ◌≢◌, refl, ap, ◌∙◌, ◌⊎◌, inl, inr, Bool, true, false, String, Option, none, some, List, [],
  ◌∷◌, arith, Result, ok, err, if◌then◌else◌,
}
use auklet_client_c.Fsutil.{FilePath, Fs}
use auklet_client_c.Agent.Message.{Message as AgentMessage}
use auklet_client_c.Agent.Requester.Ending.{Exclusive, Exclusive-go_on}
use auklet_client_c.Broker.Message.{Message}
use auklet_client_c.Broker.Store.{Text}
use auklet_client_c.Broker.Mqtt.{Client, Producer}
use auklet_client_c.Message.Persistor.{Persistor}
use auklet_client_c.Message.Limiter.State.{DataLimiter, State}
use auklet_client_c.Message.Limiter.Run.{Event, expired, received, closed, configured, step}
use auklet_client_c.Message.Limiter.Shutdown.{IsIdleMachine}
use auklet_client_c.Schema.Convert.{Codec, Ambient, Config}
use auklet_client_c.Client.Channel.{receive}
use auklet_client_c.Client.Pipeline.Able.{IsAble}
use auklet_client_c.Client.Pipeline.{
  Source, Flow, Move, take_message, listed, list_once, load_next, requested, limit, pass_from,
  publish_next, is_ended, move,
}
use auklet_client_c.Client.Pipeline.Over.{IsOver, IsOver-limit, is_ended-IsOver}

module _ (X : Codec) (F : Fs Text) (P : Persistor) (C : Client) (c : Config) (dir : String)
    (pr : Producer) where
  abbrev pub Now : Type 0
  Now = Flow X F P C c dir pr

  step-open :
      (e : Event) (s : State) (l : DataLimiter P.State)
      → e ≢ closed
      → IsIdleMachine P (s, l)
      → l.out_closed ≡ false
      → (step P e s l).1.out_closed ≡ false
  unfolding step
  step-open (expired now) s l h v k = ground arith
  step-open (received m) s l h v k = ground arith
  step-open closed s l h v k = absurd (h refl)
  step-open (configured conf now) s l h v k = ground arith

  -- The requester and the limiter stay as they are.
  pub record SameEnds (f f' : Now) : Type 0 where
    pub same_requests : f'.requests ≡ f.requests
    pub same_limiter : f'.limiter ≡ f.limiter

  pub SameEnds-take_message :
      (o : Option AgentMessage) (a : Ambient X.Metrics) (old f : Now)
      → SameEnds old f
      → SameEnds old (take_message X F P C c dir pr o a old f)
  unfolding take_message
  SameEnds-take_message none a old f h = record { same_requests = refl; same_limiter = refl }
  SameEnds-take_message (some m) a old f h = record {
    same_requests = h.same_requests;
    same_limiter = h.same_limiter;
  }

  pub SameEnds-list_once :
      (o : Option (List FilePath)) (f : Now) → SameEnds f (list_once X F P C c dir pr o f)
  unfolding list_once
  SameEnds-list_once none f = listed_same _
    where
      listed_same : (r : Result (List FilePath)) → SameEnds f (listed X F P C c dir pr r f)
      listed_same (ok paths) = record { same_requests = refl; same_limiter = refl }
      listed_same (err e) = record { same_requests = refl; same_limiter = refl }
  SameEnds-list_once (some paths) f = record { same_requests = refl; same_limiter = refl }

  pub SameEnds-load_next :
      (o : Option (List FilePath)) (f : Now) → SameEnds f (load_next X F P C c dir pr o f)
  unfolding load_next
  SameEnds-load_next none f = record { same_requests = refl; same_limiter = refl }
  SameEnds-load_next (some []) f = record { same_requests = refl; same_limiter = refl }
  SameEnds-load_next (some (q ∷ qs)) f = record { same_requests = refl; same_limiter = refl }

  pub SameEnds-publish_next :
      (o : Option Message) (f : Now) → SameEnds f (publish_next X F P C c dir pr o f)
  unfolding publish_next
  SameEnds-publish_next none f = record { same_requests = refl; same_limiter = refl }
  SameEnds-publish_next (some m) f = record { same_requests = refl; same_limiter = refl }

  -- What a turn leaves of the two.
  pub record KeepsOpen (f f' : Now) : Type 0 where
    pub exclusive : Exclusive f'.requests
    pub state : (f'.limiter.1.out_closed ≡ false) ⊎ IsOver X F P C c dir pr f'

  KeepsOpen-SameEnds :
      (f f' : Now)
      → SameEnds f f'
      → Exclusive f.requests
      → f.limiter.1.out_closed ≡ false
      → KeepsOpen f f'
  KeepsOpen-SameEnds f f' e x k = record {
    exclusive = rw e.same_requests x;
    state = inl (ap (λ (r : State × DataLimiter P.State). r.1.out_closed) e.same_limiter ∙ k);
  }

  KeepsOpen-limit :
      (e : Event) (f g : Now)
      → SameEnds f g
      → e ≢ closed
      → IsAble X F P C c dir pr f
      → Exclusive f.requests
      → f.limiter.1.out_closed ≡ false
      → KeepsOpen f (limit X F P C c dir pr e g)
  unfolding limit
  KeepsOpen-limit e f g same other able x k = record {
    exclusive = rw same.same_requests x;
    state = inl (
        ap (λ (r : State × DataLimiter P.State). (step P e r.0 r.1).1.out_closed) same.same_limiter
        ∙ step-open e f.limiter.0 f.limiter.1 other able.idle k);
  }

  KeepsOpen-pass_from :
      (s : Source) (o : Option Message) (f : Now)
      → IsAble X F P C c dir pr f
      → Exclusive f.requests
      → f.limiter.1.out_closed ≡ false
      → KeepsOpen f (pass_from X F P C c dir pr s o f)
  unfolding pass_from
  KeepsOpen-pass_from s none f able x k = record { exclusive = x; state = inl k }
  KeepsOpen-pass_from Source.converter (some m) f able x k =
      KeepsOpen-limit (received m) f (record f { from_converter = receive f.from_converter })
        (record { same_requests = refl; same_limiter = refl }) (λ e. cc) able x k
  KeepsOpen-pass_from Source.loader (some m) f able x k =
      KeepsOpen-limit (received m) f (record f { from_loader = receive f.from_loader })
        (record { same_requests = refl; same_limiter = refl }) (λ e. cc) able x k
  KeepsOpen-pass_from Source.requester (some m) f able x k =
      KeepsOpen-limit (received m) f (record f { from_requester = receive f.from_requester })
        (record { same_requests = refl; same_limiter = refl }) (λ e. cc) able x k

  KeepsOpen-if :
      (b : Bool) (f g : Now) → KeepsOpen f f → KeepsOpen f g → KeepsOpen f (if b then g else f)
  KeepsOpen-if true f g h k = k
  KeepsOpen-if false f g h k = h

  KeepsOpen-end_input :
      (b : Bool) (f : Now)
      → is_ended X F P C c dir pr f ≡ b
      → Exclusive f.requests
      → f.limiter.1.out_closed ≡ false
      → KeepsOpen f (if b then limit X F P C c dir pr closed f else f)
  unfolding limit
  KeepsOpen-end_input true f h x k = record {
    exclusive = x;
    state = inr (IsOver-limit X F P C c dir pr closed f (is_ended-IsOver X F P C c dir pr f h));
  }
  KeepsOpen-end_input false f h x k = record { exclusive = x; state = inl k }

  pub KeepsOpen-move :
      (m : Move X.Metrics) (f : Now)
      → IsAble X F P C c dir pr f
      → Exclusive f.requests
      → f.limiter.1.out_closed ≡ false
      → KeepsOpen f (move X F P C c dir pr m f)
  unfolding move requested
  KeepsOpen-move (Move.convert_message a) f able x k =
      KeepsOpen-SameEnds f _
        (SameEnds-take_message _ a f (record f { from_server = receive f.from_server })
          (record { same_requests = refl; same_limiter = refl }))
        x k
  KeepsOpen-move (Move.convert_point a) f able x k =
      KeepsOpen-SameEnds f _
        (SameEnds-take_message _ a f (record f { from_points = receive f.from_points })
          (record { same_requests = refl; same_limiter = refl }))
        x k
  KeepsOpen-move Move.list_files f able x k =
      KeepsOpen-SameEnds f _ (SameEnds-list_once f.loading f) x k
  KeepsOpen-move Move.load_file f able x k =
      KeepsOpen-SameEnds f _ (SameEnds-load_next f.loading f) x k
  KeepsOpen-move (Move.request e) f able x k = record {
    exclusive = Exclusive-go_on f.requests.status e f.requests refl x;
    state = inl k;
  }
  KeepsOpen-move (Move.limit_storage n) f able x k = record { exclusive = x; state = inl k }
  KeepsOpen-move (Move.expire now) f able x k =
      KeepsOpen-limit (expired now) f f (record { same_requests = refl; same_limiter = refl })
        (λ e. cc) able x k
  KeepsOpen-move (Move.configure conf now) f able x k =
      KeepsOpen-limit (configured conf now) f f
        (record { same_requests = refl; same_limiter = refl }) (λ e. cc) able x k
  KeepsOpen-move (Move.pass s) f able x k =
      KeepsOpen-if _ f _ (record { exclusive = x; state = inl k })
        (KeepsOpen-pass_from s _ f able x k)
  KeepsOpen-move Move.end_input f able x k = KeepsOpen-end_input _ f refl x k
  KeepsOpen-move Move.publish f able x k = KeepsOpen-SameEnds f _ (SameEnds-publish_next _ f) x k
