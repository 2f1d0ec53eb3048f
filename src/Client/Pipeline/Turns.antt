-- ===== src/Client/Pipeline/Turns.antt =====
-- The account of what the pipeline's limiter was given and what became of it, at every turn.
use auklet_client_c.Prelude.{
  ◌≡◌, refl, Bool, true, false, String, Option, none, some, List, [], ◌∷◌, ◌++◌, append-nil,
  get_elem?, if◌then◌else◌,
}
use auklet_client_c.Fsutil.{Fs}
use auklet_client_c.Broker.Message.{Message}
use auklet_client_c.Broker.Store.{Text}
use auklet_client_c.Broker.Mqtt.{Client, Producer}
use auklet_client_c.Message.Persistor.{Persistor}
use auklet_client_c.Message.Limiter.Run.{Event, expired, received, closed, configured, Machine}
use auklet_client_c.Message.Limiter.Order.{messages}
use auklet_client_c.Schema.Convert.{Codec, Config}
use auklet_client_c.Client.Channel.{Channel, receive, next}
use auklet_client_c.Client.Pipeline.{
  Source, Flow, Move, offered, limit, pass_from, publish_next, move, run_moves,
}
use auklet_client_c.Client.Pipeline.Accounts.{
  of_source, of_source-append, IsReceived, IsReceived-receive,
}
use auklet_client_c.Client.Pipeline.Sending.{
  Sends-alike, IsReceived-kept, Sends-take_message, Sends-list_once, Sends-load_next,
  Sends-requested,
}
use auklet_client_c.Client.Pipeline.Origin.{
  from, Accounts, Sends, Accounts-Sends, Accounts-limit, IsPublished-next,
}

module _ (X : Codec) (F : Fs Text) (P : Persistor) (C : Client) (c : Config) (dir : String)
    (pr : Producer) where
  abbrev pub Now : Type 0
  Now = Flow X F P C c dir pr

  module _ (Allowed : Event → Type 0) (passes : (m : Message) → Allowed (received m)) where
    abbrev pub Told : Machine P → Now → Type 0
    Told start f = Accounts X F P C c dir pr Allowed start f

    -- The turns by which the limiter sees an event that is not allowed are left out.
    abbrev pub Permitted : Move X.Metrics → Type 0
    Permitted (Move.expire now) = Allowed (expired now)
    Permitted (Move.configure conf now) = Allowed (configured conf now)
    Permitted Move.end_input = Allowed closed
    Permitted _ = Unit {0}

    abbrev pub AllPermitted : List (Move X.Metrics) → Type 0
    AllPermitted [] = Unit {0}
    AllPermitted (m ∷ ms) = Permitted m × AllPermitted ms

    -- An event of the limiter's with which no message comes.
    Accounts-event :
        (start : Machine P) (e : Event) (f : Now)
        → Allowed e
        → messages (e ∷ []) ≡ []
        → Told start f
        → Told start (limit X F P C c dir pr e f)
    Accounts-event start e f allowed none_new a =
        Accounts-limit X F P C c dir pr Allowed start e [] f f allowed refl refl refl none_new a
          (λ s. rw (append-nil a.arrivals) (a.received_all s))

    -- The message is of the source `s` alone.
    arrives :
        (s : Source) (m : Message) (l : List (Source × Message)) (ch : Channel Message)
        → next ch ≡ some m
        → of_source s ((s, m) ∷ []) ≡ m ∷ []
        → IsReceived (of_source s l) ch
        → IsReceived (of_source s (l ++ ((s, m) ∷ []))) (receive ch)
    arrives s m l ch e own h =
        rw (of_source-append s l ((s, m) ∷ []), own) (IsReceived-receive (of_source s l) ch m e h)

    stays :
        (s t : Source) (m : Message) (l : List (Source × Message)) (ch : Channel Message)
        → of_source s ((t, m) ∷ []) ≡ []
        → IsReceived (of_source s l) ch
        → IsReceived (of_source s (l ++ ((t, m) ∷ []))) ch
    stays s t m l ch other h =
        rw (of_source-append s l ((t, m) ∷ []), other, append-nil (of_source s l)) h

    -- A message is taken from the channel of `s`.
    abbrev advance : Source → Now → Now
    advance Source.converter f = record f { from_converter = receive f.from_converter }
    advance Source.loader f = record f { from_loader = receive f.from_loader }
    advance Source.requester f = record f { from_requester = receive f.from_requester }

    after :
        (s t : Source) (m : Message) (l : List (Source × Message)) (f : Now)
        → next (from X F P C c dir pr s f) ≡ some m
        → IsReceived (of_source t l) (from X F P C c dir pr t f)
        → IsReceived (of_source t (l ++ ((s, m) ∷ []))) (from X F P C c dir pr t (advance s f))
    after Source.converter Source.converter m l f e h =
        arrives Source.converter m l f.from_converter e refl h
    after Source.loader Source.loader m l f e h = arrives Source.loader m l f.from_loader e refl h
    after Source.requester Source.requester m l f e h =
        arrives Source.requester m l f.from_requester e refl h
    after Source.converter Source.loader m l f e h =
        stays Source.loader Source.converter m l f.from_loader refl h
    after Source.converter Source.requester m l f e h =
        stays Source.requester Source.converter m l f.from_requester refl h
    after Source.loader Source.converter m l f e h =
        stays Source.converter Source.loader m l f.from_converter refl h
    after Source.loader Source.requester m l f e h =
        stays Source.requester Source.loader m l f.from_requester refl h
    after Source.requester Source.converter m l f e h =
        stays Source.converter Source.requester m l f.from_converter refl h
    after Source.requester Source.loader m l f e h =
        stays Source.loader Source.requester m l f.from_loader refl h

    Accounts-pass_from :
        (start : Machine P) (s : Source) (o : Option Message) (f : Now)
        → next (from X F P C c dir pr s f) ≡ o
        → Told start f
        → Told start (pass_from X F P C c dir pr s o f)
    unfolding pass_from
    Accounts-pass_from start s none f e a = a
    Accounts-pass_from start Source.converter (some m) f e a =
        Accounts-limit X F P C c dir pr Allowed start (received m) ((Source.converter, m) ∷ []) f
          (advance Source.converter f) (passes m) refl refl refl refl a
          (λ t. after Source.converter t m a.arrivals f e (a.received_all t))
    Accounts-pass_from start Source.loader (some m) f e a =
        Accounts-limit X F P C c dir pr Allowed start (received m) ((Source.loader, m) ∷ []) f
          (advance Source.loader f) (passes m) refl refl refl refl a
          (λ t. after Source.loader t m a.arrivals f e (a.received_all t))
    Accounts-pass_from start Source.requester (some m) f e a =
        Accounts-limit X F P C c dir pr Allowed start (received m) ((Source.requester, m) ∷ []) f
          (advance Source.requester f) (passes m) refl refl refl refl a
          (λ t. after Source.requester t m a.arrivals f e (a.received_all t))

    -- The producer's turn.
    Accounts-publish_next :
        (start : Machine P) (o : Option Message) (f : Now)
        → get_elem? f.limiter.1.out f.passed ≡ o
        → Told start f
        → Told start (publish_next X F P C c dir pr o f)
    unfolding publish_next
    Accounts-publish_next start none f e a = a
    Accounts-publish_next start (some m) f e a = record {
      events = a.events;
      arrivals = a.arrivals;
      only = a.only;
      served = a.served;
      arrived = a.arrived;
      received_all = λ s.
          IsReceived-kept X F P C c dir pr s f _ refl refl refl (of_source s a.arrivals)
            (a.received_all s);
      published = IsPublished-next _ m f.delivered f.passed f.limiter.1.out e a.published;
    }

    Accounts-if :
        (start : Machine P) (b : Bool) (f g : Now)
        → Told start f
        → Told start g
        → Told start (if b then g else f)
    Accounts-if start true f g a h = h
    Accounts-if start false f g a h = a

    Accounts-quiet :
        (start : Machine P) (f f' : Now)
        → Sends X F P C c dir pr f f'
        → Told start f
        → Told start f'
    Accounts-quiet start f f' q a = Accounts-Sends X F P C c dir pr Allowed start f f' q a

    Accounts-move :
        (start : Machine P) (m : Move X.Metrics) (f : Now)
        → Permitted m
        → Told start f
        → Told start (move X F P C c dir pr m f)
    unfolding move offered
    Accounts-move start (Move.convert_message a) f allowed h =
        let g : Now = record f { from_server = receive f.from_server } in
        Accounts-quiet start f _
          (Sends-take_message X F P C c dir pr (next f.from_server) a f g
            (Sends-alike X F P C c dir pr f g refl refl refl refl refl refl) refl)
          h
    Accounts-move start (Move.convert_point a) f allowed h =
        let g : Now = record f { from_points = receive f.from_points } in
        Accounts-quiet start f _
          (Sends-take_message X F P C c dir pr (next f.from_points) a f g
            (Sends-alike X F P C c dir pr f g refl refl refl refl refl refl) refl)
          h
    Accounts-move start Move.list_files f allowed h =
        Accounts-quiet start f _ (Sends-list_once X F P C c dir pr f.loading f) h
    Accounts-move start Move.load_file f allowed h =
        Accounts-quiet start f _ (Sends-load_next X F P C c dir pr f.loading f) h
    Accounts-move start (Move.request e) f allowed h =
        Accounts-quiet start f _ (Sends-requested X F P C c dir pr _ f) h
    Accounts-move start (Move.limit_storage n) f allowed h =
        Accounts-quiet start f _ (Sends-alike X F P C c dir pr f _ refl refl refl refl refl refl) h
    Accounts-move start (Move.expire now) f allowed h =
        Accounts-event start (expired now) f allowed refl h
    Accounts-move start (Move.configure conf now) f allowed h =
        Accounts-event start (configured conf now) f allowed refl h
    Accounts-move start (Move.pass s) f allowed h =
        Accounts-if start _ f _ h (Accounts-pass_from start s _ f refl h)
    Accounts-move start Move.end_input f allowed h =
        Accounts-if start _ f _ h (Accounts-event start closed f allowed refl h)
    Accounts-move start Move.publish f allowed h = Accounts-publish_next start _ f refl h

    pub Accounts-run_moves :
        (start : Machine P) (ms : List (Move X.Metrics)) (f : Now)
        → AllPermitted ms
        → Told start f
        → Told start (run_moves X F P C c dir pr ms f)
    unfolding run_moves
    Accounts-run_moves start [] f all h = h
    Accounts-run_moves start (m ∷ ms) f all h =
        Accounts-run_moves start ms (move X F P C c dir pr m f) all.1
          (Accounts-move start m f all.0 h)
