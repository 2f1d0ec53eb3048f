-- ===== src/Client/Pipeline/Sending.antt =====
-- The turns in which a source sends, and all else stays.
use auklet_client_c.Prelude.{
  arith, ◌≡◌, refl, String, Option, none, some, List, [], ◌∷◌, Result, ok, err,
}
use auklet_client_c.Fsutil.{FilePath, Fs}
use auklet_client_c.Agent.Message.{Message as AgentMessage}
use auklet_client_c.Agent.Requester.{Requester}
use auklet_client_c.Broker.Message.{Message}
use auklet_client_c.Broker.Store.{Text}
use auklet_client_c.Broker.Mqtt.{Client, Producer}
use auklet_client_c.Message.Persistor.{Persistor}
use auklet_client_c.Schema.Convert.{Codec, Ambient, Config}
use auklet_client_c.Client.Channel.{holding, put}
use auklet_client_c.Client.Pipeline.{
  Source, Flow, take_message, listed, list_once, load_next, requested,
}
use auklet_client_c.Client.Pipeline.Accounts.{of_source, Grown-same, Grown-put, IsReceived}
use auklet_client_c.Client.Pipeline.Origin.{from, Sends}

module _ (X : Codec) (F : Fs Text) (P : Persistor) (C : Client) (c : Config) (dir : String)
    (pr : Producer) where
  abbrev pub Now : Type 0
  Now = Flow X F P C c dir pr

  abbrev pub Quiet : Now → Now → Type 0
  Quiet f f' = Sends X F P C c dir pr f f'

  pub Sends-same : (f : Now) → Quiet f f
  Sends-same f = record {
    same_limiter = refl;
    same_passed = refl;
    same_delivered = refl;
    by_converter = Grown-same f.from_converter;
    by_loader = Grown-same f.from_loader;
    by_requester = Grown-same f.from_requester;
  }

  -- What the statement is about stays, field by field.
  pub Sends-alike :
      (f f' : Now)
      → f'.limiter ≡ f.limiter
      → f'.passed ≡ f.passed
      → f'.delivered ≡ f.delivered
      → f'.from_converter ≡ f.from_converter
      → f'.from_loader ≡ f.from_loader
      → f'.from_requester ≡ f.from_requester
      → Quiet f f'
  Sends-alike f f' l p d conv load req = record {
    same_limiter = l;
    same_passed = p;
    same_delivered = d;
    by_converter = rw conv (Grown-same f.from_converter);
    by_loader = rw load (Grown-same f.from_loader);
    by_requester = rw req (Grown-same f.from_requester);
  }

  pub IsReceived-kept :
      (s : Source) (f f' : Now)
      → f'.from_converter ≡ f.from_converter
      → f'.from_loader ≡ f.from_loader
      → f'.from_requester ≡ f.from_requester
      → (ms : List Message) → IsReceived ms (from X F P C c dir pr s f)
      → IsReceived ms (from X F P C c dir pr s f')
  IsReceived-kept Source.converter f f' conv load req ms h = rw conv h
  IsReceived-kept Source.loader f f' conv load req ms h = rw load h
  IsReceived-kept Source.requester f f' conv load req ms h = rw req h

  pub Sends-take_message :
      (o : Option AgentMessage) (a : Ambient X.Metrics) (old f : Now)
      → Quiet old f
      → (f.from_converter ≡ old.from_converter)
      → Quiet old (take_message X F P C c dir pr o a old f)
  unfolding take_message
  Sends-take_message none a old f q e = Sends-same old
  Sends-take_message (some m) a old f q e = record {
    same_limiter = q.same_limiter;
    same_passed = q.same_passed;
    same_delivered = q.same_delivered;
    by_converter = rw e (Grown-put _ old.from_converter);
    by_loader = q.by_loader;
    by_requester = q.by_requester;
  }

  pub Sends-loader :
      (f : Now) (paths : Option (List FilePath)) (xs : List Message)
      → Quiet f (record f { loading = paths; from_loader = put xs f.from_loader })
  Sends-loader f paths xs = record {
    same_limiter = refl;
    same_passed = refl;
    same_delivered = refl;
    by_converter = Grown-same f.from_converter;
    by_loader = Grown-put xs f.from_loader;
    by_requester = Grown-same f.from_requester;
  }

  pub Sends-listed : (r : Result (List FilePath)) (f : Now) → Quiet f (listed X F P C c dir pr r f)
  unfolding listed
  Sends-listed (ok paths) f = record {
    same_limiter = refl;
    same_passed = refl;
    same_delivered = refl;
    by_converter = Grown-same f.from_converter;
    by_loader = Grown-same f.from_loader;
    by_requester = Grown-same f.from_requester;
  }
  Sends-listed (err e) f = Sends-loader f (some []) _

  pub Sends-list_once :
      (o : Option (List FilePath)) (f : Now) → Quiet f (list_once X F P C c dir pr o f)
  unfolding list_once
  Sends-list_once none f = Sends-listed _ f
  Sends-list_once (some _) f = Sends-same f

  pub Sends-load_next :
      (o : Option (List FilePath)) (f : Now) → Quiet f (load_next X F P C c dir pr o f)
  unfolding load_next
  Sends-load_next none f = Sends-same f
  Sends-load_next (some []) f = Sends-same f
  Sends-load_next (some (q ∷ qs)) f = Sends-loader f (some qs) _

  pub Sends-requested : (r : Requester) (f : Now) → Quiet f (requested X F P C c dir pr r f)
  unfolding requested
  Sends-requested r f = record {
    same_limiter = refl;
    same_passed = refl;
    same_delivered = refl;
    by_converter = Grown-same f.from_converter;
    by_loader = Grown-same f.from_loader;
    by_requester = Grown-put _ f.from_requester;
  }

  -- Nothing was received from a source that has sent nothing.
  pub IsReceived-start :
      (s : Source) (f : Now)
      → f.from_converter ≡ holding []
      → f.from_loader ≡ holding []
      → f.from_requester ≡ holding []
      → IsReceived (of_source s []) (from X F P C c dir pr s f)
  IsReceived-start Source.converter f conv load req =
      rw conv (record { is_first = refl; within = omega arith })
  IsReceived-start Source.loader f conv load req =
      rw load (record { is_first = refl; within = omega arith })
  IsReceived-start Source.requester f conv load req =
      rw req (record { is_first = refl; within = omega arith })
