-- ===== src/Client/Pipeline/Origin.antt =====
-- The limiter in the pipeline, with the events that it saw.
use auklet_client_c.Prelude.{
  ℕ, suc, ◌≤◌, ◌≡◌, sym, ap, ◌∙◌, String, Option, none, some, List, [], ◌∷◌, ◌++◌, map, append-nil,
  arith, get_elem?, length, length-append, take,
}
use mathlib.Core.List.{map-append}
use mathlib.Core.Path.{subst}
use auklet_client_c.Prelude.Subsequences.{
  IsSubsequence, done, keep, IsSubsequence-nil, IsSubsequence-append, take-append, take-suc,
  get_elem?-lt,
}
use auklet_client_c.Fsutil.{Fs}
use auklet_client_c.Broker.Message.{Message}
use auklet_client_c.Broker.Store.{Text}
use auklet_client_c.Broker.Mqtt.{Client, Producer}
use auklet_client_c.Message.Persistor.{Persistor}
use auklet_client_c.Message.Limiter.Run.{Event, Machine, step, serve_from}
use auklet_client_c.Message.Limiter.Order.{messages}
use auklet_client_c.Message.Limiter.Shutdown.{serve_from-append}
use auklet_client_c.Schema.Convert.{Codec, Config}
use auklet_client_c.Client.Channel.{Channel}
use auklet_client_c.Client.Pipeline.{Source, Flow, channel, keep_delivered, limit}
use auklet_client_c.Client.Pipeline.Accounts.{
  Only, Only-append, step-out, messages-append, of_source, Grown, IsReceived, IsReceived-Grown,
}

-- What was delivered is a part of the first that the limiter sent, as many as were passed on.
pub record IsPublished (delivered : List Message) (passed : ℕ) (out : List Message) : Type 0 where
  pub is_part : IsSubsequence delivered (take passed out)
  pub bounded : passed ≤ length out

IsPublished-more :
    (d : List Message) (n : ℕ) (out more : List Message)
    → IsPublished d n out
    → IsPublished d n (out ++ more)
IsPublished-more d n out more h = record {
  is_part = rw (take-append n out more h.bounded) h.is_part;
  bounded = omega (arith, h.bounded, length-append out more);
}

pub IsPublished-next :
    (e : Option String) (m : Message) (d : List Message) (n : ℕ) (out : List Message)
    → get_elem? out n ≡ some m
    → IsPublished d n out
    → IsPublished (keep_delivered e m d) (suc n) out
unfolding keep_delivered
IsPublished-next none m d n out is_m h = record {
  is_part = rw (take-suc n out m is_m) (IsSubsequence-append h.is_part (keep done));
  bounded = get_elem?-lt n out m is_m;
}
IsPublished-next (some e) m d n out is_m h = record {
  is_part = rw (take-suc n out m is_m) (
      subst (λ l. IsSubsequence l (take n out ++ (m ∷ []))) (append-nil d)
        (IsSubsequence-append h.is_part (IsSubsequence-nil (m ∷ []))));
  bounded = get_elem?-lt n out m is_m;
}

module _ (X : Codec) (F : Fs Text) (P : Persistor) (C : Client) (c : Config) (dir : String)
    (pr : Producer) where
  abbrev pub Now : Type 0
  Now = Flow X F P C c dir pr

  abbrev pub from : Source → Now → Channel Message
  from s f = channel X F P C c dir pr s f

  -- The events that the limiter has seen since it was in `start`, all of them allowed, and the
  -- messages that arrived with them, each with its source.
  pub record Accounts (Allowed : Event → Type 0) (start : Machine P) (f : Now) : Type 0 where
    pub events : List Event
    pub arrivals : List (Source × Message)
    pub only : Only Allowed events
    pub served : f.limiter ≡ serve_from P events start.0 start.1
    pub arrived : messages events ≡ map (λ a. a.1) arrivals
    pub received_all : (s : Source) → IsReceived (of_source s arrivals) (from s f)
    pub published : IsPublished f.delivered f.passed f.limiter.1.out

  -- A turn in which sources send, and nothing else that counts.
  pub record Sends (f f' : Now) : Type 0 where
    pub same_limiter : f'.limiter ≡ f.limiter
    pub same_passed : f'.passed ≡ f.passed
    pub same_delivered : f'.delivered ≡ f.delivered
    pub by_converter : Grown f.from_converter f'.from_converter
    pub by_loader : Grown f.from_loader f'.from_loader
    pub by_requester : Grown f.from_requester f'.from_requester

  Sends-Grown : (f f' : Now) → Sends f f' → (s : Source) → Grown (from s f) (from s f')
  Sends-Grown f f' g Source.converter = g.by_converter
  Sends-Grown f f' g Source.loader = g.by_loader
  Sends-Grown f f' g Source.requester = g.by_requester

  pub Accounts-Sends :
      (A : Event → Type 0) (start : Machine P) (f f' : Now)
      → Sends f f'
      → Accounts A start f
      → Accounts A start f'
  Accounts-Sends A start f f' g a = record {
    only = a.only;
    events = a.events;
    arrivals = a.arrivals;
    served = g.same_limiter ∙ a.served;
    arrived = a.arrived;
    received_all = λ s.
        IsReceived-Grown (of_source s a.arrivals) (from s f) (from s f') (Sends-Grown f f' g s)
          (a.received_all s);
    published = rw (g.same_limiter, g.same_passed, g.same_delivered) a.published;
  }

  IsReceived-limit :
      (s : Source) (e : Event) (g : Now) (ms : List Message)
      → IsReceived ms (from s g)
      → IsReceived ms (from s (limit X F P C c dir pr e g))
  unfolding limit
  IsReceived-limit Source.converter e g ms h = h
  IsReceived-limit Source.loader e g ms h = h
  IsReceived-limit Source.requester e g ms h = h

  -- The limiter sees an event, with what arrives by it.
  pub Accounts-limit :
      (A : Event → Type 0) (start : Machine P) (e : Event) (more : List (Source × Message))
      (f g : Now)
      → A e
      → g.limiter ≡ f.limiter
      → g.passed ≡ f.passed
      → g.delivered ≡ f.delivered
      → messages (e ∷ []) ≡ map (λ a. a.1) more
      → (a : Accounts A start f)
      → ((s : Source) → IsReceived (of_source s (a.arrivals ++ more)) (from s g))
      → Accounts A start (limit X F P C c dir pr e g)
  unfolding limit serve_from
  Accounts-limit A start e more f g allowed same_limiter same_passed same_delivered new a all =
      let out = step-out P e g.limiter.0 g.limiter.1 in
      record {
        events = a.events ++ (e ∷ []);
        arrivals = a.arrivals ++ more;
        only = Only-append A a.events e a.only allowed;
        served =
            ap (λ (m : Machine P). step P e m.0 m.1) (same_limiter ∙ a.served)
            ∙ sym (serve_from-append P a.events (e ∷ []) start.0 start.1);
        arrived =
            messages-append a.events (e ∷ [])
            ∙ (λ i. a.arrived i ++ new i)
            ∙ sym (map-append (λ a. a.1) a.arrivals more);
        received_all = λ s. IsReceived-limit s e g _ (all s);
        published =
            rw (out.1, same_limiter, same_passed, same_delivered)
              (IsPublished-more f.delivered f.passed f.limiter.1.out _ a.published);
      }
