-- ===== src/Client/Pipeline/Accounts.antt =====
-- The messages that the pipeline's stages pass on, and where they come from.
use auklet_client_c.Prelude.{
  ◌≤◌, ◌≡◌, refl, sym, ap, ◌∙◌, inl, inr, some, List, [], ◌∷◌, ◌++◌, append-nil, arith, length,
  length-append, take,
}
use auklet_client_c.Prelude.Subsequences.{take-append, take-suc, get_elem?-lt}
use auklet_client_c.Broker.Message.{Message}
use auklet_client_c.Message.Persistor.{Persistor}
use auklet_client_c.Message.Limiter.State.{DataLimiter, State}
use auklet_client_c.Message.Limiter.Run.{Event, expired, received, closed, configured, step}
use auklet_client_c.Message.Limiter.Order.{messages, step-silent, step-received}
use auklet_client_c.Client.Channel.{Channel, put, receive, next}
use auklet_client_c.Client.Pipeline.{Source, converter, loader, requester}

module _ (P : Persistor) where
  -- What the limiter sends in one step is added to what it has sent.
  pub step-out :
      (e : Event) (s : State) (l : DataLimiter P.State)
      → (xs : List Message) × ((step P e s l).1.out ≡ l.out ++ xs)
  step-out (received m) s l = elim (step-received P m s l) [
    | inl same ↦ ([], same ∙ sym (append-nil l.out))
    | inr more ↦ (m ∷ [], more)
  ]
  step-out (expired now) s l = ([], step-silent P (expired now) s l refl ∙ sym (append-nil l.out))
  step-out closed s l = ([], step-silent P closed s l refl ∙ sym (append-nil l.out))
  step-out (configured conf now) s l =
      ([], step-silent P (configured conf now) s l refl ∙ sym (append-nil l.out))

pub messages-append : (es more : List Event) → messages (es ++ more) ≡ messages es ++ messages more
messages-append [] more = refl
messages-append (received m ∷ es) more = ap (λ l. m ∷ l) (messages-append es more)
messages-append (expired now ∷ es) more = messages-append es more
messages-append (closed ∷ es) more = messages-append es more
messages-append (configured conf now ∷ es) more = messages-append es more

-- The messages of one source.
abbrev one_of : Source → Source × Message → List Message → List Message
one_of converter (converter, m) rest = m ∷ rest
one_of loader (loader, m) rest = m ∷ rest
one_of requester (requester, m) rest = m ∷ rest
one_of _ _ rest = rest

abbrev pub of_source : Source → List (Source × Message) → List Message
of_source s [] = []
of_source s (a ∷ rest) = one_of s a (of_source s rest)

pub of_source-append :
    (s : Source) (xs ys : List (Source × Message))
    → of_source s (xs ++ ys) ≡ of_source s xs ++ of_source s ys
of_source-append s [] ys = refl
of_source-append s (a ∷ xs) ys =
    ap (one_of s a) (of_source-append s xs ys) ∙ one_of-append s a (of_source s xs) (of_source s ys)
  where
    one_of-append :
        (s : Source) (a : Source × Message) (us vs : List Message)
        → one_of s a (us ++ vs) ≡ one_of s a us ++ vs
    one_of-append converter (converter, m) us vs = refl
    one_of-append converter (loader, m) us vs = refl
    one_of-append converter (requester, m) us vs = refl
    one_of-append loader (converter, m) us vs = refl
    one_of-append loader (loader, m) us vs = refl
    one_of-append loader (requester, m) us vs = refl
    one_of-append requester (converter, m) us vs = refl
    one_of-append requester (loader, m) us vs = refl
    one_of-append requester (requester, m) us vs = refl

-- More was sent on a channel, and nothing received.
pub record Grown (c c' : Channel Message) : Type 0 where
  pub same_received : c'.received ≡ c.received
  pub more : List Message
  pub longer : c'.sent ≡ c.sent ++ more

pub Grown-same : (c : Channel Message) → Grown c c
Grown-same c = record { same_received = refl; more = []; longer = sym (append-nil c.sent) }

pub Grown-put : (xs : List Message) (c : Channel Message) → Grown c (put xs c)
Grown-put xs c = record { same_received = refl; more = xs; longer = refl }

-- These messages are what was received on the channel.
pub record IsReceived (ms : List Message) (c : Channel Message) : Type 0 where
  pub is_first : ms ≡ take c.received c.sent
  pub within : c.received ≤ length c.sent

pub IsReceived-Grown :
    (ms : List Message) (c c' : Channel Message) → Grown c c' → IsReceived ms c → IsReceived ms c'
IsReceived-Grown ms c c' g h = record {
  is_first =
      h.is_first
      ∙ sym (take-append c.received c.sent g.more h.within)
      ∙ (λ i. take (sym g.same_received i) (sym g.longer i));
  within =
      omega (arith, h.within, g.same_received, ap length g.longer, length-append c.sent g.more);
}

pub IsReceived-receive :
    (ms : List Message) (c : Channel Message) (m : Message)
    → next c ≡ some m
    → IsReceived ms c
    → IsReceived (ms ++ (m ∷ [])) (receive c)
IsReceived-receive ms c m e h = record {
  is_first = ap (λ l. l ++ (m ∷ [])) h.is_first ∙ sym (take-suc c.received c.sent m e);
  within = get_elem?-lt c.received c.sent m e;
}

-- All of these events are allowed.
abbrev pub Only : (Event → Type 0) → List Event → Type 0
Only A [] = Unit {0}
Only A (e ∷ es) = A e × Only A es

pub Only-append :
    (A : Event → Type 0) (es : List Event) (e : Event) → Only A es → A e → Only A (es ++ (e ∷ []))
Only-append A [] e h k = (k, tt)
Only-append A (x ∷ es) e h k = (h.0, Only-append A es e h.1 k)
