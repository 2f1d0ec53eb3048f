-- ===== src/Client/Pipeline/Over.antt =====
-- What it is for the sources of the limiter to be over, in the turns of the pipeline.
use auklet_client_c.Prelude.{
  ◌≡◌, refl, sym, ap, ◌∙◌, Bool, true, false, ◌&&◌, String, Option, none, some, List, [], ◌∷◌,
  append-nil, arith, get_elem?, length, drop, if◌then◌else◌,
}
use mathlib.Core.Path.{subst}
use auklet_client_c.Fsutil.{FilePath, Fs}
use auklet_client_c.Agent.Requester.{Requester}
use auklet_client_c.Agent.Requester.Ending.{Exclusive, go_on-closed}
use auklet_client_c.Broker.Message.{Message}
use auklet_client_c.Broker.Store.{Text}
use auklet_client_c.Broker.Mqtt.{Client, Producer}
use auklet_client_c.Message.Persistor.{Persistor}
use auklet_client_c.Message.Limiter.Run.{Event, expired, closed, configured}
use auklet_client_c.Schema.Convert.{Codec, Config}
use auklet_client_c.Client.Channel.{Channel, next, put, receive}
use auklet_client_c.Client.Pipeline.{
  Source, Flow, Move, offered, take_message, list_once, load_next, requested, limit, pass_from,
  publish_next, converter_closed, loader_closed, is_merged, is_ended, is_none, is_loaded, move,
}

next-put_none : {A : Type 0} → (ch : Channel A) → next (put [] ch) ≡ next ch
next-put_none ch = ap (λ l. get_elem? l ch.received) (append-nil ch.sent)

drop-length : {A : Type 0} → (xs : List A) → drop (length xs) xs ≡ []
drop-length [] = refl
drop-length (x ∷ xs) = drop-length xs

all_true :
    (a b c d e f g : Bool)
    → (((a && b) && c) && (d && e) && (f && g)) ≡ true
    → (a ≡ true) × (b ≡ true) × (c ≡ true) × (d ≡ true) × (e ≡ true) × (f ≡ true) × (g ≡ true)
all_true a b c d e f g h = ground arith

module _ (X : Codec) (F : Fs Text) (P : Persistor) (C : Client) (c : Config) (dir : String)
    (pr : Producer) where
  abbrev pub Now : Type 0
  Now = Flow X F P C c dir pr

  -- All sources have ended, and all that they sent was received.
  pub record IsOver (f : Now) : Type 0 where
    pub no_message : next f.from_server ≡ none
    pub no_point : next f.from_points ≡ none
    pub no_converted : next f.from_converter ≡ none
    pub all_loaded : f.loading ≡ some []
    pub no_loaded : next f.from_loader ≡ none
    pub requester_closed : f.requests.out_closed ≡ true
    pub no_requested : next f.from_requester ≡ none

  pub is_ended-IsOver : (f : Now) → is_ended X F P C c dir pr f ≡ true → IsOver f
  unfolding is_ended converter_closed loader_closed is_merged is_none is_loaded offered
  is_ended-IsOver f h =
      let t = all_true _ _ _ _ _ _ _ h in
      record {
        no_message = none_is _ t.0;
        no_point = none_is _ t.1;
        no_converted = none_is _ t.2;
        all_loaded = loaded_is _ t.3;
        no_loaded = none_is _ t.4;
        requester_closed = t.5;
        no_requested = none_is _ t.6;
      }
    where
      none_is : {A : Type 0} → (o : Option A) → is_none X F P C c dir pr o ≡ true → o ≡ none
      none_is none h = refl
      none_is (some x) h = cc

      loaded_is : (o : Option (List FilePath)) → is_loaded X F P C c dir pr o ≡ true → o ≡ some []
      loaded_is none h = cc
      loaded_is (some []) h = refl
      loaded_is (some (q ∷ qs)) h = cc

  -- After that, the turns change none of it.
  pub IsOver-limit : (e : Event) (f : Now) → IsOver f → IsOver (limit X F P C c dir pr e f)
  unfolding limit
  IsOver-limit e f h = record {
    no_message = h.no_message;
    no_point = h.no_point;
    no_converted = h.no_converted;
    all_loaded = h.all_loaded;
    no_loaded = h.no_loaded;
    requester_closed = h.requester_closed;
    no_requested = h.no_requested;
  }

  IsOver-requested :
      (r : Requester) (f : Now)
      → r ≡ f.requests
      → IsOver f
      → IsOver (requested X F P C c dir pr r f)
  unfolding requested
  IsOver-requested r f e h = record {
    no_message = h.no_message;
    no_point = h.no_point;
    no_converted = h.no_converted;
    all_loaded = h.all_loaded;
    no_loaded = h.no_loaded;
    requester_closed = ap (λ (r : Requester). r.out_closed) e ∙ h.requester_closed;
    no_requested =
        ap (λ (xs : List Message). next (put xs f.from_requester))
          (ap (λ (r : Requester). drop (length f.requests.out) r.out) e
            ∙ drop-length f.requests.out)
        ∙ next-put_none f.from_requester
        ∙ h.no_requested;
  }

  -- A turn that cannot be taken leaves the state as it is.
  IsOver-same : (f f' : Now) → f' ≡ f → IsOver f → IsOver f'
  IsOver-same f f' e h = subst IsOver (sym e) h

  IsOver-if : (b : Bool) (f g : Now) → IsOver f → IsOver g → IsOver (if b then g else f)
  IsOver-if true f g h k = k
  IsOver-if false f g h k = h

  over-offered : (s : Source) (f : Now) → IsOver f → offered X F P C c dir pr s f ≡ none
  unfolding offered
  over-offered Source.converter f h = h.no_converted
  over-offered Source.loader f h = h.no_loaded
  over-offered Source.requester f h = h.no_requested

  IsOver-publish_next :
      (o : Option Message) (f : Now) → IsOver f → IsOver (publish_next X F P C c dir pr o f)
  unfolding publish_next
  IsOver-publish_next none f h = h
  IsOver-publish_next (some m) f h = record {
    no_message = h.no_message;
    no_point = h.no_point;
    no_converted = h.no_converted;
    all_loaded = h.all_loaded;
    no_loaded = h.no_loaded;
    requester_closed = h.requester_closed;
    no_requested = h.no_requested;
  }

  pub IsOver-move :
      (m : Move X.Metrics) (f : Now)
      → Exclusive f.requests
      → IsOver f
      → IsOver (move X F P C c dir pr m f)
  unfolding move take_message list_once load_next pass_from
  IsOver-move (Move.convert_message a) f x h =
      IsOver-same f _
        (ap
          (λ o.
            take_message X F P C c dir pr o a f (record f { from_server = receive f.from_server }))
          h.no_message)
        h
  IsOver-move (Move.convert_point a) f x h =
      IsOver-same f _
        (ap
          (λ o.
            take_message X F P C c dir pr o a f (record f { from_points = receive f.from_points }))
          h.no_point)
        h
  IsOver-move Move.list_files f x h =
      IsOver-same f _ (ap (λ o. list_once X F P C c dir pr o f) h.all_loaded) h
  IsOver-move Move.load_file f x h =
      IsOver-same f _ (ap (λ o. load_next X F P C c dir pr o f) h.all_loaded) h
  IsOver-move (Move.request e) f x h =
      IsOver-requested _ f (go_on-closed e f.requests h.requester_closed x) h
  IsOver-move (Move.limit_storage n) f x h = record {
    no_message = h.no_message;
    no_point = h.no_point;
    no_converted = h.no_converted;
    all_loaded = h.all_loaded;
    no_loaded = h.no_loaded;
    requester_closed = h.requester_closed;
    no_requested = h.no_requested;
  }
  IsOver-move (Move.expire now) f x h = IsOver-limit (expired now) f h
  IsOver-move (Move.configure conf now) f x h = IsOver-limit (configured conf now) f h
  IsOver-move (Move.pass s) f x h =
      IsOver-if _ f _ h
        (IsOver-same f _ (ap (λ o. pass_from X F P C c dir pr s o f) (over-offered s f h)) h)
  IsOver-move Move.end_input f x h = IsOver-if _ f _ h (IsOver-limit closed f h)
  IsOver-move Move.publish f x h = IsOver-publish_next _ f h
