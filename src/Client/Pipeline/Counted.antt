-- ===== src/Client/Pipeline/Counted.antt =====
-- How many messages the converter of the pipeline has sent, and how many are still to be converted.
use auklet_client_c.Prelude.{
  ℕ, zero, suc, ◌+◌, ◌≡◌, refl, ap, ◌∙◌, Bool, true, false, String, Option, none, some, List, [],
  ◌∷◌, arith, get_elem?, length, length-append, drop, Result, ok, err, Bool-cases, inl, inr,
  if◌then◌else◌,
}
use auklet_client_c.Fsutil.{FilePath, Fs}
use auklet_client_c.Agent.Message.{Message as AgentMessage}
use auklet_client_c.Broker.Message.{Message}
use auklet_client_c.Broker.Store.{Text, Persistor as StorePersistor}
use auklet_client_c.Broker.Mqtt.{Client, Producer}
use auklet_client_c.Message.Persistor.{Persistor}
use auklet_client_c.Message.Limiter.Run.{closed}
use auklet_client_c.Schema.Convert.{Codec, Ambient, Config}
use auklet_client_c.Schema.Convert.Serve.{is_dropped, forward}
use auklet_client_c.Schema.Convert.Serve.Output.{forward-dropped, forward-unstored, forward-stored}
use auklet_client_c.Client.Channel.{Channel, next, receive}
use auklet_client_c.Client.Pipeline.{
  Source, Flow, Move, offered, is_waiting, is_ended, messages_of, take_message, listed, list_once,
  load_next, requested, limit, pass_from, publish_next, move, run_moves,
}

abbrev one : AgentMessage → ℕ
one m = if is_dropped m then 0 else 1

-- How many messages are not dropped.
abbrev pub kept : List AgentMessage → ℕ
kept [] = 0
kept (m ∷ ms) = one m + kept ms

drop-get_elem? :
    {A : Type 0}
    → (n : ℕ) (xs : List A) (x : A) → get_elem? xs n ≡ some x
    → drop n xs ≡ x ∷ drop (suc n) xs
drop-get_elem? n [] x h = cc
drop-get_elem? zero (y ∷ ys) x h = cc
drop-get_elem? (suc n) (y ∷ ys) x h = drop-get_elem? n ys x h

-- What waits in the channel of a server.
abbrev pub waiting : Channel AgentMessage → ℕ
waiting ch = kept (drop ch.received ch.sent)

waiting-receive :
    (ch : Channel AgentMessage) (m : AgentMessage)
    → next ch ≡ some m
    → waiting ch ≡ one m + waiting (receive ch)
waiting-receive ch m h = ap kept (drop-get_elem? ch.received ch.sent m h)

-- The converter sends one message for each that it takes and does not drop.
length-forward :
    (X : Codec) (F : Fs Text) (c : Config) (a : Ambient X.Metrics) (m : AgentMessage)
    (o : Option StorePersistor) (s : F.State)
    → length (
        messages_of (forward X F c (a, m) (record { persistor = o; fs = s; actions = [] })).actions)
      ≡ one m
length-forward X F c a m none s = elim (Bool-cases (is_dropped m)) [
  | inl dropped ↦
      rw
        (
          forward-dropped X F c a m (record { persistor = none; fs = s; actions = [] }) dropped,
          dropped,
        )
        refl
  | inr taken ↦ rw (forward-unstored X F c a m s [] taken, taken) refl
]
length-forward X F c a m (some p) s = elim (Bool-cases (is_dropped m)) [
  | inl dropped ↦
      rw
        (
          forward-dropped X F c a m (record { persistor = some p; fs = s; actions = [] }) dropped,
          dropped,
        )
        refl
  | inr taken ↦ rw (forward-stored X F c a m p s [] taken, taken) refl
]

module _ (X : Codec) (F : Fs Text) (P : Persistor) (C : Client) (c : Config) (dir : String)
    (pr : Producer) where
  abbrev pub Now : Type 0
  Now = Flow X F P C c dir pr

  -- The messages that the converter has sent, and those that it is still to send.
  abbrev pub total : Now → ℕ
  total f = length f.from_converter.sent + (waiting f.from_server + waiting f.from_points)

  total-convert_message :
      (a : Ambient X.Metrics) (o : Option AgentMessage) (f : Now)
      → next f.from_server ≡ o
      → total
          (take_message X F P C c dir pr o a f (record f { from_server = receive f.from_server }))
        ≡ total f
  unfolding take_message
  total-convert_message a none f h = refl
  total-convert_message a (some m) f h =
      let new = messages_of (forward X F c (a, m) (record f.world { actions = [] })).actions in
      omega (
        arith,
        length-append f.from_converter.sent new,
        length-forward X F c a m f.world.persistor f.world.fs,
        waiting-receive f.from_server m h,
      )

  total-convert_point :
      (a : Ambient X.Metrics) (o : Option AgentMessage) (f : Now)
      → next f.from_points ≡ o
      → total
          (take_message X F P C c dir pr o a f (record f { from_points = receive f.from_points }))
        ≡ total f
  unfolding take_message
  total-convert_point a none f h = refl
  total-convert_point a (some m) f h =
      let new = messages_of (forward X F c (a, m) (record f.world { actions = [] })).actions in
      omega (
        arith,
        length-append f.from_converter.sent new,
        length-forward X F c a m f.world.persistor f.world.fs,
        waiting-receive f.from_points m h,
      )

  total-listed :
      (r : Result (List FilePath)) (f : Now) → total (listed X F P C c dir pr r f) ≡ total f
  unfolding listed
  total-listed (ok paths) f = refl
  total-listed (err e) f = refl

  total-list_once :
      (o : Option (List FilePath)) (f : Now) → total (list_once X F P C c dir pr o f) ≡ total f
  unfolding list_once
  total-list_once none f = total-listed _ f
  total-list_once (some paths) f = refl

  total-load_next :
      (o : Option (List FilePath)) (f : Now) → total (load_next X F P C c dir pr o f) ≡ total f
  unfolding load_next
  total-load_next none f = refl
  total-load_next (some []) f = refl
  total-load_next (some (q ∷ qs)) f = refl

  total-pass_from :
      (s : Source) (o : Option Message) (f : Now)
      → total (pass_from X F P C c dir pr s o f) ≡ total f
  unfolding pass_from limit
  total-pass_from s none f = refl
  total-pass_from Source.converter (some m) f = refl
  total-pass_from Source.loader (some m) f = refl
  total-pass_from Source.requester (some m) f = refl

  total-publish_next :
      (o : Option Message) (f : Now) → total (publish_next X F P C c dir pr o f) ≡ total f
  unfolding publish_next
  total-publish_next none f = refl
  total-publish_next (some m) f = refl

  total-if : (b : Bool) (f g : Now) → total g ≡ total f → total (if b then g else f) ≡ total f
  total-if true f g h = h
  total-if false f g h = refl

  total-move : (m : Move X.Metrics) (f : Now) → total (move X F P C c dir pr m f) ≡ total f
  unfolding move requested limit
  total-move (Move.convert_message a) f = total-convert_message a (next f.from_server) f refl
  total-move (Move.convert_point a) f = total-convert_point a (next f.from_points) f refl
  total-move Move.list_files f = total-list_once f.loading f
  total-move Move.load_file f = total-load_next f.loading f
  total-move (Move.request e) f = refl
  total-move (Move.limit_storage n) f = refl
  total-move (Move.expire now) f = refl
  total-move (Move.configure conf now) f = refl
  total-move (Move.pass s) f =
      let o = offered X F P C c dir pr s f in
      total-if (is_waiting X F P C c dir pr f.limiter.0) f (pass_from X F P C c dir pr s o f)
        (total-pass_from s o f)
  total-move Move.end_input f =
      total-if (is_ended X F P C c dir pr f) f (limit X F P C c dir pr closed f) refl
  total-move Move.publish f = total-publish_next _ f

  pub total-run_moves :
      (ms : List (Move X.Metrics)) (f : Now) → total (run_moves X F P C c dir pr ms f) ≡ total f
  unfolding run_moves
  total-run_moves [] f = refl
  total-run_moves (m ∷ ms) f = total-run_moves ms (move X F P C c dir pr m f) ∙ total-move m f
