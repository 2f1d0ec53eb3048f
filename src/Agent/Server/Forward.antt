-- ===== src/Agent/Server/Forward.antt =====
-- Which messages of a stream the server forwards, and how it ends.
use auklet_client_c.Prelude.{
  ◌≡◌, refl, ap, ◌∙◌, String, Bool, true, false, ◌||◌, none, some, List, [], ◌∷◌, ◌++◌, ◌<>◌, map,
  append-nil, append_assoc, ◌==◌, string_eq, arith, Bool-cases, inl, inr, if◌then◌else◌,
}
use auklet_client_c.Agent.Message.{Message, Decoded, value, eof, failed}
use auklet_client_c.Agent.Server.{
  Action, sent, closed_out, closed_done, Server, clean_exit, new_server, serve, finish,
}

-- What a stream holds before its end: messages and texts that do not decode.
pub data Item : Type 0 where
  good : Message → Item
  bad : String → String → Item

abbrev pub decoded : Item → Decoded Message
decoded (good m) = value m
decoded (bad e buf) = failed e buf

abbrev pub is_event : Item → Bool
is_event (good m) = m.type == "event"
is_event (bad e buf) = false

abbrev pub has_event : List Item → Bool
has_event [] = false
has_event (d ∷ ds) = is_event d || has_event ds

-- The messages before the first text that does not decode.
abbrev pub before_failure : List Item → List Message
before_failure [] = []
before_failure (good m ∷ ds) = m ∷ before_failure ds
before_failure (bad e buf ∷ ds) = []

-- The last actions, with the message of a clean exit unless an event was seen.
abbrev pub ending : Bool → List Action
ending true = closed_out ∷ closed_done ∷ []
ending false = sent clean_exit ∷ closed_out ∷ closed_done ∷ []

append_two :
    (xs : List Action) (a b c : Action)
    → ((xs ++ (a ∷ [])) ++ (b ∷ [])) ++ (c ∷ []) ≡ xs ++ (a ∷ b ∷ c ∷ [])
append_two xs a b c = simp append_assoc

finish_actions : (s : Server) → (finish s).actions ≡ s.actions ++ ending s.errd
unfolding finish
finish_actions s = elim (Bool-cases s.errd) [
  | inl e ↦ rw e (append_assoc s.actions (closed_out ∷ []) (closed_done ∷ []))
  | inr e ↦ rw e (append_two s.actions (sent clean_exit) closed_out closed_done)
]

-- After an error nothing more is forwarded.
serve_failed :
    (ds : List Item) (rest : List (Decoded Message)) (s : Server) (e : String)
    → s.err ≡ some e
    → (serve (map decoded ds ++ eof ∷ rest) s).actions
      ≡ s.actions ++ ending (s.errd || has_event ds)
unfolding serve
serve_failed [] rest s e h = finish_actions s ∙ ground arith
serve_failed (good m ∷ ds) rest s e h = ground (
  arith,
  h,
  serve_failed ds rest (record s { errd = if m.type == "event" then true else s.errd; msg = m }) e
      h,
)
serve_failed (bad x buf ∷ ds) rest s e h =
    serve_failed ds rest (record s { err = some (x <> " in " <> buf) }) (x <> " in " <> buf) refl

serve_actions :
    (ds : List Item) (rest : List (Decoded Message)) (s : Server)
    → s.err ≡ none
    → (serve (map decoded ds ++ eof ∷ rest) s).actions
      ≡ s.actions ++ (map sent (before_failure ds) ++ ending (s.errd || has_event ds))
unfolding serve
serve_actions [] rest s h = finish_actions s ∙ ground arith
serve_actions (good m ∷ ds) rest s h =
    let next : Server = record {
      errd = if m.type == "event" then true else s.errd;
      msg = m;
      err = none;
      actions = s.actions ++ (sent m ∷ []);
    } in
    ground (
      arith,
      h,
      serve_actions ds rest next refl,
      append_assoc s.actions (sent m ∷ [])
          (map sent (before_failure ds) ++ ending (next.errd || has_event ds)),
    )
serve_actions (bad x buf ∷ ds) rest s h =
    serve_failed ds rest (record s { err = some (x <> " in " <> buf) }) (x <> " in " <> buf) refl

-- The server ends at the end of the stream, having forwarded the messages that come before the first
-- text that does not decode and none after it. It then reports a clean exit unless an event was
-- among all the messages, closes its output and, after that, `Done`.
pub new_server_actions :
    (ds : List Item) (rest : List (Decoded Message))
    → (serve (map decoded ds ++ eof ∷ rest) new_server).actions
      ≡ map sent (before_failure ds) ++ ending (has_event ds)
unfolding new_server
new_server_actions ds rest = serve_actions ds rest new_server refl

-- Texts that all decode.
abbrev pub goods : List Message → List Item
goods ms = map good ms

before_failure-goods :
    (ms : List Message) (ds : List Item) → before_failure (goods ms ++ ds) ≡ ms ++ before_failure ds
before_failure-goods [] ds = refl
before_failure-goods (m ∷ ms) ds = ap (λ t. m ∷ t) (before_failure-goods ms ds)

has_event-append : (xs ys : List Item) → has_event (xs ++ ys) ≡ (has_event xs || has_event ys)
has_event-append [] ys = refl
has_event-append (d ∷ xs) ys = ground (arith, has_event-append xs ys)

-- An event that follows a text which does not decode is lost, and with it the report of the exit:
-- neither it nor a clean exit is sent.
pub event_lost :
    (ms : List Message) (x buf : String) (ds : List Item) (rest : List (Decoded Message))
    → has_event (goods ms) ≡ false
    → has_event ds ≡ true
    → (serve (map decoded (goods ms ++ bad x buf ∷ ds) ++ eof ∷ rest) new_server).actions
      ≡ map sent ms ++ (closed_out ∷ closed_done ∷ [])
event_lost ms x buf ds rest none_yet later =
    new_server_actions (goods ms ++ bad x buf ∷ ds) rest
    ∙ rw (before_failure-goods, append-nil, has_event-append, none_yet, later)
