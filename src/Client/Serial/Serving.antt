-- ===== src/Client/Serial/Serving.antt =====
-- The runs of `serial` and of `dumper`: what is written, and what is printed.
use auklet_client_c.Prelude.{
  suc, ℕ, ◌≡◌, refl, ap, ◌∙◌, ◌⊎◌, inl, inr, true, String, none, some, List, [], ◌∷◌, ◌++◌, map,
  append-nil, arith,
}
use mathlib.Core.Path.{subst}
use auklet_client_c.Fsutil.{Fs}
use auklet_client_c.Agent.Message.{Message as AgentMessage}
use auklet_client_c.Agent.Server
use auklet_client_c.Agent.DataPoint
use auklet_client_c.App.Socketpair.{System}
use auklet_client_c.App.Exec.{Exec, Outcome, connect}
use auklet_client_c.Broker.Message.{Message}
use auklet_client_c.Broker.Store.{Text}
use auklet_client_c.Merge
use auklet_client_c.Merge.{Merging, merge}
use auklet_client_c.Merge.Streams.{of_source, serve-IsMerging, serve_complete}
use auklet_client_c.Schema.Convert.{Codec}
use auklet_client_c.Schema.Convert.Serve.{Action, send}
use auklet_client_c.Schema.Convert.Serve.Output.{converted, serve-unstored}
use auklet_client_c.Client.Pipeline.{messages_of, sent_by}
use auklet_client_c.Client.Serial.{
  Line, Port, SerialConfig, serial_config, Session, sources, merging, merged, write_all,
  agent_messages, with_found, dump_text, serial_converted, requested_messages, serial_messages,
  serial_connected, run_serial, dumper_connected, run_dumper,
}

-- All goroutines of a merger have ended, and its output is read to the end.
pub record IsDone {A : Type 0} (s : Merging A) : Type 0 where
  pub closed : s.closed ≡ true
  pub emptied : s.queue ≡ []

-- What a merger has delivered is the two sources' messages, all of them, each source's in order, and
-- nothing else.
pub record IsWhole {A : Type 0} (xs ys : List A) (s : Merging A) : Type 0 where
  pub first : of_source 0 s.delivered ≡ xs
  pub second : of_source 1 s.delivered ≡ ys
  pub no_other : (i : ℕ) → of_source (suc (suc i)) s.delivered ≡ []

append_left_nil : {A : Type 0} → (xs ys : List A) → xs ++ ys ≡ [] → xs ≡ []
append_left_nil [] ys h = refl
append_left_nil (x ∷ xs) ys h = cc

merging-IsWhole :
    {A : Type 0}
    → (room : ℕ) (ms : List Merge.Move) (xs ys : List A) → IsDone (merging room ms xs ys)
    → IsWhole xs ys (merging room ms xs ys)
unfolding merging
merging-IsWhole room ms xs ys h = record {
  first = serve_complete 2 room (sources xs ys) ms 0 h.closed h.emptied (omega arith);
  second = serve_complete 2 room (sources xs ys) ms 1 h.closed h.emptied (omega arith);
  no_other = λ i.
      append_left_nil
        (of_source (suc (suc i)) (Merge.serve 2 room ms (merge (sources xs ys))).delivered) _
        ((serve-IsMerging 2 room (sources xs ys) ms).kept (suc (suc i)));
}

messages_of-send :
    (ms : List Message) (rest : List Action)
    → messages_of (map send ms ++ rest) ≡ ms ++ messages_of rest
messages_of-send [] rest = refl
messages_of-send (m ∷ ms) rest = ap (λ l. m ∷ l) (messages_of-send ms rest)

module _ (X : Codec) where
  -- What the servers send, merged.
  abbrev pub agents : Session X.Metrics → Merging AgentMessage
  agents t =
      merging 0 t.agent_moves (sent_by (Server.serve t.from_app Server.new_server).actions)
        (DataPoint.serve X.quote t.points DataPoint.new_data_point_server).out

  -- The whole of what the two servers of an application sent.
  abbrev pub IsAgents : Session X.Metrics → Type 0
  IsAgents t =
      IsWhole (sent_by (Server.serve t.from_app Server.new_server).actions)
        (DataPoint.serve X.quote t.points DataPoint.new_data_point_server).out (agents t)

  agents-IsAgents : (t : Session X.Metrics) → IsDone (agents t) → IsAgents t
  agents-IsAgents t h = merging-IsWhole 0 t.agent_moves _ _ h

  module _ (S : System) where
    -- The dumper returns the error of the connection and prints nothing; or it is connected, and
    -- once the merger is done it has printed one text for each message of the two servers, all of
    -- them, those of one server in the order in which it sent them.
    pub run_dumper-IsAgents :
        (t : Session X.Metrics) (x : Exec S.File) (y : S.State)
        → IsDone (agents t)
        → let o = connect S x y in
          ((e : String) × (o.2 ≡ some e) × (run_dumper X S t x y ≡ (o, [])))
          ⊎ ((o.2 ≡ none)
              × (run_dumper X S t x y
                  ≡ (o, map (dump_text X) (map (λ d. d.1) (agents t).delivered)))
              × IsAgents t)
    unfolding run_dumper dumper_connected agent_messages merged
    run_dumper-IsAgents t x y h = printed (connect S x y)
      where
        printed :
            (o : Outcome S)
            → ((e : String) × (o.2 ≡ some e) × (dumper_connected X S t o ≡ (o, [])))
              ⊎ ((o.2 ≡ none)
                  × (dumper_connected X S t o
                      ≡ (o, map (dump_text X) (map (λ d. d.1) (agents t).delivered)))
                  × IsAgents t)
        printed (x, y, some e) = inl (e, refl, refl)
        printed (x, y, none) = inr (refl, refl, agents-IsAgents t h)

  module _ (F : Fs Text) (c : SerialConfig) (client_version : String) where
    serial_converted-converted :
        (s : F.State) (t : Session X.Metrics)
        → serial_converted X F c client_version s t
          ≡ converted X F
              (serial_config c client_version)
              (with_found X t.found (agent_messages X t))
    unfolding serial_converted
    serial_converted-converted s t =
        let ms = with_found X t.found (agent_messages X t) in
        let done = converted X F (serial_config c client_version) ms in
        ap messages_of (serve-unstored X F (serial_config c client_version) ms s)
        ∙ messages_of-send done _
        ∙ append-nil done

    -- The merger of the converter and the requester.
    abbrev pub outputs : F.State → Session X.Metrics → Merging Message
    outputs s t =
        merging 10 t.moves (serial_converted X F c client_version s t) (requested_messages X t)

    -- The whole of what the application's messages were converted to, and of what the requester sent.
    abbrev pub IsOutputs : F.State → Session X.Metrics → Type 0
    IsOutputs s t =
        IsWhole
          (converted X F (serial_config c client_version)
            (with_found X t.found (agent_messages X t)))
          (requested_messages X t) (outputs s t)

    outputs-IsOutputs : (s : F.State) (t : Session X.Metrics) → IsDone (outputs s t) → IsOutputs s t
    outputs-IsOutputs s t h =
        subst (λ l. IsWhole l (requested_messages X t) (outputs s t))
          (serial_converted-converted s t) (merging-IsWhole 10 t.moves _ _ h)

    module _ (S : System) (D : Fs Line) where
      -- The serial pipeline returns the error of the connection and writes nothing; or it is
      -- connected, returns no error, and once both mergers are done it has tried to write every
      -- message that the second one delivered, one after the other. The first merger delivered all
      -- the messages of the two servers, each server's in order. The second one delivered those of
      -- them that are not dropped, converted and in order, and all those of the requester in order,
      -- interleaved, and nothing else.
      pub run_serial-IsOutputs :
          (s : F.State) (t : Session X.Metrics) (x : Exec S.File) (y : S.State) (p : Port D)
          → IsDone (agents t)
          → IsDone (outputs s t)
          → let o = connect S x y in
            ((e : String) × (o.2 ≡ some e)
              × (run_serial X F c client_version S D s t x y p ≡ (o, p)))
            ⊎ ((o.2 ≡ none)
                × (run_serial X F c client_version S D s t x y p
                    ≡ (o, write_all X D c.addr (map (λ d. d.1) (outputs s t).delivered) p))
                × IsAgents t
                × IsOutputs s t)
      unfolding run_serial serial_connected serial_messages merged
      run_serial-IsOutputs s t x y p k h = served (connect S x y)
        where
          served :
              (o : Outcome S)
              → ((e : String) × (o.2 ≡ some e)
                  × (serial_connected X F c client_version S D s t p o ≡ (o, p)))
                ⊎ ((o.2 ≡ none)
                    × (serial_connected X F c client_version S D s t p o
                        ≡ (o, write_all X D c.addr (map (λ d. d.1) (outputs s t).delivered) p))
                    × IsAgents t
                    × IsOutputs s t)
          served (x, y, some e) = inl (e, refl, refl)
          served (x, y, none) = inr (refl, refl, agents-IsAgents t k, outputs-IsOutputs s t h)
