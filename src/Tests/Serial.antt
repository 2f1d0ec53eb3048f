-- ===== src/Tests/Serial.antt =====
-- The serial device and the dumper, with a small application.
use auklet_client_c.Prelude.{
  ℕ, ◌≡◌, refl, ◌⊎◌, false, String, none, some, List, [], ◌∷◌, ◌++◌, map, err,
}
use auklet_client_c.Json.{null}
use auklet_client_c.Fsutil.{file, named, Fs}
use auklet_client_c.Agent.Message.{value, eof}
use auklet_client_c.Agent.Server
use auklet_client_c.Agent.DataPoint
use auklet_client_c.Agent.DataPoint.{new_data_point_server}
use auklet_client_c.Agent.Server.{new_server}
use auklet_client_c.Agent.Requester
use auklet_client_c.Agent.Requester.{done, new_periodic_requester}
use auklet_client_c.App.Exec.{connect}
use auklet_client_c.Broker.Message.{Message, event}
use auklet_client_c.Merge
use auklet_client_c.Merge.{receive, send, hand_over, finish, close, deliver, merge}
use auklet_client_c.Schema.Convert.{Codec}
use auklet_client_c.Schema.Convert.Serve
use auklet_client_c.Client.Serial.{
  Line, Port, SerialConfig, Session, line_of, try_write, write_all, merging, agent_messages,
  serial_converted, requested_messages, run_serial, run_dumper, dump_text, merged,
}
use auklet_client_c.Client.Serial.Writing.{IsTried, write_all-IsTried}
use auklet_client_c.Client.Serial.Serving.{
  IsAgents, IsOutputs, agents, outputs, run_serial-IsOutputs, run_dumper-IsAgents,
}
use auklet_client_c.Tests.Client.{system, exec}
use auklet_client_c.Tests.Disk.{disk, two_files}
use auklet_client_c.Tests.MemoryFs.{memory_fs, memory_fs-IsLawful}
use auklet_client_c.Tests.Schema.{codec, now, point_json}

abbrev no_line : Line
no_line = record { topic = ""; payload = null }

abbrev one_byte : Line → ℕ
one_byte l = 1

abbrev device : Fs Line
device = memory_fs no_line one_byte

abbrev serial : SerialConfig
serial = record {
  user_version = "1";
  app_id = "app";
  mac_hash = "00";
  addr = file "/dev" (named "tty");
}

abbrev port : Port device
port = record { fs = []; logged = [] }

-- A text that is no JSON.
abbrev reads_none : Codec
reads_none = record (codec null) { parse = λ b. err "unexpected end of JSON input" }

abbrev of_bytes : List ℕ → Message
of_bytes b = record { error = ""; topic = event; bytes = b; path = none; has_fs = false }

-- The first message has no bytes, the second is no JSON: the file is emptied.
write_all_test :
    write_all reads_none device (file "d" (named "x")) (of_bytes [] ∷ of_bytes (1 ∷ []) ∷ []) port
    ≡ record {
      fs = (file "d" (named "x"), no_line) ∷ [];
      logged =
          "could not serialize message: json: error calling MarshalJSON for type json.RawMessage: unexpected end of JSON input"
          ∷ [];
    }
unfolding write_all try_write line_of
write_all_test = refl

write_all-IsTried_example :
    let p1 = write_all reads_none device (file "d" (named "x")) (of_bytes [] ∷ []) port in
    let p2 = try_write reads_none device (file "d" (named "x")) (of_bytes (1 ∷ [])) p1 in
    IsTried reads_none device (file "d" (named "x")) (of_bytes (1 ∷ [])) p1 p2
    × (write_all reads_none device
          (file "d" (named "x"))
          ((of_bytes [] ∷ []) ++ (of_bytes (1 ∷ []) ∷ []))
          port
        ≡ write_all reads_none device (file "d" (named "x")) [] p2)
write_all-IsTried_example =
    write_all-IsTried reads_none device (file "d" (named "x")) (memory_fs-IsLawful no_line one_byte)
      (of_bytes [] ∷ []) (of_bytes (1 ∷ [])) [] port

abbrev session : Session ℕ
session = record {
  from_app = value (record { type = "event"; raw_data = 1 ∷ [] }) ∷ eof ∷ [];
  points = eof ∷ [];
  agent_moves = receive 0 ∷ hand_over 0 ∷ finish 0 ∷ finish 1 ∷ close ∷ [];
  ticks = done ∷ [];
  moves = receive 0 ∷ send 0 ∷ finish 0 ∷ finish 1 ∷ close ∷ deliver ∷ [];
  found = λ n. now;
}

run_dumper-IsAgents_example :
    let o = connect system exec 5 in
    ((e : String) × (o.2 ≡ some e)
      × (run_dumper (codec point_json) system session exec 5 ≡ (o, [])))
    ⊎ ((o.2 ≡ none)
        × (run_dumper (codec point_json) system session exec 5 ≡ (
          o,
          map
              (dump_text (codec point_json))
              (map (λ d. d.1) (agents (codec point_json) session).delivered),
        ))
        × IsAgents (codec point_json) session)
unfolding merging Merge.serve Merge.move merge Merge.all_finished Server.serve new_server
    DataPoint.serve new_data_point_server
run_dumper-IsAgents_example =
    run_dumper-IsAgents (codec point_json) system session exec 5
      (record { closed = refl; emptied = refl })

run_serial-IsOutputs_example :
    let o = connect system exec 5 in
    ((e : String) × (o.2 ≡ some e)
      × (run_serial (codec point_json) disk serial "2" system device two_files session exec 5 port
          ≡ (o, port)))
    ⊎ ((o.2 ≡ none)
        × (run_serial (codec point_json) disk serial "2" system device two_files session exec 5 port
            ≡ (
              o,
              write_all
                  (codec point_json)
                  device
                  serial.addr
                  (map
                    (λ d. d.1)
                    (outputs (codec point_json) disk serial "2" two_files session).delivered)
                  port,
            ))
        × IsAgents (codec point_json) session
        × IsOutputs (codec point_json) disk serial "2" two_files session)
unfolding merging Merge.serve Merge.move merge Merge.all_finished Server.serve new_server
    DataPoint.serve new_data_point_server requested_messages serial_converted agent_messages merged
    Serve.serve Serve.forward Serve.forward_all Serve.is_dropped Requester.run
    new_periodic_requester
run_serial-IsOutputs_example =
    run_serial-IsOutputs (codec point_json) disk serial "2" system device two_files session exec 5
      port (record { closed = refl; emptied = refl }) (record { closed = refl; emptied = refl })
