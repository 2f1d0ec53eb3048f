-- ===== src/Tests/Pipeline.antt =====
-- The pipeline of the client, with a small application and a broker that refuses some messages.
use auklet_client_c.Prelude.{◌+◌, ◌≤◌, true, arith, max}
use auklet_client_c.Prelude.Int.{pos, ◌*ℤ◌, ◌+ℤ◌}
use auklet_client_c.Prelude.Int64.{quot64, mul64, add64}
use auklet_client_c.Schema.Convert.{convert}
use auklet_client_c.Clock.{calendar_date}
use auklet_client_c.Message.Persistor.{Doc}
use auklet_client_c.Message.Limiter.State.{decode, over_threshold}
use auklet_client_c.Message.Limiter.Budget.{Budgeted, total_bytes}
use auklet_client_c.Client.Pipeline.Budget.{sent_bytes, run_moves-within}
use auklet_client_c.Prelude.{
  ℕ, zero, suc, ◌≡◌, refl, get_elem?, none, some, Option, String, List, [], ◌∷◌, length,
}
use auklet_client_c.Agent.Message.{Message as AgentMessage, Decoded, value, eof}
use auklet_client_c.Broker.Mqtt.{Client, Producer}
use auklet_client_c.Client.Pipeline.{
  sent_by, Source, Move, convert_message, list_files, load_file, pass, publish, move,
  keep_delivered, request, end_input, is_ended, offered, run_moves, start_pipeline,
}
use auklet_client_c.Client.Pipeline.Kept.{NoLoss, run_moves-NoLoss}
use auklet_client_c.Client.Pipeline.Arrived.{IsComplete, run_moves-IsComplete}
use auklet_client_c.Agent.Requester
use auklet_client_c.Agent.DataPoint
use auklet_client_c.Client.Pipeline.Traced.{Traced, run_moves-Traced}
use auklet_client_c.Agent.Server
use auklet_client_c.Agent.Server.{new_server}
use auklet_client_c.Broker.Store.{
  filepaths, remove, create_message, size, new_persistor, load_message, decoded, unmarshal, marshal,
}
use auklet_client_c.Broker.Mqtt
use auklet_client_c.Fsutil.{write_file}
use auklet_client_c.Message.Limiter.Run.{settle, new_data_limiter, step, select}
use auklet_client_c.Message.Persistor.FilePersistor.{save, load}
use auklet_client_c.Schema.Convert.Serve.{forward, is_dropped}
use auklet_client_c.Tests.Disk.{disk, disk-IsLawful, two_files}
use auklet_client_c.Tests.Limiter.{working}
use auklet_client_c.Tests.Schema.{codec, config, now, point_json}

-- The second call fails.
abbrev second_fails : ℕ → Option String
second_fails (suc zero) = some "timeout"
second_fails _ = none

abbrev broker : Client
broker = record {
  State = ℕ;
  connect = λ c. (c, none);
  publish = λ c topic bytes. (suc c, second_fails c);
  disconnect = λ c. 0;
}

abbrev fine_broker : Client
fine_broker = record {
  State = ℕ;
  connect = λ c. (c, none);
  publish = λ c topic bytes. (suc c, none);
  disconnect = λ c. 0;
}

abbrev producer : Producer
producer = record { org = "o"; id = "i" }

abbrev from_app : List (Decoded AgentMessage)
from_app =
    value (record { type = "event"; raw_data = 1 ∷ [] })
    ∷ value (record { type = "profile"; raw_data = 1 ∷ [] })
    ∷ eof
    ∷ []

abbrev moves : List (Move ℕ)
moves =
    list_files
    ∷ convert_message now
    ∷ load_file
    ∷ pass Source.converter
    ∷ publish
    ∷ convert_message now
    ∷ pass Source.loader
    ∷ publish
    ∷ pass Source.converter
    ∷ publish
    ∷ []

run_moves-NoLoss_example :
    NoLoss (codec point_json) disk disk-IsLawful working broker config "d" producer (
      run_moves (codec point_json) disk working broker config "d" producer moves (
        start_pipeline
          (codec point_json)
          disk
          working
          broker
          config
          "d"
          producer
          (λ s. s)
          from_app
          []
          none
          7
          0
          two_files))
run_moves-NoLoss_example =
    run_moves-NoLoss (codec point_json) disk disk-IsLawful working broker config "d" producer
      (λ s. s) from_app [] none 7 0 two_files moves

run_moves-Traced_example : Traced (codec point_json) disk working broker config "d" producer none (
    run_moves (codec point_json) disk working broker config "d" producer moves (
      start_pipeline
        (codec point_json)
        disk
        working
        broker
        config
        "d"
        producer
        (λ s. s)
        from_app
        []
        none
        7
        0
        two_files))
run_moves-Traced_example =
    run_moves-Traced (codec point_json) disk working broker config "d" producer (λ s. s) from_app []
      none 7 0 two_files moves

-- The second of three is not delivered.
run_moves_test :
    length
      (run_moves (codec point_json) disk working broker config "d" producer moves (
        start_pipeline
          (codec point_json)
          disk
          working
          broker
          config
          "d"
          producer
          (λ s. s)
          from_app
          []
          none
          7
          0
          two_files)).delivered
    ≡ 2
unfolding run_moves start_pipeline move filepaths Server.serve new_server settle new_data_limiter
    load offered forward is_dropped step save Mqtt.publish remove create_message size new_persistor
    write_file keep_delivered select
run_moves_test = refl

-- The converter stores a message before the loader lists the directory.
abbrev overlapping : List (Move ℕ)
overlapping =
    convert_message now
    ∷ list_files
    ∷ load_file
    ∷ pass Source.converter
    ∷ publish
    ∷ pass Source.loader
    ∷ list_files
    ∷ []

-- It is passed on twice: as the converter sent it, and as the loader found it in its file.
loaded_twice_test :
    let f = run_moves (codec point_json) disk working fine_broker config "d" producer overlapping (
      start_pipeline
        (codec point_json)
        disk
        working
        fine_broker
        config
        "d"
        producer
        (λ s. s)
        from_app
        []
        none
        7
        0
        []) in
    (length f.limiter.1.out ≡ 2) × (get_elem? f.limiter.1.out 0 ≡ get_elem? f.limiter.1.out 1)
unfolding run_moves start_pipeline move filepaths Server.serve new_server settle new_data_limiter
    load offered forward is_dropped step save Mqtt.publish remove create_message size new_persistor
    write_file keep_delivered select load_message decoded unmarshal marshal
loaded_twice_test = (refl, refl)

-- A budget of 10 bytes, of which 3 are spent.
abbrev budget_doc : Doc
budget_doc =
    Doc.object (some (pos 10)) (some true) (some (pos 3)) (some (calendar_date 2019 1 12 0))

budget_doc-Budgeted : Budgeted (new_data_limiter working (some (budget_doc ∷ []))) 10 3
unfolding new_data_limiter decode load
budget_doc-Budgeted = record { has = refl; budget_is = refl; count_is = refl }

few_bytes :
    sent_bytes (codec point_json) disk working broker config "d" producer (
      run_moves (codec point_json) disk working broker config "d" producer moves (
        start_pipeline
          (codec point_json)
          disk
          working
          broker
          config
          "d"
          producer
          (λ s. s)
          from_app
          []
          (some (budget_doc ∷ []))
          7
          0
          two_files))
    ≡ 4
unfolding run_moves start_pipeline move filepaths Server.serve new_server settle new_data_limiter
    load offered forward is_dropped step save Mqtt.publish remove create_message size new_persistor
    write_file keep_delivered select over_threshold quot64 mul64 ◌*ℤ◌ add64 ◌+ℤ◌ convert
    load_message decoded unmarshal
few_bytes = refl

run_moves-within_example :
    total_bytes
        (run_moves (codec point_json) disk working broker config "d" producer moves (
          start_pipeline
            (codec point_json)
            disk
            working
            broker
            config
            "d"
            producer
            (λ s. s)
            from_app
            []
            (some (budget_doc ∷ []))
            7
            0
            two_files)).delivered
      + 3
    ≤ max 10 3
run_moves-within_example =
    run_moves-within (codec point_json) disk working broker config "d" producer 10 3 (λ s. s)
      from_app [] (some (budget_doc ∷ [])) 7 0 two_files moves budget_doc-Budgeted (omega arith)
      (omega (arith, few_bytes)) (omega arith)

-- The application ends, one file is loaded, and the limiter takes all before its input is closed.
abbrev all_moves : List (Move ℕ)
all_moves =
    list_files
    ∷ convert_message now
    ∷ convert_message now
    ∷ load_file
    ∷ load_file
    ∷ pass Source.converter
    ∷ publish
    ∷ pass Source.loader
    ∷ publish
    ∷ convert_message now
    ∷ pass Source.converter
    ∷ publish
    ∷ pass Source.loader
    ∷ publish
    ∷ request Requester.Event.done
    ∷ pass Source.converter
    ∷ end_input
    ∷ []

all_moves-closed :
    (run_moves (codec point_json) disk working broker config "d" producer all_moves (
      start_pipeline
        (codec point_json)
        disk
        working
        broker
        config
        "d"
        producer
        (λ s. s)
        from_app
        []
        none
        7
        0
        two_files)).limiter.1.out_closed
    ≡ true
unfolding run_moves start_pipeline move filepaths Server.serve new_server settle new_data_limiter
    load offered forward is_dropped step save Mqtt.publish remove create_message size new_persistor
    write_file keep_delivered select is_ended DataPoint.serve DataPoint.new_data_point_server
    Requester.go_on Requester.new_periodic_requester Requester.react
all_moves-closed = refl

run_moves-IsComplete_example :
    IsComplete
      (codec point_json)
      disk
      working
      broker
      config
      "d"
      producer
      (sent_by (Server.serve from_app Server.new_server).actions)
      (DataPoint.serve (λ s. s) [] DataPoint.new_data_point_server).out
      (run_moves (codec point_json) disk working broker config "d" producer all_moves (
        start_pipeline
          (codec point_json)
          disk
          working
          broker
          config
          "d"
          producer
          (λ s. s)
          from_app
          []
          none
          7
          0
          two_files))
run_moves-IsComplete_example =
    run_moves-IsComplete (codec point_json) disk working broker config "d" producer (λ s. s)
      from_app [] none 7 0 two_files all_moves all_moves-closed
