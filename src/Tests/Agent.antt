-- ===== src/Tests/Agent.antt =====
-- The servers and the requester on short streams.
use auklet_client_c.Prelude.{◌≡◌, true, none, some, List, [], ◌∷◌, ◌++◌, map, arith, string_eq}
use auklet_client_c.Prelude.Int.{pos}
use auklet_client_c.Broker.Message.{error_message, log}
use auklet_client_c.Agent.Message.{Message, eof}
use auklet_client_c.Agent.Server
use auklet_client_c.Agent.Server.{closed_out, closed_done, sent, clean_exit, new_server}
use auklet_client_c.Agent.Server.Forward
use auklet_client_c.Agent.DataPoint
use auklet_client_c.Agent.DataPoint.{new_data_point_server}
use auklet_client_c.Agent.DataPoint.Forward as Points
use auklet_client_c.Agent.Requester
use auklet_client_c.Agent.Requester.{done, fired, configured, new_periodic_requester}
use auklet_client_c.Agent.Requester.Failures.{new_periodic_requester-Ends}

abbrev profile : Message
profile = record { type = "profile"; raw_data = [] }

abbrev event : Message
event = record { type = "event"; raw_data = [] }

abbrev stream : List Forward.Item
stream = Forward.Item.good profile ∷ Forward.Item.bad "bad" "{" ∷ Forward.Item.good profile ∷ []

-- The messages after the text that does not decode are not forwarded.
new_server_actions_example :
    (Server.serve (map Forward.decoded stream ++ eof ∷ []) new_server).actions
    ≡ sent profile ∷ sent clean_exit ∷ closed_out ∷ closed_done ∷ []
new_server_actions_example = Forward.new_server_actions stream []

abbrev points : List Points.Item
points = Points.Item.good (1 ∷ []) ∷ Points.Item.bad "bad" "{" ∷ Points.Item.good (2 ∷ []) ∷ []

new_data_point_server-run_example :
    let s =
      DataPoint.serve (λ t. t) (map Points.decoded points ++ eof ∷ []) new_data_point_server in
    (s.out ≡ DataPoint.data_point (1 ∷ []) ∷ [])
    × (s.out_closed ≡ true)
    × (s.logged ≡ Points.complaints (λ t. t) none points)
new_data_point_server-run_example = Points.new_data_point_server-run (λ t. t) [] points

-- Two write errors with a good write between them end the requester.
abbrev ticks : List Requester.Event
ticks = fired (some "a") ∷ configured (pos 60) ∷ fired none ∷ fired (some "b") ∷ fired none ∷ []

new_periodic_requester-Ends_example :
    let r = Requester.run ticks new_periodic_requester in
    (r.status ≡ Requester.returned) × (r.out_closed ≡ true) × (r.out ≡ error_message "b" log ∷ [])
new_periodic_requester-Ends_example = new_periodic_requester-Ends ticks (omega arith)
