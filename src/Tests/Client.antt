-- ===== src/Tests/Client.antt =====
-- The start of the client and of the application, with a small system.
use auklet_client_c.Client.Licenses.{Box, licenses, license_text, other_licenses, replace_first}
use auklet_client_c.Prelude.{◌==◌, if◌then◌else◌}
use auklet_client_c.Client.{standard, discard, configure_logs}
use auklet_client_c.Config.{Getenv, log_info, log_errors}
use auklet_client_c.Prelude.{
  ℕ, suc, ◌≡◌, refl, false, String, Option, none, some, List, [], ◌∷◌, ok, err, nat_eq, string_eq,
}
use auklet_client_c.Prelude.Int.{ℤ, pos, negsuc}
use auklet_client_c.Json.{null, text, object, field, end}
use auklet_client_c.Agent.Message.{value}
use auklet_client_c.Api.Http.{not_released}
use auklet_client_c.Api.Backend.{release}
use auklet_client_c.Broker.Mqtt.{Producer}
use auklet_client_c.App.Socketpair.{System, exited}
use auklet_client_c.App.Exec.{Exec, new_exec, run, check_sum}
use auklet_client_c.App.Exec.Unconnected.{IsUnconnected}
use auklet_client_c.Client.{
  World, run_client, Flags, start, print_usage, client_pipeline, select_prefix, try_prefixes,
}
use auklet_client_c.Client.Release.{after_check, run_client_unreleased}
use auklet_client_c.Tests.Api.{backend, api}
use auklet_client_c.Tests.Disk.{disk}

abbrev file_of : ℤ → String → Option ℤ
file_of (pos n) name = some (pos n)
file_of (negsuc n) name = none

-- The state is the next descriptor. The agent's first text is the version 1.
abbrev pub system : System
system = record {
  State = ℕ;
  File = ℤ;
  socketpair = λ s. (suc (suc s), ok (pos s, pos (suc s)));
  new_file = file_of;
  close = λ f s. s;
  start = λ path files s. (s, none);
  wait = λ s. (s, exited (pos 0));
  read_file = λ s path. ok (s ∷ []);
  sha512_224 = λ b. 171 ∷ b;
  decode = λ f s. (s, value (object (field "version" (text "1") end)));
}

abbrev pub exec : Exec ℤ
exec = new_exec "app"

abbrev connected_exec : Exec ℤ
connected_exec = record {
  hash = "";
  path = "app";
  extra_files = pos 6 ∷ pos 8 ∷ [];
  datapoints = some (pos 5);
  agent_data = some (pos 7);
  agent_version = "1";
  decoder = some (pos 7);
}

abbrev producer : Producer
producer = record { org = "o"; id = "i" }

abbrev world : (code : ℕ) → World system (backend code null)
world code = record { exec = exec; system = 5; net = 0 }

-- What is served counts as a use of the network.
abbrev pipeline : (code : ℕ) → World system (backend code null) → World system (backend code null)
pipeline code w = record w { net = suc w.net }

run_client_unreleased_example :
    let o =
      run system (after_check system (backend 403 null) (pipeline 403) api (world 403)).exec 5 in
    (run_client system (backend 403 null) (pipeline 403) api (some producer) (world 403) ≡ (
      record (after_check system (backend 403 null) (pipeline 403) api (world 403)) {
        system = o.1;
      },
      o.2,
    ))
    × IsUnconnected system exec
        (run_client system (backend 403 null) (pipeline 403) api (some producer) (world 403)).0.exec
unfolding release
run_client_unreleased_example =
    run_client_unreleased system (backend 403 null) (pipeline 403) api (some producer) (world 403)
      (not_released (check_sum system 5 exec).1) refl

abbrev flags : List String → Flags
flags args = record {
  base_url = "";
  user_version = "7";
  view_licenses = false;
  no_network = false;
  serial_out = "";
  print_client_version = false;
  args = args;
}

usage_test : start (ok (flags [])) ≡ print_usage
unfolding start
usage_test = refl

client_test : start (ok (flags ("app" ∷ "-x" ∷ []))) ≡ client_pipeline "7" "" "app" ("-x" ∷ [])
unfolding start
client_test = refl

select_prefix_test : select_prefix disk (λ s. (s, err "no")) (λ name. "/root") [] ≡ ([], ok "./")
unfolding select_prefix try_prefixes
select_prefix_test = refl

abbrev asks_for_errors : Getenv
asks_for_errors s = if s == "AUKLET_LOG_ERRORS" then "true" else ""

configure_logs_test :
    configure_logs asks_for_errors (record { info = standard; errors = standard })
    ≡ record { info = discard; errors = standard }
unfolding configure_logs log_info log_errors
configure_logs_test = refl

abbrev box : Box
box = record {
  names = "LICENSE" ∷ "github.com--golang--protobuf" ∷ [];
  content = λ name. if name == "LICENSE" then "Apache" else "BSD";
}

licenses_test :
    licenses box
    ≡ "License for Auklet Client\n-------------------------\nApache\n\n\nLicense for package: github.com/golang--protobuf\n-------------------------\nBSD"
unfolding licenses license_text other_licenses replace_first
licenses_test = refl
