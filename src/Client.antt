-- ===== src/Client.antt =====
-- cmd/client/main.go: what the command line starts, where files are put, and the run of the client.
pub mod Release
pub mod Startup
pub mod Polling
pub mod Channel
pub mod Pipeline
pub mod Serial
pub mod Licenses
use auklet_client_c.Prelude.{
  ℕ, ◌<>◌, String, Bool, Option, none, some, List, [], ◌∷◌, ◌++◌, Result, ok, err, ◌==◌, string_eq,
  if◌then◌else◌,
}
use auklet_client_c.Prelude.Int.{ℤ}
use auklet_client_c.Fsutil.{FilePath, file, named, Fs}
use auklet_client_c.Api.DataLimit.{DataLimit, CellularConfig}
use auklet_client_c.Api.Http.{
  Api, Services, releases_ep, certificates_ep, devices_ep, config_ep, data_limit_ep,
}
use auklet_client_c.Api.Backend.{release}
use auklet_client_c.Broker.Mqtt.{Producer}
use auklet_client_c.Config.{Getenv, base_url, api_key, app_id, log_info, log_errors}
use auklet_client_c.App.Socketpair.{System}
use auklet_client_c.App.Exec.{Exec, Outcome, connect, run, check_sum}

-- The command line, parsed: the flags, and what follows them.
pub record Flags : Type 0 where
  pub base_url : String
  pub user_version : String
  pub view_licenses : Bool
  pub no_network : Bool
  pub serial_out : String
  pub print_client_version : Bool
  pub args : List String

-- What `main` does: it ends with an error, prints something and ends with a code, or runs one of the
-- pipelines on a command.
pub data Start : Type 0 where
  fatal : String → Start
  print_version print_licenses print_usage : Start
  serial_pipeline : String → String → String → List String → Start
  dumper_pipeline : String → List String → Start
  client_pipeline : String → String → String → List String → Start

start_command : Flags → List String → Start
start_command f [] = print_usage
start_command f (name ∷ args) =
    if f.serial_out == ""
    then (if f.no_network
        then dumper_pipeline name args
        else client_pipeline f.user_version f.base_url name args)
    else serial_pipeline f.serial_out f.user_version name args

-- `main`
unfoldable pub start : Result Flags → Start
unfolding start_command
start (err e) = fatal e
start (ok f) =
    if f.print_client_version
    then print_version
    else if f.view_licenses
    then print_licenses
    else start_command f f.args

module _ {T : Type 0} (F : Fs T) (temp_dir : F.State → F.State × Result String) where
  prefix_or :
      String
      → (F.State → F.State × Result String)
      → F.State × Option String
      → F.State × Result String
  prefix_or prefix next (s, none) = (s, ok prefix)
  prefix_or prefix next (s, some _) = next s

  -- The loop of `selectPrefix`.
  unfoldable pub try_prefixes : List String → F.State → F.State × Result String
  unfolding prefix_or
  try_prefixes [] s = temp_dir s
  try_prefixes (prefix ∷ prefixes) s =
      prefix_or prefix (try_prefixes prefixes) (F.mkdir_all s (prefix <> ".auklet"))

  -- `selectPrefix`; `temp_dir` is `afero.TempDir`.
  unfoldable pub select_prefix : Getenv → F.State → F.State × Result String
  unfolding try_prefixes
  select_prefix env s = try_prefixes ("./" ∷ (env "HOME" <> "/") ∷ []) s

-- Where the two logs go.
pub data Output : Type 0 where
  standard discard : Output

pub record Logs : Type 0 where
  pub info : Output
  pub errors : Output

-- `configureLogs`: a log that the environment does not ask for is discarded.
unfoldable pub configure_logs : Getenv → Logs → Logs
configure_logs env l = record {
  info = if log_info env then l.info else discard;
  errors = if log_errors env then l.errors else discard;
}

-- The backend's interface as `newclient` makes it.
unfoldable pub new_api : Getenv → String → String → String → Api
new_api env prefix from_cli mac_hash = record {
  base_url = base_url env from_cli;
  key = api_key env;
  app_id = app_id env;
  mac_hash = mac_hash;
  creds_path = file (prefix <> ".auklet") (named "identification");
  releases_ep = releases_ep;
  certificates_ep = certificates_ep;
  devices_ep = devices_ep;
  config_ep = config_ep;
  data_limit_ep = data_limit_ep;
}

module _ (S : System) (V : Services) where
  -- The executable, the system and the network.
  pub record World : Type 0 where
    pub exec : Exec S.File
    pub system : S.State
    pub net : V.Net

  settled : World → Outcome S → World × Option String
  settled w (x, s, e) = (record w { exec = x; system = s }, e)

  serve_connected : (World → World) → World → Outcome S → World × Option String
  serve_connected serve w (x, s, some e) = (record w { exec = x; system = s }, some e)
  serve_connected serve w (x, s, none) = (serve (record w { exec = x; system = s }), none)

  run_released : (World → World) → Option Producer → World → World × Option String
  unfolding serve_connected
  run_released serve none w = (w, none)
  run_released serve (some p) w = serve_connected serve w (connect S w.exec w.system)

  run_checked :
      (World → World) → Option Producer → World → Result (Unit {0}) → World × Option String
  unfolding run_released settled
  run_checked serve p w (err _) = settled w (run S w.exec w.system)
  run_checked serve p w (ok _) = run_released serve p w

  -- `run` of `client`. `serve` stands for the pipeline that `producer.Serve` is given, of the limiter,
  -- the converter, the loader, the servers and the requester.
  unfoldable pub run_client :
      (World → World) → Api → Option Producer → World → World × Option String
  unfolding run_checked
  run_client serve a p w =
      let (x, sum) = check_sum S w.system w.exec in
      let (n, r) = release V a sum w.net in run_checked serve p (record w { exec = x; net = n }) r
