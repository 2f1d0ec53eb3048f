-- ===== src/App/Exec.antt =====
-- `Exec` of app/exec.go.
pub mod Connect
pub mod Sockets
pub mod Unconnected
use auklet_client_c.Prelude.{
  ℕ, String, Option, none, some, List, [], ◌∷◌, ◌++◌, Result, ok, err, ◌==◌, string_eq,
  if◌then◌else◌,
}
use auklet_client_c.Prelude.Int.{ℤ, negsuc}
use auklet_client_c.Json.{Json, Reader, read_struct, read_text}
use auklet_client_c.Agent.Message.{Decoded, value, eof, failed}
use auklet_client_c.Device.{hex}
use auklet_client_c.App.Socketpair.{WaitStatus, exited, signaled, System, Pair, new_pair}

-- The anonymous struct of `getAgentVersion`, of one field.
unfoldable pub read_version : Reader String
read_version = read_struct (("version", read_text) ∷ [])

-- `decoder` is the file that the decoder reads from.
pub record Exec (File : Type 0) : Type 0 where
  pub hash : String
  pub path : String
  pub extra_files : List File
  pub datapoints : Option File
  pub agent_data : Option File
  pub agent_version : String
  pub decoder : Option File

-- `NewExec`
unfoldable pub new_exec : {File : Type 0} → String → Exec File
new_exec path = record {
  hash = "";
  path = path;
  extra_files = [];
  datapoints = none;
  agent_data = none;
  agent_version = "";
  decoder = none;
}

module _ (S : System) where
  open S use {State, File, close, start, wait, read_file, sha512_224, decode}

  -- The executable, the system, and the error, if there is one.
  abbrev pub Outcome : Type 0
  Outcome = Exec File × State × Option String

  pub with_sockets : Exec File → Pair S → State × Result (Pair S) → Outcome
  with_sockets x datapoints (s, err e) = (x, s, some e)
  with_sockets x datapoints (s, ok agent_data) = (
    record x {
      extra_files = x.extra_files ++ (datapoints.remote ∷ agent_data.remote ∷ []);
      datapoints = some datapoints.local;
      agent_data = some agent_data.local;
    },
    s,
    none,
  )

  pub second_pair : Exec File → State × Result (Pair S) → Outcome
  unfolding with_sockets new_pair
  second_pair x (s, err e) = (x, s, some e)
  second_pair x (s, ok datapoints) = with_sockets x datapoints (new_pair S "agentData" s)

  -- `addSockets`
  unfoldable pub add_sockets : Exec File → State → Outcome
  unfolding second_pair new_pair
  add_sockets x s = second_pair x (new_pair S "datapoints" s)

  -- The deferred calls, the last first.
  unfoldable pub close_all : List File → State → State
  close_all [] s = s
  close_all (f ∷ fs) s = close f (close_all fs s)

  -- `Start`
  unfoldable pub start_process : Exec File → State → Outcome
  unfolding close_all
  start_process x s =
      let (s', e) = start x.path x.extra_files s in (x, close_all x.extra_files s', e)

  set_version : Exec File → File → String × Option String → Exec File × Option String
  set_version x f (v, some _) = (x, some "incorrect agent version syntax")
  set_version x f (v, none) =
      if v == ""
      then (x, some "empty agent version")
      else (record x { agent_version = v; decoder = some f }, none)

  version_of : Exec File → File → Decoded Json → Exec File × Option String
  unfolding set_version
  version_of x f eof = (x, some "expected agent version, got EOF")
  version_of x f (failed e rest) = (x, some "incorrect agent version syntax")
  version_of x f (value j) = set_version x f (read_version "" j)

  read_from : Exec File → Option File → State → Outcome
  unfolding version_of
  read_from x none s = (x, s, some "incorrect agent version syntax")
  read_from x (some f) s = let (s', d) = decode f s in let (x', e) = version_of x f d in (x', s', e)

  -- `getAgentVersion`. `Connect` calls it with the sockets; without them the code would panic, for
  -- which the model has an error.
  unfoldable pub get_agent_version : Exec File → State → Outcome
  unfolding read_from
  get_agent_version x s = read_from x x.agent_data s

  -- The loop of `Connect` goes on as long as there is no error.
  unfoldable pub and_then : (Exec File → State → Outcome) → Outcome → Outcome
  and_then f (x, s, none) = f x s
  and_then f (x, s, some e) = (x, s, some e)

  -- `Connect`
  unfoldable pub connect : Exec File → State → Outcome
  unfolding and_then add_sockets start_process get_agent_version
  connect x s = and_then get_agent_version (and_then start_process (add_sockets x s))

  -- `Run`
  unfoldable pub run : Exec File → State → Outcome
  unfolding and_then start_process
  run x s = and_then (λ x s. (x, (wait s).0, none)) (start_process x s)

  hashed : Exec File → Result (List ℕ) → Exec File × String
  hashed x (err e) = (x, "")
  hashed x (ok b) = let h = hex (sha512_224 b) in (record x { hash = h }, h)

  -- `CheckSum`
  unfoldable pub check_sum : State → Exec File → Exec File × String
  unfolding hashed
  check_sum s x = if x.hash == "" then hashed x (read_file s x.path) else (x, x.hash)

  status_of : WaitStatus → ℤ
  status_of (exited n) = n
  status_of (signaled _) = negsuc 0

  -- `ExitStatus`
  unfoldable pub exit_status : State → State × ℤ
  unfolding status_of
  exit_status s = let (s', w) = wait s in (s', status_of w)

  signal_of : WaitStatus → String
  signal_of (exited _) = ""
  signal_of (signaled name) = name

  -- `Signal`
  unfoldable pub signal : State → State × String
  unfolding signal_of
  signal s = let (s', w) = wait s in (s', signal_of w)
