-- ===== src/App/Socketpair.antt =====
-- app/socketpair.go, and the system as the package `app` uses it.
pub mod Made
use auklet_client_c.Prelude.{ℕ, ◌<>◌, String, Option, some, List, Result, ok, err}
use auklet_client_c.Prelude.Int.{ℤ}
use auklet_client_c.Json.{Json}
use auklet_client_c.Agent.Message.{Decoded}

-- How a process ended.
pub data WaitStatus : Type 0 where
  exited : ℤ → WaitStatus
  signaled : String → WaitStatus

-- The system calls that the package makes. `new_file` is `os.NewFile`, which gives no file for a
-- descriptor that is not valid; `start` is `cmd.Start` of a path with the files that the process
-- inherits; `wait` is `cmd.Wait`, and how the process ended; `decode` is what a new decoder on a file
-- gives first.
pub record System : Type 1 where
  pub State : Type 0
  pub File : Type 0
  pub socketpair : State → State × Result (ℤ × ℤ)
  pub new_file : ℤ → String → Option File
  pub close : File → State → State
  pub start : String → List File → State → State × Option String
  pub wait : State → State × WaitStatus
  pub read_file : State → String → Result (List ℕ)
  pub sha512_224 : List ℕ → List ℕ
  pub decode : File → State → State × Decoded Json

module _ (S : System) where
  open S use {State, File, socketpair, new_file}

  pub record Pair : Type 0 where
    pub local : File
    pub remote : File

  -- `errInvalidFD` unless both are files.
  pub both : Option File → Option File → Result Pair
  both (some l) (some r) = ok (record { local = l; remote = r })
  both _ _ = err "invalid file descriptor"

  pub pair_of : String → Result (ℤ × ℤ) → Result Pair
  unfolding both
  pair_of prefix (err e) = err e
  pair_of prefix (ok (a, b)) =
      both (new_file a (prefix <> "-local")) (new_file b (prefix <> "-remote"))

  -- `socketpair`
  unfoldable pub new_pair : String → State → State × Result Pair
  unfolding pair_of
  new_pair prefix s = let (s', r) = socketpair s in (s', pair_of prefix r)
