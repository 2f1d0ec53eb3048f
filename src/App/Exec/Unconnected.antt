-- ===== src/App/Exec/Unconnected.antt =====
-- What adds no sockets.
use auklet_client_c.Prelude.{ℕ, ◌≡◌, refl, none, some, List, Result, ok, err, string_eq, arith}
use auklet_client_c.App.Socketpair.{System}
use auklet_client_c.App.Exec.{Exec, Outcome, and_then, start_process, run, hashed, check_sum}

module _ (S : System) where
  -- No socket was added.
  pub record IsUnconnected (x x' : Exec S.File) : Type 0 where
    pub same_files : x'.extra_files ≡ x.extra_files
    pub same_points : x'.datapoints ≡ x.datapoints
    pub same_agent : x'.agent_data ≡ x.agent_data

  hashed-IsUnconnected : (x : Exec S.File) (r : Result (List ℕ)) → IsUnconnected x (hashed S x r).0
  unfolding hashed
  hashed-IsUnconnected x (err e) = record {
    same_files = refl;
    same_points = refl;
    same_agent = refl;
  }
  hashed-IsUnconnected x (ok b) = record {
    same_files = refl;
    same_points = refl;
    same_agent = refl;
  }

  pub check_sum-IsUnconnected :
      (s : S.State) (x : Exec S.File) → IsUnconnected x (check_sum S s x).0
  unfolding check_sum
  check_sum-IsUnconnected s x =
      let h = hashed-IsUnconnected x (S.read_file s x.path) in
      record {
        same_files = ground (arith, h.same_files);
        same_points = ground (arith, h.same_points);
        same_agent = ground (arith, h.same_agent);
      }

  run_started : (o : Outcome S) → (and_then S (λ x s. (x, (S.wait s).0, none)) o).0 ≡ o.0
  unfolding and_then
  run_started (x, s, none) = refl
  run_started (x, s, some e) = refl

  pub run-same : (x : Exec S.File) (s : S.State) → (run S x s).0 ≡ x
  unfolding run start_process
  run-same x s = run_started (start_process S x s)
