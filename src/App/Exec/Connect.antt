-- ===== src/App/Exec/Connect.antt =====
-- What a connection gives, and the checksum that is asked for again.
use auklet_client_c.Prelude.{
  ℕ, ◌≡◌, ◌≢◌, refl, sym, ap, ◌∙◌, some, List, Result, ok, err, string_eq, arith, eq_iff,
}
use auklet_client_c.Json.{Json}
use auklet_client_c.App.Socketpair.{System}
use auklet_client_c.App.Exec.Sockets.{HasSockets}
use auklet_client_c.App.Exec.{Exec, hashed, check_sum}

module _ (S : System) where
  open S use {State, File}

  -- The sockets were made in the state `s`, and a version was read over the agent's.
  pub record IsConnected (x : Exec File) (s : State) (x' : Exec File) : Type 0 where
    pub sockets : HasSockets S x s x'
    pub version : x'.agent_version ≢ ""
    pub decodes : x'.decoder ≡ x'.agent_data

  -- What a version that was read changes.
  record HasVersion (x x' : Exec File) (f : File) : Type 0 where
    same_files : x'.extra_files ≡ x.extra_files
    same_points : x'.datapoints ≡ x.datapoints
    same_agent : x'.agent_data ≡ x.agent_data
    version : x'.agent_version ≢ ""
    decodes : x'.decoder ≡ some f

  hashed-hash :
      (x : Exec File) (r : Result (List ℕ))
      → (hashed S x r).1 ≢ ""
      → (hashed S x r).0.hash ≡ (hashed S x r).1
  unfolding hashed
  hashed-hash x (err e) h = absurd (h refl)
  hashed-hash x (ok b) h = refl

  check_sum-hash :
      (x : Exec File) (s : State)
      → (check_sum S s x).1 ≢ ""
      → (check_sum S s x).0.hash ≡ (check_sum S s x).1
  unfolding check_sum
  check_sum-hash x s h = ground (arith, hashed-hash x (S.read_file s x.path))

  check_sum-kept : (x : Exec File) (s : State) → x.hash ≢ "" → check_sum S s x ≡ (x, x.hash)
  unfolding check_sum
  check_sum-kept x s h = ground (arith, eq_iff x.hash "")

  -- Once `CheckSum` has returned a sum that is not empty, it returns the same ever after,
  -- whatever has become of the file.
  pub check_sum_again :
      (x : Exec File) (s later : State)
      → (check_sum S s x).1 ≢ ""
      → check_sum S later (check_sum S s x).0 ≡ check_sum S s x
  check_sum_again x s later h =
      let kept = check_sum-hash x s h in
      check_sum-kept (check_sum S s x).0 later (λ e. h (sym kept ∙ e))
      ∙ ap (λ v. ((check_sum S s x).0, v)) kept
