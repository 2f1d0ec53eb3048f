-- ===== src/App/Exec/Sockets.antt =====
-- The sockets that an executable is given: `addSockets` of app/exec.go over app/socketpair.go.
use auklet_client_c.Prelude.{◌≡◌, refl, none, some, [], ◌∷◌, ◌++◌, Result, ok, err}
use mathlib.Core.Path.{subst}
use auklet_client_c.App.Socketpair.{System, Pair, new_pair}
use auklet_client_c.App.Socketpair.Made.{IsPair, new_pair-IsPair}
use auklet_client_c.App.Exec.{Exec, with_sockets, second_pair, add_sockets}

module _ (S : System) where
  open S use {State, File, socketpair}

  -- The executable with the sockets of two pairs, that of the data points made first: the process
  -- inherits their remote ends as its next files, that of the data points first, and the local ends
  -- are read from.
  pub record HasSockets (x : Exec File) (s : State) (x' : Exec File) : Type 0 where
    pub points : Pair S
    pub agent : Pair S
    pub made_points : IsPair S "datapoints" s points
    pub made_agent : IsPair S "agentData" (socketpair s).0 agent
    pub inherited : x'.extra_files ≡ x.extra_files ++ (points.remote ∷ agent.remote ∷ [])
    pub reads_points : x'.datapoints ≡ some points.local
    pub reads_agent : x'.agent_data ≡ some agent.local

  with_sockets-HasSockets :
      (x : Exec File) (s : State) (p : Pair S) (r : State × Result (Pair S))
      → IsPair S "datapoints" s p
      → ((q : Pair S) → r.1 ≡ ok q → IsPair S "agentData" (socketpair s).0 q)
      → (with_sockets S x p r).2 ≡ none
      → HasSockets x s (with_sockets S x p r).0
  unfolding with_sockets
  with_sockets-HasSockets x s p (t, err e) made next h = cc
  with_sockets-HasSockets x s p (t, ok q) made next h = record {
    points = p;
    agent = q;
    made_points = made;
    made_agent = next q refl;
    inherited = refl;
    reads_points = refl;
    reads_agent = refl;
  }

  second_pair-HasSockets :
      (x : Exec File) (s : State) (r : State × Result (Pair S))
      → r.0 ≡ (socketpair s).0
      → ((p : Pair S) → r.1 ≡ ok p → IsPair S "datapoints" s p)
      → (second_pair S x r).2 ≡ none
      → HasSockets x s (second_pair S x r).0
  unfolding second_pair
  second_pair-HasSockets x s (t, err e) same made h = cc
  second_pair-HasSockets x s (t, ok p) same made h =
      with_sockets-HasSockets x s p (new_pair S "agentData" t) (made p refl)
        (λ q k. subst (λ u. IsPair S "agentData" u q) same (new_pair-IsPair S "agentData" t q k)) h

  pub add_sockets-HasSockets :
      (x : Exec File) (s : State)
      → (add_sockets S x s).2 ≡ none
      → HasSockets x s (add_sockets S x s).0
  unfolding add_sockets new_pair
  add_sockets-HasSockets x s h =
      second_pair-HasSockets x s (new_pair S "datapoints" s) refl (new_pair-IsPair S "datapoints" s)
        h
