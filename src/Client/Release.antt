-- ===== src/Client/Release.antt =====
-- The run of the client after the release check.
use auklet_client_c.Prelude.{◌≡◌, refl, sym, ap, ◌∙◌, String, Option, Result, err}
use mathlib.Core.Path.{subst}
use auklet_client_c.Api.Http.{Api, Services}
use auklet_client_c.Api.Backend.{release}
use auklet_client_c.Broker.Mqtt.{Producer}
use auklet_client_c.App.Socketpair.{System}
use auklet_client_c.App.Exec.{connect, run, check_sum}
use auklet_client_c.App.Exec.Unconnected.{IsUnconnected, check_sum-IsUnconnected, run-same}
use auklet_client_c.Client.{World, run_client, run_checked, settled}

module _ (S : System) (V : Services) (serve : World S V → World S V) (a : Api) where
  -- What the release check gives for the executable's sum.
  abbrev pub checked : World S V → V.Net × Result (Unit {0})
  checked w = release V a (check_sum S w.system w.exec).1 w.net

  -- The executable with its sum, after the check.
  abbrev pub after_check : World S V → World S V
  after_check w = record w { exec = (check_sum S w.system w.exec).0; net = (checked w).0 }

  run_checked-err :
      (p : Option Producer) (w : World S V) (e : String)
      → let o = run S w.exec w.system in
        run_checked S V serve p w (err e) ≡ (record w { exec = o.0; system = o.1 }, o.2)
  unfolding run_checked settled
  run_checked-err p w e = refl

  -- When the release check fails, for whatever reason, the application is run without sockets, the
  -- result is that of the run, and nothing is served.
  pub run_client_unreleased :
      (p : Option Producer) (w : World S V) (e : String)
      → (checked w).1 ≡ err e
      → let o = run S (after_check w).exec w.system in
        (run_client S V serve a p w ≡ (record (after_check w) { system = o.1 }, o.2))
        × IsUnconnected S w.exec (run_client S V serve a p w).0.exec
  unfolding run_client
  run_client_unreleased p w e failed =
      let x = (after_check w).exec in
      let o = run S x w.system in
      let ran : run_client S V serve a p w ≡ (record (after_check w) { system = o.1 }, o.2) =
        rw failed (
          run_checked-err p (after_check w) e
          ∙ ap (λ y. (record (after_check w) { exec = y; system = o.1 }, o.2))
              (run-same S x w.system)) in
      (
        ran,
        subst (λ (r : World S V × Option String). IsUnconnected S w.exec r.0.exec) (sym ran)
            (check_sum-IsUnconnected S w.system w.exec),
      )

  -- The world that is served.
  abbrev pub connected : World S V → World S V
  connected w = let o = connect S w.exec w.system in record w { exec = o.0; system = o.1 }
