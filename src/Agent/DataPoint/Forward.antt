-- ===== src/Agent/DataPoint/Forward.antt =====
-- Which data points are forwarded.
use auklet_client_c.Prelude.{
  ℕ, ◌≡◌, refl, sym, String, true, Option, none, some, List, [], ◌∷◌, ◌++◌, map, append-nil,
  append_assoc, arith,
}
use auklet_client_c.Agent.Message.{Decoded, value, eof, failed}
use auklet_client_c.Agent.DataPoint.{
  DataPointServer, new_data_point_server, data_point, serve, stream_error,
}

-- What a stream holds before its end: JSON values and texts that do not decode.
pub data Item : Type 0 where
  good : List ℕ → Item
  bad : String → String → Item

abbrev pub decoded : Item → Decoded (List ℕ)
decoded (good v) = value v
decoded (bad e buf) = failed e buf

-- The values before the first text that does not decode.
abbrev pub before_failure : List Item → List (List ℕ)
before_failure [] = []
before_failure (good v ∷ ds) = v ∷ before_failure ds
before_failure (bad e buf ∷ ds) = []

-- What is logged: at each item from the first error on, the latest error.
abbrev pub complaints : (String → String) → Option String → List Item → List String
complaints quote old [] = []
complaints quote none (good v ∷ ds) = complaints quote none ds
complaints quote (some e) (good v ∷ ds) = e ∷ complaints quote (some e) ds
complaints quote old (bad e buf ∷ ds) =
    stream_error quote e buf ∷ complaints quote (some (stream_error quote e buf)) ds

module _ (quote : String → String) (rest : List (Decoded (List ℕ))) where
  abbrev run : List Item → DataPointServer → DataPointServer
  run ds s = serve quote (map decoded ds ++ eof ∷ rest) s

  run_failed :
      (ds : List Item) (s : DataPointServer) (e : String)
      → s.err ≡ some e
      → ((run ds s).out ≡ s.out)
        × ((run ds s).out_closed ≡ true)
        × ((run ds s).logged ≡ s.logged ++ complaints quote (some e) ds)
  unfolding serve
  run_failed [] s e h = (refl, refl, sym (append-nil s.logged))
  run_failed (good v ∷ ds) s e h =
      let next : DataPointServer = record s {
        msg = data_point v;
        err = some e;
        logged = s.logged ++ (e ∷ []);
      } in
      ground (
        arith,
        h,
        run_failed ds next e refl,
        append_assoc s.logged (e ∷ []) (complaints quote (some e) ds),
      )
  run_failed (bad x buf ∷ ds) s e h =
      let e' = stream_error quote x buf in
      let next : DataPointServer = record s { err = some e'; logged = s.logged ++ (e' ∷ []) } in
      ground (
        arith,
        run_failed ds next e' refl,
        append_assoc s.logged (e' ∷ []) (complaints quote (some e') ds),
      )

  run_good :
      (ds : List Item) (s : DataPointServer)
      → s.err ≡ none
      → ((run ds s).out ≡ s.out ++ map data_point (before_failure ds))
        × ((run ds s).out_closed ≡ true)
        × ((run ds s).logged ≡ s.logged ++ complaints quote none ds)
  unfolding serve
  run_good [] s h = (sym (append-nil s.out), refl, sym (append-nil s.logged))
  run_good (good v ∷ ds) s h =
      let next : DataPointServer = record s {
        msg = data_point v;
        err = none;
        out = s.out ++ (data_point v ∷ []);
      } in
      ground (
        arith,
        h,
        run_good ds next refl,
        append_assoc s.out (data_point v ∷ []) (map data_point (before_failure ds)),
      )
  run_good (bad x buf ∷ ds) s h =
      let e = stream_error quote x buf in
      let next : DataPointServer = record s { err = some e; logged = s.logged ++ (e ∷ []) } in
      ground (
        arith,
        run_failed ds next e refl,
        append-nil s.out,
        append_assoc s.logged (e ∷ []) (complaints quote (some e) ds),
      )

  -- The server ends with its output closed, having forwarded as data points the values before the
  -- first text that does not decode and none after it; from there on it logs an error for each
  -- value, good or not.
  pub new_data_point_server-run :
      (ds : List Item)
      → let s = run ds new_data_point_server in
        (s.out ≡ map data_point (before_failure ds))
        × (s.out_closed ≡ true)
        × (s.logged ≡ complaints quote none ds)
  unfolding new_data_point_server
  new_data_point_server-run ds = run_good ds new_data_point_server refl
