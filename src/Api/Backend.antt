-- ===== src/Api/Backend.antt =====
-- The calls of `API` of api/api.go.
pub mod Limits
pub mod Cache
use auklet_client_c.Prelude.{
  ℕ, ◌<>◌, Bool, true, false, String, Option, none, some, List, [], ◌∷◌, ◌++◌, Result, ok, err,
  ◌==◌, nat_eq, string_eq, if◌then◌else◌,
}
use auklet_client_c.Fsutil.{FilePath, Fs, write_file}
use auklet_client_c.Json.{
  Json, text, object, field, end, Reader, Readers, into, read_text, read_struct,
}
use auklet_client_c.Api.Credentials.{
  Credentials, no_credentials, read_credentials, credentials_json,
}
use auklet_client_c.Api.DataLimit.{Config, DataLimit, no_config, read_limits, data_limit_of}
use auklet_client_c.Api.Http.{
  Request, Response, Services, Api, authorization, json_content, get_request, not_released,
  unmarshal, or_encoding_error, ask,
}

-- The struct of `BrokerAddress`.
pub record Broker : Type 0 where
  pub broker : String
  pub port : String

unfoldable pub read_broker : Reader Broker
read_broker = read_struct (
    ("brokers", into (λ k. k.broker) (λ s k. record k { broker = s }) read_text)
    ∷ ("port", into (λ k. k.port) (λ s k. record k { port = s }) read_text)
    ∷ [])

module _ (V : Services) where
  open V use {Net, send, parse, render, Tls, tls_of}

  released : String → Result Response → Result (Unit {0})
  released checksum (err e) = err ("checking release " <> (checksum <> (": " <> e)))
  released checksum (ok r) = if r.status_code == 200 then ok tt else err (not_released checksum)

  -- `Release`
  unfoldable pub release : Api → String → Net → Net × Result (Unit {0})
  unfolding released not_released
  release a checksum n =
      let url = a.base_url <> (a.releases_ep <> ("?checksum=" <> checksum)) in
      let (n', r) = send n (get_request a url (authorization a ∷ [])) in (n', released checksum r)

  with_pool : Option Tls → Result Tls
  with_pool none = err "failed to parse CA"
  with_pool (some tls) = ok tls

  -- `tlsConfig`; `tls_of` makes the configuration if the pool takes the certificates.
  unfoldable pub tls_config : String → Result Tls
  unfolding with_pool
  tls_config ca = with_pool (tls_of ca)

  certificates_of : Result Response → Result Tls
  unfolding tls_config
  certificates_of (err e) = err e
  certificates_of (ok r) = tls_config r.body

  -- `Certificates`
  unfoldable pub certificates : Api → Net → Net × Result Tls
  unfolding ask certificates_of
  certificates a n =
      let url = a.base_url <> a.certificates_ep in
      let (n', r) = ask V "getting certificates" 200 (get_request a url (authorization a ∷ [])) n in
      (n', certificates_of r)

  with_password : Result Credentials → Result Credentials
  with_password (err e) = err e
  with_password (ok c) = if c.password == "" then err "empty password" else ok c

  -- `decodeCredentials`
  unfoldable pub decode_credentials : String → Result Credentials
  unfolding with_password or_encoding_error unmarshal
  decode_credentials b = with_password (
      or_encoding_error "decodeCredentials" b (unmarshal read_credentials no_credentials (parse b)))

  credentials_of : Result Response → Result Credentials
  unfolding decode_credentials
  credentials_of (err e) = err e
  credentials_of (ok r) = decode_credentials r.body

  device_json : Api → Json
  device_json a =
      object (field "mac_address_hash" (text a.mac_hash) (field "application" (text a.app_id) end))

  devices_request : Api → Request
  unfolding device_json
  devices_request a = record {
    method = "POST";
    url = a.base_url <> a.devices_ep;
    headers = json_content ∷ authorization a ∷ [];
    body = some (device_json a);
  }

  -- `credentials`
  unfoldable pub request_credentials : Api → Net → Net × Result Credentials
  unfolding ask credentials_of devices_request
  request_credentials a n =
      let (n', r) = ask V "getting broker credentials" 201 (devices_request a) n in
      (n', credentials_of r)

  address_of : Result Broker → Result String
  address_of (err e) = err e
  address_of (ok k) = ok ("ssl://" <> (k.broker <> (":" <> k.port)))

  broker_of : Result Response → Result String
  unfolding address_of or_encoding_error unmarshal read_broker
  broker_of (err e) = err e
  broker_of (ok r) = address_of (
      or_encoding_error "BrokerAddress" r.body
        (unmarshal read_broker (record { broker = ""; port = "" }) (parse r.body)))

  -- `BrokerAddress`
  unfoldable pub broker_address : Api → Net → Net × Result String
  unfolding ask broker_of
  broker_address a n =
      let q = get_request a (a.base_url <> a.config_ep) (json_content ∷ authorization a ∷ []) in
      let (n', r) = ask V "getting broker address" 200 q n in (n', broker_of r)

  limit_of : Result Config → Result DataLimit
  unfolding data_limit_of
  limit_of (err e) = err e
  limit_of (ok c) = ok (data_limit_of c)

  limits_of : Result Response → Result DataLimit
  unfolding limit_of or_encoding_error unmarshal
  limits_of (err e) = err e
  limits_of (ok r) =
      limit_of
        (or_encoding_error "DataLimit" r.body (unmarshal read_limits no_config (parse r.body)))

  unfoldable pub limits_request : Api → Request
  limits_request a =
      get_request a (a.base_url <> a.data_limit_ep a.app_id) (json_content ∷ authorization a ∷ [])

  -- `DataLimit`
  unfoldable pub data_limit : Api → Net → Net × Result DataLimit
  unfolding ask limits_of limits_request
  data_limit a n =
      let (n', r) = ask V "getting data limit configuration" 200 (limits_request a) n in
      (n', limits_of r)

module _ (V : Services) (F : Fs String) where
  open V use {Net, parse, render}

  -- The network and the filesystem.
  pub record World : Type 0 where
    pub net : Net
    pub fs : F.State

  of_file : Result String → Result Credentials
  unfolding or_encoding_error unmarshal
  of_file (err e) = err ("could not read credentials file: " <> e)
  of_file (ok b) =
      or_encoding_error "credsFromFile" b (unmarshal read_credentials no_credentials (parse b))

  -- `credsFromFile`
  unfoldable pub creds_from_file : FilePath → F.State → Result Credentials
  unfolding of_file
  creds_from_file path s = of_file (F.read_all s path)

  written : Credentials → Option String → Result Credentials
  written c none = ok c
  written c (some e) = err ("could not write credentials: " <> e)

  save_credentials : FilePath → World → Result Credentials → World × Result Credentials
  unfolding written
  save_credentials path w (err e) = (w, err e)
  save_credentials path w (ok c) =
      let (s, e) = write_file F w.fs path (render (credentials_json c)) in
      (record w { fs = s }, written c e)

  -- `getAndSaveCredentials`
  unfoldable pub get_and_save_credentials : Api → World → World × Result Credentials
  unfolding save_credentials
  get_and_save_credentials a w =
      let (n, r) = request_credentials V a w.net in
      save_credentials a.creds_path (record w { net = n }) r

  or_ask : Api → World → Result Credentials → World × Result Credentials
  unfolding get_and_save_credentials
  or_ask a w (ok c) = (w, ok c)
  or_ask a w (err _) = get_and_save_credentials a w

  -- `Credentials`: from the file, else from the backend.
  unfoldable pub credentials : Api → World → World × Result Credentials
  unfolding or_ask
  credentials a w = or_ask a w (creds_from_file a.creds_path w.fs)
