-- ===== src/Api/Http.antt =====
-- Requests and answers of api/api.go, its endpoints and its errors. The network, the reading and
-- writing of JSON texts and the parser of certificates are parameters.
use auklet_client_c.Prelude.{
  ℕ, ◌<>◌, String, Option, none, some, List, Result, ok, err, ◌==◌, nat_eq, if◌then◌else◌,
}
use auklet_client_c.Fsutil.{FilePath}
use auklet_client_c.Json.{Json, Reader}

pub record Request : Type 0 where
  pub method : String
  pub url : String
  pub headers : List (String × String)
  pub body : Option Json

-- `status` is the text that goes with the code.
pub record Response : Type 0 where
  pub status_code : ℕ
  pub status : String
  pub body : String

-- `http.DefaultClient.Do`, with the state of the network; what reads and writes texts.
pub record Services : Type 1 where
  pub Net : Type 0
  pub send : Net → Request → Net × Result Response
  pub parse : String → Result Json
  pub render : Json → String
  pub Tls : Type 0
  pub tls_of : String → Option Tls

pub record Api : Type 0 where
  pub base_url : String
  pub key : String
  pub app_id : String
  pub mac_hash : String
  pub creds_path : FilePath
  pub releases_ep : String
  pub certificates_ep : String
  pub devices_ep : String
  pub config_ep : String
  pub data_limit_ep : String → String

abbrev pub releases_ep : String
releases_ep = "/private/releases/"

abbrev pub certificates_ep : String
certificates_ep = "/private/devices/certificates/"

abbrev pub devices_ep : String
devices_ep = "/private/devices/"

abbrev pub config_ep : String
config_ep = "/private/devices/config/"

-- The format with one `%s`, as a function of the app's id.
abbrev pub data_limit_ep : String → String
data_limit_ep app_id = "/private/devices/" <> (app_id <> "/app_config/")

-- `errStatus`, `errEncoding` and `errNotReleased`
unfoldable pub status_error : Response → String → String
status_error r url = "unexpected status: " <> (r.status <> (" from " <> url))

unfoldable pub encoding_error : String → String → String → String
encoding_error op e what = "encoding error during " <> (op <> (": " <> (e <> (" in " <> what))))

unfoldable pub not_released : String → String
not_released checksum = "not released: " <> checksum

abbrev pub authorization : Api → String × String
authorization a = ("Authorization", "JWT " <> a.key)

abbrev pub json_content : String × String
json_content = ("content-type", "application/json")

-- `json.Unmarshal` of a text that was parsed: the value, or the first error.
unfoldable pub unmarshal : {A : Type 0} → Reader A → A → Result Json → Result A
unmarshal read zero (err e) = err e
unmarshal read zero (ok j) = elim (read zero j).1 [ none ↦ ok (read zero j).0 | some e ↦ err e ]

unfoldable pub or_encoding_error : {A : Type 0} → String → String → Result A → Result A
or_encoding_error op what (ok a) = ok a
or_encoding_error op what (err e) = err (encoding_error op e what)

abbrev pub get_request : Api → String → List (String × String) → Request
get_request a url headers = record { method = "GET"; url = url; headers = headers; body = none }

module _ (V : Services) where
  open V use {Net, send}

  -- The tests that each call makes of the answer: an error, or a status other than `code`.
  unfoldable pub check_answer : String → ℕ → Request → Result Response → Result Response
  check_answer doing code q (err e) = err (doing <> (": " <> e))
  check_answer doing code q (ok r) =
      if r.status_code == code then ok r else err (status_error r q.url)

  unfoldable pub ask : String → ℕ → Request → Net → Net × Result Response
  unfolding check_answer
  ask doing code q n = let (n', r) = send n q in (n', check_answer doing code q r)
