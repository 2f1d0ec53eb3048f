-- ===== src/Api/Credentials.antt =====
-- `Credentials` of api/api.go, and its JSON.
use auklet_client_c.Prelude.{String, [], ◌∷◌}
use auklet_client_c.Json.{Json, text, object, field, end, Reader, into, read_text, read_struct}

pub record Credentials : Type 0 where
  pub username : String
  pub password : String
  pub org : String
  pub client_id : String

-- `new(Credentials)`
abbrev pub no_credentials : Credentials
no_credentials = record { username = ""; password = ""; org = ""; client_id = "" }

unfoldable pub read_credentials : Reader Credentials
read_credentials = read_struct (
    ("id", into (λ c. c.username) (λ s c. record c { username = s }) read_text)
    ∷ ("client_password", into (λ c. c.password) (λ s c. record c { password = s }) read_text)
    ∷ ("organization", into (λ c. c.org) (λ s c. record c { org = s }) read_text)
    ∷ ("client_id", into (λ c. c.client_id) (λ s c. record c { client_id = s }) read_text)
    ∷ [])

-- `json.Marshal(c)`
unfoldable pub credentials_json : Credentials → Json
credentials_json c = object (
    field "id" (text c.username) (
      field "client_password" (text c.password)
        (field "organization" (text c.org) (field "client_id" (text c.client_id) end))))
