-- ===== src/Tests/Api.antt =====
-- The backend's calls with a small network and a filesystem in memory.
use auklet_client_c.Prelude.{
  ℕ, suc, ◌≡◌, refl, ap, String, none, some, [], ◌∷◌, Result, ok, err, ◌==◌, nat_eq, string_eq,
  if◌then◌else◌,
}
use auklet_client_c.Prelude.Int.{pos}
use auklet_client_c.Json.{Json, read_struct, read_text}
use auklet_client_c.Fsutil.{FilePath, file, named, Fs, write_file}
use auklet_client_c.Api.Credentials.{Credentials, credentials_json, read_credentials}
use auklet_client_c.Api.Http.{
  Services, Api, unmarshal, or_encoding_error, check_answer, ask, releases_ep, certificates_ep,
  devices_ep, config_ep, data_limit_ep,
}
use auklet_client_c.Api.Backend.{
  World, credentials, creds_from_file, request_credentials, data_limit, decode_credentials,
  get_and_save_credentials,
}
use auklet_client_c.Api.Backend.Cache.{credentials_cached, credentials_again}
use auklet_client_c.Api.Backend.Limits.{limits_json, limits, data_limit-read}
use auklet_client_c.Tests.MemoryFs.{memory_fs, memory_fs-IsLawful}

abbrev pub given : Credentials
given = record { username = "u"; password = "p"; org = "o"; client_id = "c" }

abbrev parse_given : Json → String → Result Json
parse_given j s = if s == "given" then ok j else err "invalid character"

-- A backend that answers every request with the text "given", which stands for `j`. The network
-- counts the requests.
abbrev pub backend : ℕ → Json → Services
backend code j = record {
  Net = ℕ;
  send = λ n q. (suc n, ok (record { status_code = code; status = "status"; body = "given" }));
  parse = parse_given j;
  render = λ j. "given";
  Tls = Unit {0};
  tls_of = λ s. some tt;
}

abbrev pub disk : Fs String
disk = memory_fs "" (λ s. 1)

abbrev identification : FilePath
identification = file ".auklet" (named "identification")

abbrev pub api : Api
api = record {
  base_url = "https://api.auklet.io";
  key = "k";
  app_id = "app";
  mac_hash = "00";
  creds_path = identification;
  releases_ep = releases_ep;
  certificates_ep = certificates_ep;
  devices_ep = devices_ep;
  config_ep = config_ep;
  data_limit_ep = data_limit_ep;
}

abbrev creates : Services
creates = backend 201 (credentials_json given)

abbrev fresh : World creates disk
fresh = record { net = 0; fs = [] }

abbrev kept : World creates disk
kept = record { net = 0; fs = (identification, "given") ∷ [] }

cached_test : credentials creates disk api kept ≡ (kept, ok given)
unfolding creds_from_file unmarshal or_encoding_error read_credentials read_struct read_text
    credentials_json
cached_test = credentials_cached creates disk api kept given refl

credentials_test :
    credentials creates disk api fresh
    ≡ (record { net = 1; fs = (identification, "given") ∷ [] }, ok given)
unfolding credentials creds_from_file unmarshal or_encoding_error read_credentials read_struct
    read_text get_and_save_credentials request_credentials ask check_answer decode_credentials
    write_file credentials_json
credentials_test = refl

missing :
    creds_from_file creates disk identification []
    ≡ err "could not read credentials file: file does not exist"
unfolding creds_from_file
missing = refl

asked : (credentials creates disk api fresh).1 ≡ ok given
asked = ap (λ (r : World creates disk × Result Credentials). r.1) credentials_test

credentials_again_example :
    credentials creates disk api (credentials creates disk api fresh).0
    ≡ ((credentials creates disk api fresh).0, ok given)
credentials_again_example =
    credentials_again creates disk (memory_fs-IsLawful "" (λ s. 1)) api fresh
      "could not read credentials file: file does not exist" given refl missing asked

abbrev limited : Services
limited = backend 200 (limits_json none (pos 60) (some (pos 5)) (pos 14))

data_limit-read_example :
    (data_limit limited api 0).1 ≡ ok (limits none (pos 60) (some (pos 5)) (pos 14))
data_limit-read_example =
    data_limit-read limited api 0 (record { status_code = 200; status = "status"; body = "given" })
      none (pos 60) (some (pos 5)) (pos 14) refl refl refl tt refl refl refl
