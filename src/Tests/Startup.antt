-- ===== src/Tests/Startup.antt =====
-- The start of the client with credentials that an earlier start has saved.
use auklet_client_c.Prelude.{ℕ, ◌≡◌, refl, false, String, none, [], ◌∷◌, ok, err}
use auklet_client_c.Json.{read_struct, read_text}
use auklet_client_c.Fsutil.{file, named}
use auklet_client_c.Api.Credentials.{credentials_json, read_credentials}
use auklet_client_c.Api.Http.{unmarshal, or_encoding_error, ask, check_answer}
use auklet_client_c.Api.Backend.{
  World, creds_from_file, credentials, broker_address, certificates, read_broker,
}
use auklet_client_c.Broker.Message.{Message, event}
use auklet_client_c.Broker.Mqtt.{Client, new_config, new_mqtt_producer}
use auklet_client_c.Config.{base_url, api_key, app_id, envar}
use auklet_client_c.Client.{new_api, select_prefix, try_prefixes}
use auklet_client_c.Client.Startup.{NewClient, new_client, backend_api}
use auklet_client_c.Tests.Api.{backend, given, disk}

abbrev broker : Client
broker = record {
  State = ℕ;
  connect = λ c. (c, none);
  publish = λ c topic bytes. (c, none);
  disconnect = λ c. c;
}

abbrev saved : World (backend 200 (credentials_json given)) disk
saved = record { net = 0; fs = (file "./.auklet" (named "identification"), "given") ∷ [] }

abbrev env : String → String
env name = "x"

abbrev client : NewClient broker
client = record {
  msg_path = "./.auklet/message";
  lim_path = file "./.auklet" (named "datalimit.json");
  api = new_api env "./" "" "00";
  user_version = "7";
  username = "u";
  app_id = "x";
  mac_hash = "00";
  producer = record { org = "o"; id = "u" };
  client = 3;
}

-- Two requests are sent: for the broker's address and the certificates.
started :
    new_client
      (backend 200 (credentials_json given))
      disk
      broker
      (λ options. 3)
      (λ s. (s, err "no"))
      "00"
      env
      "7"
      ""
      saved
    ≡ (record saved { net = 2 }, ok client)
unfolding new_client select_prefix try_prefixes new_api base_url api_key app_id envar backend_api
    new_config new_mqtt_producer credentials creds_from_file unmarshal or_encoding_error
    read_credentials read_struct read_text credentials_json broker_address certificates read_broker
    ask check_answer
started = refl

abbrev message : Message
message = record { error = ""; topic = event; bytes = []; path = none; has_fs = false }
