-- ===== src/Client/Startup.antt =====
-- `newclient` of cmd/client/main.go, over the backend of `Api` and the producer of `Broker/Mqtt`.
use auklet_client_c.Prelude.{◌≡◌, refl, ap, ◌<>◌, String, Result, ok, err}
use mathlib.Core.Path.{subst}
use auklet_client_c.Fsutil.{FilePath, file, named, Fs}
use auklet_client_c.Config.{Getenv}
use auklet_client_c.Api.Http.{Api, Services}
use auklet_client_c.Api.Backend.{World, credentials, broker_address, certificates}
use auklet_client_c.Broker.Message.{Message}
use auklet_client_c.Broker.Mqtt.{
  Client, BackendApi, ClientOptions, Config, new_config, Producer, new_mqtt_producer,
  new_mqtt_producer-id, topic_of,
}
use auklet_client_c.Client.{select_prefix, new_api}

ok-injective : {A : Type 0} {a b : A} → ok a ≡ ok b → a ≡ b
ok-injective h = cc

module _ (V : Services) (F : Fs String) where
  -- The calls of `API` that `NewConfig` makes.
  unfoldable pub backend_api : Api → BackendApi V.Tls
  backend_api a = record {
    State = World V F;
    credentials = credentials V F a;
    broker_address = λ w. let (n, r) = broker_address V a w.net in (record w { net = n }, r);
    certificates = λ w. let (n, r) = certificates V a w.net in (record w { net = n }, r);
  }

-- `client`, with the client of the library behind its producer.
pub record NewClient (C : Client) : Type 0 where
  pub msg_path : String
  pub lim_path : FilePath
  pub api : Api
  pub user_version : String
  pub username : String
  pub app_id : String
  pub mac_hash : String
  pub producer : Producer
  pub client : C.State

-- `new_mqtt` is `mqtt.NewClient`, `temp_dir` is `afero.TempDir`, `mac_hash` is `device.IfaceHash()`.
module _ (V : Services) (F : Fs String) (C : Client) (new_mqtt : ClientOptions V.Tls → C.State)
    (temp_dir : F.State → F.State × Result String) (mac_hash : String) where
  -- An error is logged, and leaves no prefix.
  prefix_of : Result String → String
  prefix_of (ok prefix) = prefix
  prefix_of (err _) = ""

  with_producer :
      String → String → Api → Config V.Tls → C.State × Result Producer → Result (NewClient C)
  with_producer prefix user_version a cfg (c, err e) = err e
  with_producer prefix user_version a cfg (c, ok p) = ok (record {
    msg_path = prefix <> ".auklet/message";
    lim_path = file (prefix <> ".auklet") (named "datalimit.json");
    api = a;
    user_version = user_version;
    username = cfg.creds.username;
    app_id = a.app_id;
    mac_hash = mac_hash;
    producer = p;
    client = c;
  })

  with_config : String → String → Api → Result (Config V.Tls) → Result (NewClient C)
  unfolding with_producer
  with_config prefix user_version a (err e) = err e
  with_config prefix user_version a (ok cfg) =
      with_producer prefix user_version a cfg (new_mqtt_producer C cfg.creds (new_mqtt cfg.options))

  -- `newclient`
  unfoldable pub new_client :
      Getenv → String → String → World V F → World V F × Result (NewClient C)
  unfolding prefix_of with_config backend_api
  new_client env user_version from_cli w =
      let (s, r) = select_prefix F temp_dir env w.fs in
      let prefix = prefix_of r in
      let a = new_api env prefix from_cli mac_hash in
      let (w', cfg) = new_config (backend_api V F a) (record w { fs = s }) in
      (w', with_config prefix user_version a cfg)

  with_producer-id :
      (prefix user_version : String) (a : Api) (cfg : Config V.Tls) (o : C.State × Result Producer)
      → ((p : Producer) → o.1 ≡ ok p → p.id ≡ cfg.creds.username)
      → (c : NewClient C) → with_producer prefix user_version a cfg o ≡ ok c
      → c.producer.id ≡ c.username
  unfolding with_producer
  with_producer-id prefix user_version a cfg (s, err e) is_named c h = cc
  with_producer-id prefix user_version a cfg (s, ok p) is_named c h =
      subst (λ (d : NewClient C). d.producer.id ≡ d.username) (ok-injective h) (is_named p refl)

  with_config-id :
      (prefix user_version : String) (a : Api) (r : Result (Config V.Tls)) (c : NewClient C)
      → with_config prefix user_version a r ≡ ok c
      → c.producer.id ≡ c.username
  unfolding with_config
  with_config-id prefix user_version a (err e) c h = cc
  with_config-id prefix user_version a (ok cfg) c h =
      with_producer-id prefix user_version a cfg
        (new_mqtt_producer C cfg.creds (new_mqtt cfg.options))
        (new_mqtt_producer-id C cfg.creds (new_mqtt cfg.options)) c h

  -- A client that has started publishes under the name that its messages' metadata give the device.
  pub new_client-topic :
      (env : Getenv) (user_version from_cli : String) (w : World V F) (c : NewClient C)
      (m : Message)
      → (new_client env user_version from_cli w).1 ≡ ok c
      → topic_of c.producer m
        ≡ "c/" <> (m.topic <> ("/" <> (c.producer.org <> ("/" <> c.username))))
  unfolding new_client topic_of
  new_client-topic env user_version from_cli w c m h =
      ap (λ name. "c/" <> (m.topic <> ("/" <> (c.producer.org <> ("/" <> name)))))
        (with_config-id _ user_version _ _ c h)
