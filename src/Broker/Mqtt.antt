-- ===== src/Broker/Mqtt.antt =====
-- broker/mqtt.go: the configuration of the MQTT client and the publishing loop. The client of the
-- library Paho and the backend are parameters.
pub mod Delivery
pub mod Kept
use auklet_client_c.Prelude.{
  ℕ, ◌<>◌, ◌≡◌, refl, String, Option, none, some, List, [], ◌∷◌, ◌++◌, Result, ok, err,
}
use auklet_client_c.Fsutil.{Fs}
use auklet_client_c.Api.Credentials.{Credentials}
use auklet_client_c.Broker.Message.{Message}
use auklet_client_c.Broker.Store.{Text, remove}

-- `Client`, with each call waited for: the error of its token, if there is one.
pub record Client : Type 1 where
  pub State : Type 0
  pub connect : State → State × Option String
  pub publish : State → String → List ℕ → State × Option String
  pub disconnect : State → State

-- `API`: the backend's calls, with the state of what they talk to.
pub record BackendApi (Tls : Type 0) : Type 1 where
  pub State : Type 0
  pub credentials : State → State × Result Credentials
  pub broker_address : State → State × Result String
  pub certificates : State → State × Result Tls

-- The options that `mqtt.NewClient` is given.
pub record ClientOptions (Tls : Type 0) : Type 0 where
  pub broker : String
  pub tls_config : Tls
  pub client_id : String
  pub username : String
  pub password : String

pub record Config (Tls : Type 0) : Type 0 where
  pub creds : Credentials
  pub options : ClientOptions Tls

module _ {Tls : Type 0} where
  make_config : Credentials → String → Tls → Config Tls
  make_config creds addr certs = record {
    creds = creds;
    options = record {
      broker = addr;
      tls_config = certs;
      client_id = creds.client_id;
      username = creds.username;
      password = creds.password;
    };
  }

module _ {Tls : Type 0} (A : BackendApi Tls) where
  with_certificates : Credentials → String → A.State × Result Tls → A.State × Result (Config Tls)
  unfolding make_config
  with_certificates creds addr (s, err e) = (s, err e)
  with_certificates creds addr (s, ok certs) = (s, ok (make_config creds addr certs))

  with_address : Credentials → A.State × Result String → A.State × Result (Config Tls)
  unfolding with_certificates
  with_address creds (s, err e) = (s, err e)
  with_address creds (s, ok addr) = with_certificates creds addr (A.certificates s)

  with_credentials : A.State × Result Credentials → A.State × Result (Config Tls)
  unfolding with_address
  with_credentials (s, err e) = (s, err e)
  with_credentials (s, ok creds) = with_address creds (A.broker_address s)

  -- `NewConfig`: the first error ends it.
  unfoldable pub new_config : A.State → A.State × Result (Config Tls)
  unfolding with_credentials
  new_config s = with_credentials (A.credentials s)

-- `MQTTProducer`, without its client.
pub record Producer : Type 0 where
  pub org : String
  pub id : String

-- `fmt.Sprintf("c/%v/%v/%v", msg.Topic, p.org, p.id)`
unfoldable pub topic_of : Producer → Message → String
topic_of p m = "c/" <> (m.topic <> ("/" <> (p.org <> ("/" <> p.id))))

module _ (C : Client) where
  connected : Credentials → C.State × Option String → C.State × Result Producer
  connected creds (c, some e) = (c, err ("connecting to broker: " <> e))
  connected creds (c, none) = (c, ok (record { org = creds.org; id = creds.username }))

  -- `NewMQTTProducer`
  unfoldable pub new_mqtt_producer : Credentials → C.State → C.State × Result Producer
  unfolding connected
  new_mqtt_producer creds c = connected creds (C.connect c)

  connected-id :
      (creds : Credentials) (o : C.State × Option String) (p : Producer)
      → (connected creds o).1 ≡ ok p
      → p.id ≡ creds.username
  unfolding connected
  connected-id creds (c, some e) p h = cc
  connected-id creds (c, none) p h = cc

  -- The producer has the credentials' name.
  pub new_mqtt_producer-id :
      (creds : Credentials) (c : C.State) (p : Producer)
      → (new_mqtt_producer creds c).1 ≡ ok p
      → p.id ≡ creds.username
  unfolding new_mqtt_producer
  new_mqtt_producer-id creds c p h = connected-id creds (C.connect c) p h

-- The client, the filesystem and the error log as the loop goes on.
pub record World (C : Client) (F : Fs Text) : Type 0 where
  pub client : C.State
  pub fs : F.State
  pub logged : List String

module _ (C : Client) (F : Fs Text) where
  log_error : Option String → World C F → World C F
  log_error none w = w
  log_error (some e) w = record w { logged = w.logged ++ (e ∷ []) }

  -- `msg.Remove()`
  remove_message : Message → World C F → World C F
  unfolding log_error
  remove_message m w = let (s, e) = remove F w.fs m in log_error e (record w { fs = s })

  -- After the publication: an error is logged and the message kept.
  settle : Message → Option String → World C F → World C F
  unfolding remove_message
  settle m (some e) w = record w { logged = w.logged ++ (("publishing to broker:" <> e) ∷ []) }
  settle m none w = remove_message m w

  -- The body of the loop.
  unfoldable pub publish : Producer → Message → World C F → World C F
  unfolding settle topic_of
  publish p m w =
      let (c, e) = C.publish w.client (topic_of p m) m.bytes in settle m e (record w { client = c })

  unfoldable pub publish_all : Producer → List Message → World C F → World C F
  publish_all p [] w = w
  publish_all p (m ∷ ms) w = publish_all p ms (publish p m w)

  -- `Serve`: the messages of the input, and the deferred disconnection.
  unfoldable pub serve : Producer → List Message → World C F → World C F
  unfolding publish_all
  serve p ms w = let w' = publish_all p ms w in record w' { client = C.disconnect w'.client }
