-- ===== src/Http/Handlers.antt =====
-- internals/handlers.rs and `dispatch` of internals/proxy.rs of services/beacon_management. A handler
-- works on what it shares with the rest of the program: the database, the files of the
-- certificates, and the queue of topic channels to the message loop.
pub mod Outcomes
pub mod Clients
pub mod Announced
pub mod Overwrites
use place_home.Prelude.{
  ℕ, ◌<◌, Bool, true, false, ◌&&◌, Option, none, some, List, [], ◌∷◌, ◌++◌, Result, ok, err,
  if◌then◌else◌, ltb, length,
}
use place_home.Prelude.Text.{Str, str}
use place_home.Config.{MqttBrokerageInfo}
use place_home.Config.File.{format}
use place_home.Config.Parsing.{to_string}
use place_home.Beacons.Types.{
  Json, Fields, TopicType, string, number, object, field, end, TopicChannel, MqttTopicConfig,
  listen, broadcast,
}
use place_home.Ca.{Rcgen, CaState, Outside, Database, sign_csr}
use place_home.Broker.Identities.{Files, register_cert_identity, ca_cert_pem}
use place_home.Http.Requests.{
  DeviceInfo, Request, Response, text, text_response, json_response, contains_key, header_health,
  header_init, header_register, DeviceInitRequest, process_init, process_register,
}

-- `mpsc::Sender<TopicChannel>`, seen from the sender.
pub record TopicQueue : Type 0 where
  pub sent : List TopicChannel
  pub capacity : ℕ
  pub is_open : Bool

-- `try_send`: what does not fit is lost.
unfoldable pub try_send : TopicChannel → TopicQueue → TopicQueue
try_send c q =
    if q.is_open && ltb (length q.sent) q.capacity then record q { sent = q.sent ++ c ∷ [] } else q

-- `brokerage` is the file of the CA in the broker's settings.
pub record AppState (K C : Type 0) : Type 0 where
  pub ca : Option (CaState K C)
  pub brokerage_info : MqttBrokerageInfo
  pub brokerage : Option Str
  pub has_topic_tx : Bool

pub record World : Type 0 where
  pub db : Database
  pub files : Files
  pub topics : TopicQueue

-- What one request meets: the answers of the database and of the file system, and the identifier
-- that is generated.
pub record Meets (K : Type 0) : Type 0 where
  pub outside : Outside K
  pub written : Result Str Unit
  pub uuid : Str

abbrev pub topic_channel : Str → Str → TopicType → TopicChannel
topic_channel id topic kind = record {
  beacon_id = id;
  topic = record { topic = topic; qos = 1 };
  topic_type = kind;
}

abbrev pub receive_topic : Str → Str
receive_topic id = format (id ∷ str "/rec" ∷ [])

abbrev pub broadcast_topic : Str → Str
broadcast_topic id = format (id ∷ str "/cast" ∷ [])

unfoldable pub register_topics : Bool → Str → TopicQueue → TopicQueue
unfolding try_send
register_topics false id q = q
register_topics true id q =
    try_send (topic_channel id (broadcast_topic id) broadcast)
      (try_send (topic_channel id (receive_topic id) listen) q)

abbrev brokerage_json : MqttBrokerageInfo → Json
brokerage_json info = object (
    field (str "address") (string info.address) (
      field (str "port") (number (to_string info.port))
        (field (str "ca_cert_pem") (string info.ca_cert_pem) end)))

abbrev pub init_json : Str → MqttBrokerageInfo → Str → Json
init_json cert_pem info id = object (
    field (str "cert_pem") (string cert_pem)
      (field (str "brokerage") (brokerage_json info) (field (str "beacon_id") (string id) end)))

abbrev pub register_json : Str → Str → Str → Json
register_json id cert_pem ca_pem = object (
    field (str "client_id") (string id)
      (field (str "cert_pem") (string cert_pem) (field (str "ca_cert_pem") (string ca_pem) end)))

abbrev forward_by : Result Str Response → Response
forward_by (ok response) = response
forward_by (err e) = text_response 502 (str "Bad Gateway")

module _ {K : Type 0} (m : Meets K) where
  -- After the identity is registered.
  welcome : MqttBrokerageInfo → Bool → DeviceInitRequest → Str → World → Response × World
  unfolding register_topics
  welcome info has_tx request cert_pem w = (
    json_response 200 (init_json cert_pem (record info { address = request.broker_host }) m.uuid),
    record w { topics = register_topics has_tx m.uuid w.topics },
  )

  pub identity : Option Str → Str → Str → Files → Result Str Unit × Files
  unfolding register_cert_identity
  identity none hostname cert_pem files = (ok tt, files)
  identity (some cafile) hostname cert_pem files =
      register_cert_identity m.written cafile hostname cert_pem files

module _ {K P Q C : Type 0} (r : Rcgen K P Q C) (m : Meets K) (state : AppState K C) where
  after_identity : DeviceInitRequest → Str → World → Result Str Unit × Files → Response × World
  unfolding welcome
  after_identity request cert_pem w (err e, files) = (
    text_response 500 (str "Failed to register device MQTT identity"),
    record w { files = files },
  )
  after_identity request cert_pem w (ok _, files) =
      welcome m state.brokerage_info state.has_topic_tx request cert_pem
        (record w { files = files })

  after_sign : DeviceInitRequest → Result Str Str × Database → World → Response × World
  unfolding after_identity identity
  after_sign request (err e, db) w =
      (text_response 500 (str "Failed to sign device certificate"), record w { db = db })
  after_sign request (ok cert_pem, db) w =
      after_identity request cert_pem (record w { db = db })
        (identity m state.brokerage request.device.mdns.hostname cert_pem w.files)

  init_with : Result Response DeviceInitRequest → World → Response × World
  unfolding after_sign sign_csr
  init_with (err response) w = (response, w)
  init_with (ok request) w =
      after_sign request
        (sign_csr r m.outside state.ca request.device.mdns.hostname request.device.csr_pem w.db) w

  unfoldable pub handle_device_init :
      (parse : List ℕ → Option DeviceInfo) → Request → World → Response × World
  unfolding init_with process_init
  handle_device_init parse req w = init_with (process_init parse req) w

  with_ca : Str → Result Str Str → Response
  with_ca cert_pem (err e) = text_response 500 (str "Failed to retrieve CA certificate")
  with_ca cert_pem (ok ca_pem) = json_response 201 (register_json m.uuid cert_pem ca_pem)

  after_sign_client : Result Str Str × Database → World → Response × World
  unfolding with_ca ca_cert_pem
  after_sign_client (err e, db) w =
      (text_response 500 (str "Failed to sign client certificate"), record w { db = db })
  after_sign_client (ok cert_pem, db) w =
      (with_ca cert_pem (ca_cert_pem r state.ca), record w { db = db })

  register_with : Result Response Str → World → Response × World
  unfolding after_sign_client sign_csr
  register_with (err response) w = (response, w)
  register_with (ok csr_pem) w =
      after_sign_client (sign_csr r m.outside state.ca m.uuid csr_pem w.db) w

  unfoldable pub handle_client_register :
      (parse : List ℕ → Option Str) → Request → World → Response × World
  unfolding register_with process_register
  handle_client_register parse req w = register_with (process_register parse req) w

  -- `forwarded` is what `try_forward` gives for the request.
  unfoldable pub dispatch :
      (parse_device : List ℕ → Option DeviceInfo)
      → (parse_payload : List ℕ → Option Str) → (forwarded : Request → Result Str Response)
      → Request
      → World
      → Response × World
  unfolding handle_device_init handle_client_register contains_key
  dispatch parse_device parse_payload forwarded req w =
      if contains_key header_health req
      then (text_response 200 (str "OK"), w)
      else if contains_key header_init req
      then handle_device_init parse_device req w
      else if contains_key header_register req
      then handle_client_register parse_payload req w
      else (forward_by (forwarded req), w)
