-- ===== src/GatewayLink/Task.antt =====
-- services/gateway_mqtt/tasks.rs: the connection task, from one thing it waits for to the next. An
-- event that the task does not wait for where it stands changes nothing.
pub mod Backoff
pub mod Outage
pub mod Credentials
pub mod Trusted
use place_home.Prelude.{
  ℕ, ◌*◌, Bool, true, false, Option, none, some, List, [], ◌∷◌, ◌++◌, Result, ok, err,
  if◌then◌else◌, leb,
}
use place_home.Prelude.Text.{Str}
use place_home.Config.{MqttClientConfig, plaintext, server_only}
use place_home.Beacons.Types.{QoS, at_least_once}
use place_home.Mqtt.Options.{Tls, MqttOptions, build_mqtt_opts}
use place_home.GatewayLink.Protocol.{LoginRequest, LoginResponse, Envelope, alive}
use place_home.GatewayLink.Login.{LoginError, Network, login}

abbrev pub initial_reconnect_delay : ℕ
initial_reconnect_delay = 2

abbrev pub max_reconnect_delay : ℕ
max_reconnect_delay = 60

pub record GatewayMqttConfig : Type 0 where
  pub gateway_url : Str
  pub username : Str
  pub password : Str
  pub broker_cafile : Option Str
  pub broker_tls : Bool

-- Where the task waits, with the credentials of the connection.
pub data Phase : Type 0 where
  logging_in : Phase
  connected : (creds : LoginResponse) → Phase
  backing_off : Phase
  stopped : Phase

-- The local variables of the task.
pub record Link : Type 0 where
  pub delay : ℕ
  pub cached : Option LoginResponse
  pub phase : Phase

-- What `eventloop.poll()` yields.
pub data Poll : Type 0 where
  conn_ack : Poll
  publish : (topic : Str) → (payload : List ℕ) → Poll
  other : Poll
  connection_refused : Poll
  connection_error : Poll

-- `answered` and `slept` carry what files and the network are then.
pub data Event (Cert Roots : Type 0) : Type 0 where
  shutdown : Event Cert Roots
  answered : Tls Cert Roots → Network Roots → Event Cert Roots
  slept : Tls Cert Roots → Event Cert Roots
  outbound : (topic : Str) → (payload : List ℕ) → Event Cert Roots
  polled : Poll → Event Cert Roots

pub data Action (Roots : Type 0) : Type 0 where
  post_login : (url : Str) → LoginRequest → (cafile : Option Str) → Action Roots
  new_client : MqttOptions Roots → Action Roots
  subscribe : (topic : Str) → QoS → Action Roots
  publish_to : (topic : Str) → QoS → (retain : Bool) → (payload : List ℕ) → Action Roots
  disconnect : Action Roots
  sleep : (secs : ℕ) → Action Roots

-- `(*delay * 2).min(MAX_RECONNECT_DELAY)`
abbrev pub doubled : ℕ → ℕ
doubled delay = if leb (delay * 2) max_reconnect_delay then delay * 2 else max_reconnect_delay

abbrev pub client_config : GatewayMqttConfig → LoginResponse → MqttClientConfig
client_config config creds = record {
  client_id = creds.device_id;
  host = creds.broker.host;
  port = creds.broker.port;
  tls_mode = if config.broker_tls then server_only else plaintext;
  cafile = config.broker_cafile;
  certfile = none;
  keyfile = none;
  username = creds.mqtt_username;
  password = creds.mqtt_password;
}

abbrev pub login_request : GatewayMqttConfig → LoginRequest
login_request config = record { username = config.username; password = config.password }

-- The start of `backoff`; `doubled` is its end.
abbrev pub back_off : {Roots : Type 0} → Link → List (Action Roots) × Link
back_off s = (sleep s.delay ∷ [], record s { phase = backing_off })

announce : {Roots : Type 0} → LoginResponse → Result Str (List ℕ) → List (Action Roots)
announce creds (ok payload) = publish_to creds.topics.notify at_least_once false payload ∷ []
announce creds (err e) = []

module _ {Roots : Type 0} (to_vec : Envelope → Result Str (List ℕ)) where
  unfoldable pub on_connected : LoginResponse → List (Action Roots)
  unfolding announce
  on_connected creds =
      subscribe creds.topics.cmds at_least_once
      ∷ subscribe creds.topics.connect at_least_once
      ∷ announce creds (to_vec (alive creds.device_id))

  -- The branches on `poll` in the inner loop; a frame that comes in is only logged.
  unfoldable pub on_poll : LoginResponse → Poll → Link → List (Action Roots) × Link
  unfolding on_connected
  on_poll creds conn_ack s = (on_connected creds, record s { delay = initial_reconnect_delay })
  on_poll creds (publish topic payload) s = ([], s)
  on_poll creds other s = ([], s)
  on_poll creds connection_refused s = back_off (record s { cached = none })
  on_poll creds connection_error s = back_off s

connect_by :
    {Roots : Type 0}
    → LoginResponse
    → Result Str (MqttOptions Roots)
    → Link
    → List (Action Roots) × Link
connect_by creds (ok opts) s = (new_client opts ∷ [], record s { phase = connected creds })
connect_by creds (err e) s = back_off s

module _ {Cert Roots : Type 0} (config : GatewayMqttConfig) where
  unfoldable pub connect : Tls Cert Roots → LoginResponse → Link → List (Action Roots) × Link
  unfolding connect_by build_mqtt_opts
  connect t creds s = connect_by creds (build_mqtt_opts t (client_config config creds)) s

  reconnect_by : Tls Cert Roots → Option LoginResponse → Link → List (Action Roots) × Link
  unfolding connect
  reconnect_by t none s = (
    post_login config.gateway_url (login_request config) config.broker_cafile ∷ [],
    record s { phase = logging_in },
  )
  reconnect_by t (some creds) s = connect t creds s

  -- The start of a round of the outer loop.
  unfoldable pub reconnect : Tls Cert Roots → Link → List (Action Roots) × Link
  unfolding reconnect_by
  reconnect t s = reconnect_by t s.cached s

  unfoldable pub logged_in :
      Tls Cert Roots → Result LoginError LoginResponse → Link → List (Action Roots) × Link
  unfolding connect
  logged_in t (ok creds) s = connect t creds (record s { cached = some creds })
  logged_in t (err e) s = back_off s

  module _ (to_vec : Envelope → Result Str (List ℕ)) where
    step_in : Phase → Event Cert Roots → Link → List (Action Roots) × Link
    unfolding on_poll reconnect logged_in login
    step_in logging_in shutdown s = ([], record s { phase = stopped })
    step_in logging_in (answered t n) s =
        logged_in t (login t n config.gateway_url (login_request config) config.broker_cafile) s
    step_in backing_off shutdown s = ([], record s { phase = stopped; delay = doubled s.delay })
    step_in backing_off (slept t) s = reconnect t (record s { delay = doubled s.delay })
    step_in (connected creds) shutdown s = (disconnect ∷ [], record s { phase = stopped })
    step_in (connected creds) (outbound topic payload) s =
        (publish_to topic at_least_once false payload ∷ [], s)
    step_in (connected creds) (polled p) s = on_poll to_vec creds p s
    step_in _ _ s = ([], s)

    unfoldable pub step : Event Cert Roots → Link → List (Action Roots) × Link
    unfolding step_in
    step e s = step_in s.phase e s

    unfoldable pub run : List (Event Cert Roots) → Link → List (Action Roots) × Link
    unfolding step
    run [] s = ([], s)
    run (e ∷ events) s =
        let (now, s') = step e s in let (later, s'') = run events s' in (now ++ later, s'')

-- The task up to its first wait.
unfoldable pub spawn_connection_task :
    {Roots : Type 0} → GatewayMqttConfig → List (Action Roots) × Link
spawn_connection_task config = (
  post_login config.gateway_url (login_request config) config.broker_cafile ∷ [],
  record { delay = initial_reconnect_delay; cached = none; phase = logging_in },
)
