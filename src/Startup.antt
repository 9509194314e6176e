-- ===== src/Startup.antt =====
-- `App::initialize` of app.rs: what is prepared and registered, in which order the services are
-- started, and where the process exits or waits.
pub mod Examples
pub mod Prepared
pub mod Served
use place_home.Prelude.{
  ℕ, Bool, true, false, ◌&&◌, Option, none, some, List, [], ◌∷◌, Result, ok, err, Exec, ◌>>>=◌,
  lift, if◌then◌else◌,
}
use place_home.Prelude.Text.{Str, str}
use place_home.ServiceId
use place_home.Supervisor.{Supervisor, register, handle_start}
use place_home.Services.Types.{Answers, Channel}
use place_home.Services.Managed.{Service, dyn_service, gateway}
use place_home.Services.Gateway
use place_home.Services.Registration.{
  register_mosquitto, register_mqtt_client, register_gateway_mqtt,
}
use place_home.Config.{
  MqttBrokerageConfig, MqttClientConfig, MqttTlsMode, HttpConfig, GatewayRegistrationConfig,
  mutual_tls,
}
use place_home.Config.File.{FileSystem, format}
use place_home.Config.Parsing.{to_string}
use place_home.Ca.{Rcgen, CaState, Outside}
use place_home.Ca.Service.{Opening, register as register_ca}
use place_home.Broker.Interfaces.{Sockaddr, IpAddr, get_local_ips}
use place_home.Broker.Capabilities.{detect_capabilities, Shell}
use place_home.Broker.Identities
use place_home.Broker.Identities.{provision_mqtt_broker_cert, ca_cert_pem}
use place_home.Mqtt.Identity
use place_home.Mqtt.Identity.{Store, on_db, on_files, provision_node_identity}

pub record Config (Ip : Type 0) : Type 0 where
  pub mqtt_brokerage : MqttBrokerageConfig Ip
  pub mqtt_client : MqttClientConfig
  pub http : HttpConfig
  pub gateway_registration : GatewayRegistrationConfig

-- What the start meets outside.
pub record Meets (K Ip : Type 0) : Type 0 where
  pub opening : Opening
  pub shell : Shell
  pub file_system : FileSystem
  pub has_password_file : Bool
  pub ca : Outside K
  pub broker_key : Result Str K
  pub ip_addr : IpAddr Ip
  pub interfaces : Option (List (Option (Sockaddr Ip)))
  pub broker_disk : Identities.Disk
  pub node : Outside K
  pub node_disk : Identity.Disk
  -- the channels of the MQTT client and of the cloud gateway's
  pub cmd : Channel
  pub msg : Channel
  pub out : Channel
  pub connected : Channel
  pub outbound : Channel

-- What the start changes; `config_file` is the broker's.
pub record Boot : Type 0 where
  pub store : Store
  pub config_file : Option Str
  pub sup : Supervisor Service

abbrev pub on_store : {A : Type 0} → Exec Store Str A → Exec Boot Str A
on_store m s = let (r, store) = m s.store in (r, record s { store = store })

abbrev pub required_binaries : List Str
required_binaries = str "mosquitto" ∷ str "mosquitto_passwd" ∷ []

-- Whether the broker is there, and the cloud gateway's client registered.
abbrev pub Available : Type 0
Available = Bool × Bool

abbrev pub when : Bool → Exec Boot Str Unit → Exec Boot Str Unit
when b m s = if b then m s else (ok tt, s)

abbrev pub is_mutual : MqttTlsMode → Bool
is_mutual mutual_tls = true
is_mutual _ = false

abbrev pub gateway_service : HttpConfig → Gateway.GatewayService
gateway_service http =
    Gateway.new (format (http.host ∷ str ":" ∷ to_string http.port ∷ [])) http.tls_enabled

-- `register_onto` of services/beacon_management/manager.rs
abbrev register_gateway : HttpConfig → Supervisor Service → Supervisor Service
register_gateway config sup = register ServiceId.gateway (gateway (gateway_service config)) true sup

module _ {K P Q C Ip : Type 0} (r : Rcgen K P Q C) (params : List Ip → List Str → P)
    (m : Meets K Ip) (config : Config Ip) where
  -- The broker and the HTTP gateway.
  unfoldable pub register_first : Boot → Bool × Boot
  unfolding register_mosquitto detect_capabilities
  register_first s =
      let (b, (file, sup)) =
        register_mosquitto m.file_system m.shell (detect_capabilities m.shell required_binaries)
          config.mqtt_brokerage m.has_password_file s.config_file s.sup in
      (b.0, record s { config_file = file; sup = register_gateway config.http sup })

  -- The MQTT client and the client of the cloud gateway.
  unfoldable pub register_rest : Bool → Boot → Bool × Boot
  unfolding register_mqtt_client register_gateway_mqtt
  register_rest available s =
      let (handle, sup) =
        register_gateway_mqtt m.outbound config.gateway_registration
          (register_mqtt_client m.cmd m.msg m.out m.connected available s.sup) in
      (elim handle [ none ↦ false | some _ ↦ true ], record s { sup = sup })

  -- Up to `supervisor.spawn()`; an error ends the process.
  unfoldable pub prepare : Exec Boot Str Available
  unfolding register_ca ca_cert_pem get_local_ips provision_mqtt_broker_cert register_first
      provision_node_identity register_rest
  prepare = on_store (on_db (register_ca r m.opening m.ca)) >>>= λ ca.
      lift (ca_cert_pem r (some ca)) >>>= λ pem.
      when config.mqtt_brokerage.tls_enabled (
        on_store (
          on_files (
            provision_mqtt_broker_cert r m.broker_key params (some ca) m.broker_disk
              (get_local_ips m.ip_addr m.interfaces) config.mqtt_brokerage)))
      >>>= λ _. (λ s. let (b, s') = register_first s in (ok b, s')) >>>= λ available.
          when (is_mutual config.mqtt_client.tls_mode)
            (on_store (provision_node_identity r m.node (some ca) m.node_disk config.mqtt_client))
          >>>= λ _ s. let (b, s') = register_rest available s in (ok (available, b), s')

-- How the wait for the first acknowledgement of the broker ends, if it ends.
pub data Await : Type 0 where
  signalled closed pending : Await

pub data Started : Type 0 where
  done : Supervisor Service → Started
  -- still before the start of the HTTP gateway
  waiting : Supervisor Service → Started

abbrev pub started : Answers → ServiceId.ServiceId → Supervisor Service → Supervisor Service
started e id sup = (handle_start e id sup).1

-- The answers to the four starts.
pub record Starts : Type 0 where
  pub mosquitto : Answers
  pub mqtt_client : Answers
  pub gateway : Answers
  pub gateway_mqtt : Answers

abbrev start_gateway : Answers → Supervisor Service → Supervisor Service
start_gateway e sup = started e ServiceId.gateway sup

abbrev start_gateway_mqtt : Answers → Supervisor Service → Supervisor Service
start_gateway_mqtt e sup = started e ServiceId.gateway_mqtt_client sup

unfoldable pub start_last : Starts → Bool → Supervisor Service → Supervisor Service
start_last e cloud sup =
    let served = start_gateway e.gateway sup in
    if cloud then start_gateway_mqtt e.gateway_mqtt served else served

unfoldable pub after_wait : Starts → Bool → Await → Supervisor Service → Started
unfolding start_last
after_wait e cloud pending sup = waiting sup
after_wait e cloud signalled sup = done (start_last e cloud sup)
after_wait e cloud closed sup = done (start_last e cloud sup)

-- The functions of the managers; an error is only logged.
abbrev start_mosquitto_brokerage : Answers → Bool → Supervisor Service → Supervisor Service
start_mosquitto_brokerage e available sup =
    if available then started e ServiceId.mosquitto sup else sup

abbrev start_mqtt_client : Answers → Bool → Supervisor Service → Supervisor Service
start_mqtt_client e available sup = if available then started e ServiceId.mqtt_client sup else sup

-- The starts, from the supervisor that `prepare` leaves; the subscriptions that follow the signal
-- are `subscribe_all` of Mqtt/Client, a failure of which is only logged.
unfoldable pub start_services : Starts → Available → Await → Supervisor Service → Started
unfolding after_wait
start_services e (available, cloud) connected sup =
    let up =
      start_mqtt_client e.mqtt_client available
        (start_mosquitto_brokerage e.mosquitto available sup) in
    if available then after_wait e cloud connected up else done (start_last e cloud up)
