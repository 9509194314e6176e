-- ===== src/Services/Registration.antt =====
-- The functions `register_onto` of the services' managers: which services the supervisor gets, and
-- as available or not.
pub mod Disabled
pub mod Frame
use place_home.Prelude.{
  ℕ, Bool, true, false, not, ◌&&◌, ◌||◌, Option, none, some, List, [], ◌∷◌, ◌++◌, Result, ok, err,
  if◌then◌else◌,
}
use place_home.Prelude.Text.{Str, str, str_eq}
use place_home.ServiceId
use place_home.Supervisor.{Supervisor, register}
use place_home.Services.Types.{Channel}
use place_home.Services.Managed.{
  Service, gateway, mqtt_client, cloud_gateway, gateway_mqtt, mosquitto,
}
use place_home.Services.MqttClient
use place_home.Services.CloudGateway
use place_home.Services.GatewayMqtt
use place_home.Services.Mosquitto
use place_home.Config.{GatewayRegistrationConfig, MqttBrokerageConfig}
use place_home.Config.File.{FileSystem, write_config}
use place_home.Broker.Capabilities.{
  ServiceCapabilities, is_available, binary_path, Shell, set_password,
}
use place_home.GatewayLink.Task.{GatewayMqttConfig}

-- services/gateway_mqtt/manager.rs; the handle is the outbound channel.
gateway_mqtt_by :
    Channel
    → GatewayRegistrationConfig
    → Option Str
    → Supervisor Service
    → Option (Channel × GatewayMqttConfig) × Supervisor Service
gateway_mqtt_by c cfg none sup = (none, sup)
gateway_mqtt_by c cfg (some url) sup =
    let config : GatewayMqttConfig = record {
      gateway_url = url;
      username = cfg.username;
      password = cfg.password;
      broker_cafile = cfg.broker_cafile;
      broker_tls = cfg.broker_tls;
    } in
    if str_eq cfg.username [] || str_eq cfg.password [] then (none, sup) else (
      some (c, config),
      register ServiceId.gateway_mqtt_client (gateway_mqtt (GatewayMqtt.new c)) true sup,
    )

unfoldable pub register_gateway_mqtt :
    Channel
    → GatewayRegistrationConfig
    → Supervisor Service
    → Option (Channel × GatewayMqttConfig) × Supervisor Service
unfolding gateway_mqtt_by
register_gateway_mqtt c cfg sup = gateway_mqtt_by c cfg cfg.gateway_url sup

-- services/cloud_gateway/manager.rs
unfoldable pub register_cloud_gateway :
    Channel → Option Str → Supervisor Service → Option Channel × Supervisor Service
register_cloud_gateway c none sup = (none, sup)
register_cloud_gateway c (some url) sup =
    (some c, register ServiceId.cloud_gateway (cloud_gateway (CloudGateway.new c)) true sup)

-- services/mqtt_client/manager.rs
unfoldable pub register_mqtt_client :
    (cmd msg out connected : Channel) → Bool → Supervisor Service → Supervisor Service
register_mqtt_client cmd msg out connected available sup =
    register ServiceId.mqtt_client (mqtt_client (MqttClient.new cmd msg out connected)) available
      sup

-- services/mqtt_brokerage/manager.rs. A failure to write the configuration or to set the password is
-- only logged. `file` is the broker's configuration file, and `exists` whether the password file does.
unfoldable pub register_mosquitto :
    {Ip : Type 0}
    → FileSystem
    → Shell
    → ServiceCapabilities
    → MqttBrokerageConfig Ip
    → (exists : Bool) → (file : Option Str) → Supervisor Service
    → (Bool × Option (Result Str Unit)) × (Option Str × Supervisor Service)
unfolding write_config set_password
register_mosquitto fs run c config exists file sup =
    let available = is_available c (str "mosquitto") in
    let written = (write_config fs config file).1 in
    let password =
      set_password run (binary_path c (str "mosquitto_passwd")) config.password_file exists
        config.username config.password in
    let service = mosquitto (Mosquitto.new config.config_file) in
    (
      (available, if available && not config.tls_enabled then some password else none),
      (if available then written else file, register ServiceId.mosquitto service available sup),
    )
