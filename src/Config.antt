-- ===== src/Config.antt =====
-- config.rs: the settings read from the environment, and the broker's configuration file. An
-- environment gives a variable's text, none where `std::env::var` fails.
pub mod Parsing
pub mod File
pub mod Ports
pub mod Listener
pub mod Examples
use place_home.Prelude.{
  ℕ, Bool, true, false, not, ◌&&◌, Option, none, some, List, map, retain, if◌then◌else◌,
}
use place_home.Prelude.Text.{Str, str, str_eq}
use place_home.Config.Parsing.{trim, eq_ignore_ascii_case, parse_uint, split, join}

abbrev pub Env : Type 0
Env = Str → Option Str

-- `var(name).unwrap_or_else(|_| default)`
abbrev or_default : Option Str → Str → Str
or_default none default = default
or_default (some v) default = v

abbrev pub var_or : Env → Str → Str → Str
var_or env name default = or_default (env name) default

abbrev or_number : Option ℕ → ℕ → ℕ
or_number none default = default
or_number (some n) default = n

-- `….parse().unwrap_or(default)`, where `text` is the default's own text.
unfoldable pub number_or : Env → ℕ → Str → Str → ℕ → ℕ
number_or env w name text default = or_number (parse_uint w (var_or env name text)) default

unfoldable pub trimmed_number_or : Env → ℕ → Str → Str → ℕ → ℕ
trimmed_number_or env w name text default =
    or_number (parse_uint w (trim (var_or env name text))) default

unfoldable pub flag_or : Env → Str → Str → Bool
flag_or env name default = eq_ignore_ascii_case (trim (var_or env name default)) (str "true")

-- `plaintext` is the source's `None`, `mutual_tls` its `Mutual`.
pub data MqttTlsMode : Type 0 where
  plaintext server_only mutual_tls : MqttTlsMode

pub record MqttClientConfig : Type 0 where
  pub client_id : Str
  pub host : Str
  pub port : ℕ
  pub tls_mode : MqttTlsMode
  pub cafile : Option Str
  pub certfile : Option Str
  pub keyfile : Option Str
  pub username : Str
  pub password : Str

unfoldable pub client_from_env : Env → Str → MqttClientConfig
client_from_env env config_dir =
    let is_mutual = flag_or env (str "MQTT_TLS_ENABLED") (str "false") in
    record {
      client_id = var_or env (str "MQTT_CLIENT_ID") (str "hamlet");
      host = str "localhost";
      port =
          if is_mutual
          then number_or env 16 (str "MQTTS_PORT") (str "8883") 8883
          else number_or env 16 (str "MQTT_PORT") (str "1883") 1883;
      tls_mode = if is_mutual then mutual_tls else plaintext;
      cafile = some (join config_dir (var_or env (str "MQTT_CAFILE") (str "certs/ca.crt")));
      certfile =
          some (join config_dir (var_or env (str "MQTT_CLIENT_CERTFILE") (str "certs/client.crt")));
      keyfile =
          some (join config_dir (var_or env (str "MQTT_CLIENT_KEYFILE") (str "certs/client.key")));
      username = var_or env (str "MQTT_USERNAME") (str "placenet");
      password = var_or env (str "MQTT_PASSWORD") (str "changeme");
    }

-- An address is what `IpAddr::from_str` makes of a text.
pub record MqttBrokerageConfig (Ip : Type 0) : Type 0 where
  pub port : ℕ
  pub client_id : Str
  pub config_file : Str
  pub password_file : Str
  pub username : Str
  pub password : Str
  pub tls_enabled : Bool
  pub mqtts_port : ℕ
  pub cafile : Str
  pub certfile : Str
  pub keyfile : Str
  pub san_ips : List Ip
  pub san_hostnames : List Str

cons_parsed : {Ip : Type 0} → Option Ip → List Ip → List Ip
cons_parsed none ips = ips
cons_parsed (some ip) ips = List.◌∷◌ ip ips

module _ {Ip : Type 0} (parse_ip : Str → Option Ip) where
  parse_ips : List Str → List Ip
  unfolding cons_parsed
  parse_ips List.[] = List.[]
  parse_ips (List.◌∷◌ s pieces) = cons_parsed (parse_ip (trim s)) (parse_ips pieces)

  unfoldable pub broker_from_env : Env → Str → MqttBrokerageConfig Ip
  unfolding parse_ips
  broker_from_env env config_dir = record {
    port = number_or env 16 (str "MQTT_PORT") (str "1883") 1883;
    mqtts_port = number_or env 16 (str "MQTTS_PORT") (str "8883") 8883;
    client_id = var_or env (str "MQTT_CLIENT_ID") (str "hamlet");
    username = var_or env (str "MQTT_USERNAME") (str "placenet");
    password = var_or env (str "MQTT_PASSWORD") (str "changeme");
    tls_enabled = flag_or env (str "MQTT_TLS_ENABLED") (str "true");
    cafile = join config_dir (var_or env (str "MQTT_CAFILE") (str "certs/ca.crt"));
    certfile = join config_dir (var_or env (str "MQTT_CERTFILE") (str "certs/broker.crt"));
    keyfile = join config_dir (var_or env (str "MQTT_KEYFILE") (str "certs/broker.key"));
    san_ips = parse_ips (split b',' (var_or env (str "BROKER_SAN_IPS") (str "")));
    san_hostnames =
        retain (λ s. not (str_eq s (str "")) && not (str_eq s (str "localhost")))
          (map trim (split b',' (var_or env (str "BROKER_SAN_HOSTNAMES") (str ""))));
    config_file = join config_dir (str "mosquitto.conf");
    password_file = join config_dir (str "passwd");
  }

pub record HttpConfig : Type 0 where
  pub host : Str
  pub port : ℕ
  pub tls_enabled : Bool
  pub upstream_port : ℕ

unfoldable pub http_from_env : Env → HttpConfig
http_from_env env = record {
  host = var_or env (str "HTTP_HOST") (str "0.0.0.0");
  port = number_or env 16 (str "HTTP_PORT") (str "8080") 8080;
  tls_enabled = flag_or env (str "HTTP_TLS_ENABLED") (str "true");
  upstream_port = number_or env 16 (str "HTTP_UPSTREAM_PORT") (str "3000") 3000;
}

pub record BeaconManagementConfig : Type 0 where
  pub use_jitter : Bool
  pub broadcast_interval : ℕ
  pub key_rotation_interval : ℕ
  pub key_expiry : ℕ

unfoldable pub beacon_management_from_env : Env → BeaconManagementConfig
beacon_management_from_env env = record {
  use_jitter = flag_or env (str "USE_NETWORK_JITTER") (str "false");
  broadcast_interval = trimmed_number_or env 16 (str "BROADCAST_INTERVAL") (str "60") 60;
  key_rotation_interval = trimmed_number_or env 32 (str "KEY_ROTATION_INTERVAL") (str "3600") 3600;
  key_expiry = trimmed_number_or env 32 (str "KEY_EXPIRY") (str "7200") 7200;
}

pub record GatewayRegistrationConfig : Type 0 where
  pub server_url : Str
  pub gateway_url : Option Str
  pub username : Str
  pub password : Str
  pub broker_cafile : Option Str
  pub broker_tls : Bool

-- `.map(|v| …).unwrap_or(true)`
abbrev is_true_or : Option Str → Bool → Bool
is_true_or none default = default
is_true_or (some v) default = eq_ignore_ascii_case (trim v) (str "true")

unfoldable pub gateway_registration_from_env : Env → GatewayRegistrationConfig
gateway_registration_from_env env = record {
  server_url = var_or env (str "PLACENET_SERVER_URL") (str "http://localhost:8080");
  gateway_url = env (str "PLACENET_GATEWAY_URL");
  username = var_or env (str "PLACENET_GATEWAY_USERNAME") (str "");
  password = var_or env (str "PLACENET_GATEWAY_PASSWORD") (str "");
  broker_cafile = env (str "PLACENET_GATEWAY_MQTT_CAFILE");
  broker_tls = is_true_or (env (str "PLACENET_GATEWAY_MQTT_TLS")) true;
}

-- The directory that `Config::from_env` settles on: a relative one stands in the current directory.
unfoldable pub config_dir : Env → (current_dir : Str) → Str
config_dir env current_dir =
    join current_dir (var_or env (str "PLACENET_CONFIG_DIR") (str "config"))

-- What a device is told of the broker, from `build_brokerage_info` of
-- services/beacon_management/manager.rs.
pub record MqttBrokerageInfo : Type 0 where
  pub address : Str
  pub port : ℕ
  pub ca_cert_pem : Str

unfoldable pub build_brokerage_info :
    {Ip : Type 0} → MqttBrokerageConfig Ip → Str → MqttBrokerageInfo
build_brokerage_info config ca_cert_pem = record {
  address = str "localhost";
  port = if config.tls_enabled then config.mqtts_port else config.port;
  ca_cert_pem = ca_cert_pem;
}
