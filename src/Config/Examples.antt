-- ===== src/Config/Examples.antt =====
-- Tests of the settings.
use place_home.Prelude.{ℕ, true, ◌≡◌, refl, Option, none, some, [], ok, arith, if◌then◌else◌}
use place_home.Prelude.Text.{Str, str, str_eq, starts_with}
use place_home.Config.{Env, MqttBrokerageConfig, build_brokerage_info}
use place_home.Config.Parsing.{has_parent, split, parent}
use place_home.Config.File.{FileSystem, config_text, write_config}
use place_home.Config.Listener.{listening_port, write_config-listening_port}

abbrev no_ip : Str → Option ℕ
no_ip s = none

abbrev tls_on : Env
tls_on name = if str_eq name (str "MQTT_TLS_ENABLED") then some (str " True ") else none

abbrev unset : Env
unset name = none

abbrev broker : MqttBrokerageConfig ℕ
broker = record {
  port = 1883;
  client_id = str "hamlet";
  config_file = str "/c/mosquitto.conf";
  password_file = str "/c/passwd";
  username = str "u";
  password = str "p";
  tls_enabled = true;
  mqtts_port = 8883;
  cafile = str "/c/ca";
  certfile = str "/c/cert";
  keyfile = str "/c/key";
  san_ips = [];
  san_hostnames = [];
}

abbrev disk : FileSystem
disk = record { create_dir_all = ok tt; write = ok tt; left = none }

write_config-listening_port_example : listening_port (config_text broker) ≡ some 8883
unfolding build_brokerage_info write_config has_parent split starts_with
write_config-listening_port_example =
    write_config-listening_port disk broker (str "pem") none (config_text broker) refl (omega arith)

parents :
    (parent (str "/c/certs/ca.crt") ≡ some (str "/c/certs"))
    × (parent (str "a//b/./c/") ≡ some (str "a//b"))
    × (parent (str "/a") ≡ some (str "/"))
    × (parent (str "./a") ≡ some (str "."))
    × (parent (str "a") ≡ some [])
    × (parent (str "//.") ≡ none)
unfolding parent
parents = (refl, refl, refl, refl, refl, refl)
