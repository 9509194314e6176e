-- ===== src/Startup/Examples.antt =====
-- Tests of the start-up.
use place_home.Prelude.{ℕ, eqb, ◌≡◌, refl, true, false, none, some, List, [], ◌∷◌, ◌++◌, ok}
use place_home.Prelude.Text.{Str, str}
use place_home.Prelude.Map.{lookup, insert, remove}
use place_home.ServiceId
use place_home.Supervisor.{stopped, Supervisor, new}
use place_home.Supervisor.View.{view}
use place_home.Supervisor.Invariant.{new-IsConsistent}
use place_home.Services.Types.{Answers, exited, still_running}
use place_home.Services.Gateway
use place_home.Services.Managed.{Service, gateway}
use place_home.Config.{MqttBrokerageConfig, MqttClientConfig, plaintext}
use place_home.Config.Parsing.{to_string}
use place_home.Ca.{Rcgen, Outside}
use place_home.Broker.Interfaces.{inet, inet6}
use place_home.Broker.Capabilities.{Shell, is_available, detect_binary}
use place_home.Startup.{Config, Meets, Boot, prepare, Starts, pending, start_services}
use place_home.Startup.Served.{supervisor, initialize-gateway}

abbrev toy : Rcgen Str Str Str Str
toy = record {
  key_from_pem = λ s. ok s;
  serialize_pem = λ k. k;
  from_ca_cert_pem = λ s. ok s;
  self_signed = λ p k. ok k;
  request_from_pem = λ s. ok s;
  request_signed_by = λ q c k. ok (q ++ k);
  signed_by = λ p k c ca. ok (k ++ ca);
  pem = λ c. c;
  root_params = str "root";
  node_params = str "node";
}

abbrev names : List ℕ → List Str → Str
names ips hosts = str "names"

abbrev at : ℕ → Outside Str
at now = record { read = ok tt; write = ok tt; generated = ok (str "key"); now = now }

abbrev broker : MqttBrokerageConfig ℕ
broker = record {
  port = 1883;
  client_id = str "hamlet";
  config_file = str "/c/mosquitto.conf";
  password_file = str "/c/passwd";
  username = str "u";
  password = str "p";
  tls_enabled = true;
  mqtts_port = 8883;
  cafile = str "/c/ca";
  certfile = str "/c/cert";
  keyfile = str "/c/key";
  san_ips = [];
  san_hostnames = [];
}

abbrev client : MqttClientConfig
client = record {
  client_id = str "node";
  host = str "localhost";
  port = 1883;
  tls_mode = plaintext;
  cafile = none;
  certfile = none;
  keyfile = none;
  username = str "u";
  password = str "p";
}

abbrev config : Config ℕ
config = record {
  mqtt_brokerage = broker;
  mqtt_client = client;
  http = record { host = str "0.0.0.0"; port = 8080; tls_enabled = true; upstream_port = 3000 };
  gateway_registration = record {
    server_url = str "https://node";
    gateway_url = none;
    username = [];
    password = [];
    broker_cafile = none;
    broker_tls = true;
  };
}

-- Every program is found, and runs.
abbrev shell : Shell
shell command = ok (record { success = true; stdout = str "/usr/bin/x"; stderr = [] })

abbrev meets : Meets Str ℕ
meets = record {
  opening = record { options = ok tt; connect = ok tt; migrate = ok tt };
  shell = shell;
  file_system = record { create_dir_all = ok tt; write = ok tt; left = none };
  has_password_file = true;
  ca = at 5;
  broker_key = ok (str "broker");
  ip_addr = record { is_loopback = λ ip. eqb ip 0; localhost = 0 };
  interfaces = some (some (inet 0) ∷ none ∷ some (inet6 7) ∷ []);
  broker_disk = record {
    create_dir_all = ok tt;
    write_ca = ok tt;
    write_cert = ok tt;
    write_key = ok tt;
  };
  node = at 6;
  node_disk = record { create_dir_all = ok tt; write_cert = ok tt; write_key = ok tt };
  cmd = 1;
  msg = 2;
  out = 3;
  connected = 4;
  outbound = 5;
}

abbrev empty : Supervisor Service
empty = new

abbrev fresh : Boot
fresh = record {
  store = record {
    db = record { ca_keys = none; node_identity = none; device_certs = [] };
    files = [];
  };
  config_file = none;
  sup = empty;
}

abbrev fine : Answers
fine = record {
  channel = 6;
  second_channel = 7;
  bound = ok tt;
  local_addr = ok tt;
  tls_config = ok tt;
  mqtt_opts = ok tt;
  config_exists = true;
  spawned = ok (some 4711);
  wait = exited;
  try_wait = still_running;
}

abbrev starts : Starts
starts = record { mosquitto = fine; mqtt_client = fine; gateway = fine; gateway_mqtt = fine }

abbrev prepared : Boot
prepared = (prepare toy names meets config fresh).1

initialize-gateway_example :
    view (supervisor (start_services starts (true, false) pending prepared.sup)) ServiceId.gateway
    ≡ some (stopped, gateway (Gateway.new (str "0.0.0.0:8080") true))
unfolding prepare is_available lookup insert remove detect_binary to_string
initialize-gateway_example =
    initialize-gateway toy names meets config starts true false pending fresh prepared
      new-IsConsistent refl
