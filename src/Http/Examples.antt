-- ===== src/Http/Examples.antt =====
-- Tests of the HTTP gateway.
use place_home.Prelude.{ℕ, true, ◌≡◌, ◌⊎◌, refl, Option, none, some, List, [], ◌∷◌, ◌++◌, ok}
use place_home.Prelude.Text.{Str, str, str_has_eq, starts_with, ends_with}
use place_home.Prelude.Map.{lookup}
use place_home.Config.Parsing.{parent, join}
use place_home.Ca.{Rcgen, sign_csr}
use place_home.Broker.Identities.{cert_path}
use place_home.GatewayLink.Url.{rsplit_once}
use place_home.Http.Requests.{
  DeviceInfo, Request, text, DeviceInitRequest, process_init, process_register, broker_host,
  strip_port, header, collect,
}
use place_home.Http.Handlers.{
  TopicQueue, AppState, World, Meets, handle_device_init, handle_client_register,
}
use place_home.Http.Serving.{Upstream, Gateway, Event, handshake, shutdown, step, run}
use place_home.Http.Serving.Stopped.{answers_to, not_accepted, stopped, run-stopped, run-IsSilent}
use place_home.Http.Handlers.Outcomes.{IsRefusal, IsWelcome, IsFailure, handle_device_init-outcome}
use place_home.Http.Handlers.Clients.{IsRegistered, handle_client_register-outcome}
use place_home.Http.Handlers.Announced.{listening, full_queue-unnoticed}
use place_home.Http.Handlers.Overwrites.{device_init-chosen_path, device_init-replaces_ca}

ports :
    (strip_port (str "192.168.2.39:8080") ≡ str "192.168.2.39")
    × (strip_port (str "[::1]:80") ≡ str "[::1]:80")
    × (strip_port (str "node.local") ≡ str "node.local")
unfolding strip_port starts_with
ports = (refl, refl, refl)

abbrev pub toy : Rcgen Str Str Str Str
toy = record {
  key_from_pem = λ s. ok s;
  serialize_pem = λ k. k;
  from_ca_cert_pem = λ s. ok s;
  self_signed = λ p k. ok k;
  request_from_pem = λ s. ok s;
  request_signed_by = λ q c k. ok (q ++ k);
  signed_by = λ p k c ca. ok (k ++ ca);
  pem = λ c. c;
  root_params = str "root";
  node_params = str "node";
}

abbrev pub meets : Meets Str
meets = record {
  outside = record { read = ok tt; write = ok tt; generated = ok (str "key"); now = 9 };
  written = ok tt;
  uuid = str "id";
}

abbrev pub state : AppState Str Str
state = record {
  ca =
      some
        (record { subject_cn = str "PlaceNet Root CA"; cert = str "ca"; key_pair = str "-by-ca" });
  brokerage_info = record { address = str "localhost"; port = 8883; ca_cert_pem = str "ca" };
  brokerage = some (str "/c/certs/ca.crt");
  has_topic_tx = true;
}

abbrev queue : ℕ → TopicQueue
queue capacity = record { sent = []; capacity = capacity; is_open = true }

abbrev pub world : World
world = record {
  db = record { ca_keys = none; node_identity = none; device_certs = [] };
  files = (str "/c/certs/ca.crt", str "ca") ∷ [];
  topics = queue 64;
}

-- The body is the hostname of the device.
abbrev pub parse_device : List ℕ → Option DeviceInfo
parse_device bytes = some (record {
  address = str "10.0.0.7";
  mdns = record { hostname = bytes; port = 5353 };
  csr_pem = str "csr";
})

abbrev pub hello : Str → Request
hello hostname = record {
  headers = (str "x-placenet-init", some (str "0.0.1")) ∷ (str "host", some (str "node:8080")) ∷ [];
  body = some hostname;
}

abbrev request : Str → DeviceInitRequest
request hostname = record {
  version = str "0.0.1";
  broker_host = str "node";
  device = record {
    address = str "10.0.0.7";
    mdns = record { hostname = hostname; port = 5353 };
    csr_pem = str "csr";
  };
}

handle_device_init-outcome_example :
    let out = handle_device_init toy meets state parse_device (hello (str "lamp")) world in
    (IsRefusal out.0 × (out.1 ≡ world))
    ⊎ ((request : DeviceInitRequest) × (process_init parse_device (hello (str "lamp")) ≡ ok request)
        × (request.broker_host ≡ str "node")
        × (IsWelcome toy meets state request world out.1 out.0
            ⊎ IsFailure toy meets state world out.1 out.0))
unfolding broker_host strip_port header starts_with lookup
handle_device_init-outcome_example =
    handle_device_init-outcome toy meets state parse_device (hello (str "lamp")) world

abbrev pub parse_payload : List ℕ → Option Str
parse_payload bytes = some bytes

handle_client_register-outcome_example :
    let out = handle_client_register toy meets state parse_payload (hello (str "csr")) world in
    (IsRefusal out.0 × (out.1 ≡ world))
    ⊎ ((csr_pem : Str) × (process_register parse_payload (hello (str "csr")) ≡ ok csr_pem)
        × (IsRegistered toy meets state csr_pem world out.1 out.0
            ⊎ ((out.0.status ≡ 500) × (out.1 ≡ world))))
handle_client_register-outcome_example =
    handle_client_register-outcome toy meets state parse_payload (hello (str "csr")) world

full_queue-unnoticed_example :
    let out =
      handle_device_init toy meets state parse_device
        (hello (str "lamp"))
        (record world { topics = queue 1 }) in
    (out.0 ≡ (handle_device_init toy meets state parse_device (hello (str "lamp")) world).0)
    × ((out.1.topics.sent ≡ []) ⊎ (out.1.topics.sent ≡ listening (str "id") ∷ []))
full_queue-unnoticed_example =
    full_queue-unnoticed toy meets state parse_device (hello (str "lamp")) world (queue 1) refl refl
      refl

device_init-chosen_path_example :
    lookup
      (str "/etc/cron.crt")
      (handle_device_init toy meets state parse_device (hello (str "/etc/cron")) world).1.files
    ≡ some (str "csr-by-ca")
unfolding parent process_init sign_csr header collect strip_port rsplit_once starts_with lookup
device_init-chosen_path_example =
    (device_init-chosen_path toy meets state (str "/c/certs/ca.crt") (str "/c/certs") parse_device
      (hello (str "/etc/cron")) world (request (str "/etc/cron")) (str "csr-by-ca") (str "etc/cron")
      refl refl refl refl refl refl).1

device_init-replaces_ca_example :
    lookup
      (str "/c/certs/ca.crt")
      (handle_device_init toy meets state parse_device (hello (str "ca")) world).1.files
    ≡ some (str "csr-by-ca")
unfolding parent process_init sign_csr header collect strip_port rsplit_once starts_with lookup
    cert_path join ends_with
device_init-replaces_ca_example =
    (device_init-replaces_ca toy meets state (str "/c/certs/ca.crt") (str "/c/certs") parse_device
      (hello (str "ca")) world (request (str "ca")) (str "csr-by-ca") refl refl refl refl refl
      refl).1

abbrev upstream : Upstream
upstream = record {
  connect = ok tt;
  handshake = ok tt;
  send_request = λ req. ok (record { status = 200; body = text (str "page") });
}

abbrev listening_gateway : Gateway
listening_gateway = record {
  tls = true;
  accepting = true;
  connections = [];
  next = 0;
  world = world;
  answers = [];
}

-- Of two connections one has its handshake.
abbrev events : List (Event Str)
events =
    Event.accepted
    ∷ Event.accepted
    ∷ handshake 0 (ok tt)
    ∷ Event.request 0 meets (hello (str "lamp"))
    ∷ Event.request 1 meets (hello (str "fan"))
    ∷ []

run-stopped_example :
    run toy state parse_device parse_payload upstream events
      (step toy state parse_device parse_payload upstream shutdown listening_gateway)
    ≡ stopped
        (run toy state parse_device parse_payload upstream (not_accepted events) listening_gateway)
run-stopped_example =
    run-stopped toy state parse_device parse_payload upstream events listening_gateway

run-IsSilent_example :
    answers_to 1
      (run toy state parse_device parse_payload upstream events listening_gateway).answers
    ≡ []
unfolding lookup
run-IsSilent_example =
    run-IsSilent toy state parse_device parse_payload upstream 1 events listening_gateway refl
      (refl, λ e. cc)
