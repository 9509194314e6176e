-- ===== src/GatewayLink/Examples.antt =====
-- Tests of the link to the cloud gateway.
use place_home.Prelude.{ℕ, true, ◌≡◌, refl, none, some, List, [], ◌∷◌, Result, ok, All, arith}
use place_home.Prelude.Text.{Str, str, trim_end_matches, starts_with, drop}
use place_home.Config.Parsing.{parse_uint, to_string}
use place_home.Mqtt.Options.{Tls, build_server_tls}
use place_home.GatewayLink.Protocol.{LoginResponse, Envelope}
use place_home.GatewayLink.Url.{parse, split_path, rsplit_once}
use place_home.GatewayLink.Url.Text.{parse-url_text}
use place_home.GatewayLink.Login.{LoginError, Network, login, tls_connector, send_request}
use place_home.GatewayLink.Trust.{
  IsTransient, IsAnswered, value, login-IsAnswered, tls_connector-build_server_tls,
}
use place_home.GatewayLink.Task.{
  GatewayMqttConfig, Link, Event, connected, conn_ack, connection_error, connection_refused,
  answered, slept, outbound, polled, shutdown, disconnect, login_request, run,
  spawn_connection_task,
}
use place_home.GatewayLink.Task.Backoff.{IsGood, link_run-IsSound}
use place_home.GatewayLink.Task.Outage.{Attempt, retries, events_of, attempting, outage-retries}
use place_home.GatewayLink.Task.Credentials.{IsReused, run-IsReused}
use place_home.GatewayLink.Task.Trusted.{Verifies, run-Verifies, shutdown-ends}

-- Root stores are numbers of certificates.
abbrev tls : Tls Unit ℕ
tls = record {
  read = λ file. ok (str "pem");
  certs = λ pem. ok tt ∷ ok tt ∷ [];
  empty = 0;
  add = λ c n. ok (ℕ.suc n);
  extend_webpki = λ n. 100;
}

abbrev creds : LoginResponse
creds = record {
  protocol_version = str "1";
  device_id = str "hamlet";
  mqtt_username = str "u";
  mqtt_password = str "p";
  broker = record { host = str "broker"; port = 8883 };
  topics = record { cmds = str "h/cmds"; connect = str "h/connect"; notify = str "h/notify" };
}

-- A network on which the gateway answers with a status.
abbrev net : ℕ → Network ℕ
net status = record {
  serialise = λ req. ok (str "{}");
  connect = λ host port. ok tt;
  server_name = λ host. ok tt;
  tls_handshake = λ roots host. ok tt;
  http_handshake = ok tt;
  build_request = λ req. ok tt;
  send = λ stream req. ok (record { status = status; body = ok (str "{}") });
  show_status = λ n. str "status";
  from_utf8_lossy = λ bytes. bytes;
  deserialise = λ bytes. ok creds;
}

abbrev config : GatewayMqttConfig
config = record {
  gateway_url = str "https://gw:8443";
  username = str "user";
  password = str "secret";
  broker_cafile = some (str "/ca");
  broker_tls = true;
}

abbrev to_vec : Envelope → Result Str (List ℕ)
to_vec e = ok (str "alive")

parse-url_text_example :
    parse (str "https://g:8443/api")
    ≡ ok (record { tls = true; host = str "g"; port = 8443; path = str "/api" })
unfolding to_string
parse-url_text_example =
    parse-url_text true 103 8443 [] (str "api") (λ e. omega (arith, e), tt) (omega arith)

not-IsTransient : ¬ IsTransient (ok creds)
not-IsTransient (m, e) = absurd cc

login-IsAnswered_example :
    IsAnswered tls (net 200) (str "https://gw:8443") (login_request config) none (ok creds)
unfolding login parse split_path rsplit_once starts_with drop parse_uint trim_end_matches
    send_request
login-IsAnswered_example =
    login-IsAnswered tls (net 200) (str "https://gw:8443") (login_request config) none (ok creds)
      refl not-IsTransient

tls_connector-build_server_tls_example :
    value (tls_connector tls (some (str "/ca"))) ≡ value (build_server_tls tls (some (str "/ca")))
tls_connector-build_server_tls_example = tls_connector-build_server_tls tls (some (str "/ca"))

-- The gateway rejects the credentials, and then fails.
abbrev attempts : List (Attempt Unit ℕ)
attempts =
    record { tls = tls; network = net 401; later = tls }
    ∷ record { tls = tls; network = net 503; later = tls }
    ∷ []

outage-retries_example :
    run config to_vec (events_of attempts) (spawn_connection_task {Roots = ℕ} config).1
    ≡ (retries config 0 attempts, attempting 8)
unfolding login parse split_path rsplit_once starts_with drop parse_uint trim_end_matches
    send_request
outage-retries_example =
    outage-retries config to_vec attempts ((LoginError.unauthorized, refl), ((_, refl), tt))

abbrev linked : Link
linked = record { delay = 2; cached = some creds; phase = connected creds }

-- The connection breaks and is made again.
abbrev events : List (Event Unit ℕ)
events =
    polled conn_ack
    ∷ outbound (str "h/cmds") []
    ∷ polled connection_error
    ∷ slept tls
    ∷ polled conn_ack
    ∷ []

run-IsReused_example : IsReused Unit config creds (run config to_vec events linked)
run-IsReused_example =
    run-IsReused config creds to_vec events linked (tt, (tt, (tt, (tt, (tt, tt))))) refl refl

run-Verifies_example :
    All
      (Verifies (tls ∷ tls ∷ []) config)
      (run config to_vec
        (polled connection_refused ∷ slept tls ∷ answered tls (net 200) ∷ [])
        linked).0
run-Verifies_example =
    run-Verifies config to_vec (polled connection_refused ∷ slept tls ∷ answered tls (net 200) ∷ [])
      linked refl

shutdown-ends_example : (run config to_vec (shutdown ∷ events) linked).0 ≡ disconnect ∷ []
shutdown-ends_example = (shutdown-ends config to_vec events linked).0

link_run-IsSound_example : IsGood (
    run config to_vec
      (answered tls (net 200) ∷ events)
      (spawn_connection_task {Roots = ℕ} config).1)
link_run-IsSound_example = link_run-IsSound config to_vec (answered tls (net 200) ∷ events)
