-- ===== src/Mqtt/Options.antt =====
-- `build_mqtt_opts` of services/mqtt_client/mqtt_client_service.rs. A certificate and a root store
-- are rustls', whose operations stand in `Tls` with the files that can be read.
use place_home.Prelude.{
  ℕ, Option, none, some, List, [], ◌∷◌, Result, ok, err, ◌>>=◌, ok_or, map_err,
}
use place_home.Prelude.Text.{Str, str}
use place_home.Config.{MqttClientConfig, plaintext, server_only, mutual_tls}
use place_home.Config.File.{format}

pub record Tls (Cert Roots : Type 0) : Type 0 where
  -- `fs::read`
  pub read : Str → Result Str (List ℕ)
  -- `rustls_pemfile::certs`, and the operations of `RootCertStore`
  pub certs : List ℕ → List (Result Str Cert)
  pub empty : Roots
  pub add : Cert → Roots → Result Str Roots
  pub extend_webpki : Roots → Roots

pub data Transport (Roots : Type 0) : Type 0 where
  tcp : Transport Roots
  tls_server : Roots → Transport Roots
  tls_mutual : (ca cert key : List ℕ) → Transport Roots

pub record MqttOptions (Roots : Type 0) : Type 0 where
  pub client_id : Str
  pub host : Str
  pub port : ℕ
  pub keep_alive : ℕ
  pub credentials : Option (Str × Str)
  pub transport : Transport Roots

module _ {Cert Roots : Type 0} (t : Tls Cert Roots) where
  -- The loop over the certificates of a file.
  unfoldable pub add_all : List (Result Str Cert) → Roots → Result Str Roots
  add_all [] roots = ok roots
  add_all (err e ∷ certs) roots = err (format (str "Failed to parse gateway CA: " ∷ e ∷ []))
  add_all (ok c ∷ certs) roots =
      map_err (λ e. format (str "Failed to add gateway CA: " ∷ e ∷ [])) (t.add c roots) >>= λ more.
      add_all certs more

  unfoldable pub build_server_tls : Option Str → Result Str Roots
  unfolding add_all
  build_server_tls none = ok (t.extend_webpki t.empty)
  build_server_tls (some cafile) =
      map_err (λ e. format (str "Failed to read gateway CA '" ∷ cafile ∷ str "': " ∷ e ∷ []))
        (t.read cafile)
      >>= λ pem. add_all (t.certs pem) t.empty

  read_file : Str → Str → Result Str (List ℕ)
  read_file what file =
      map_err (λ e. format (str "Failed to read " ∷ what ∷ str " '" ∷ file ∷ str "': " ∷ e ∷ []))
        (t.read file)

  -- The transport and the credentials of each mode, on options that have neither yet.
  unfoldable pub apply_mode : MqttClientConfig → MqttOptions Roots → Result Str (MqttOptions Roots)
  unfolding build_server_tls read_file
  apply_mode config opts = elim config.tls_mode [
    | plaintext ↦ ok (record opts { credentials = some (config.username, config.password) })
    | server_only ↦ build_server_tls config.cafile >>= λ roots. ok (record opts {
      transport = tls_server roots;
      credentials = some (config.username, config.password);
    })
    | mutual_tls ↦ ok_or config.cafile (str "Mutual TLS requires a CA file") >>= λ cafile.
        ok_or config.certfile (str "Mutual TLS requires a client cert") >>= λ certfile.
        ok_or config.keyfile (str "Mutual TLS requires a client key") >>= λ keyfile.
        read_file (str "CA cert") cafile >>= λ ca.
        read_file (str "client cert") certfile >>= λ cert.
        read_file (str "client key") keyfile >>= λ key.
        ok (record opts { transport = tls_mutual ca cert key })
  ]

  unfoldable pub build_mqtt_opts : MqttClientConfig → Result Str (MqttOptions Roots)
  unfolding apply_mode
  build_mqtt_opts config = apply_mode config (record {
    client_id = config.client_id;
    host = config.host;
    port = config.port;
    keep_alive = 30;
    credentials = none;
    transport = tcp;
  })
