-- ===== src/Broker/Identities.antt =====
-- `provision_mqtt_broker_cert` and `MqttBrokerageHandle` of
-- services/mqtt_brokerage/mosquitto_brokerage_service.rs, with `ca_cert_pem` and
-- `generate_broker_cert` of infra/ca. The files are a map from paths to texts.
use place_home.Prelude.{
  Option, none, some, List, [], ◌∷◌, ◌++◌, Result, ok, err, ◌>>=◌, Exec, ◌>>>=◌, lift, map_error,
  ok_or, map_err,
}
use place_home.Prelude.Text.{Str, str, str_has_eq}
use place_home.Prelude.Map.{insert}
use place_home.Config.{MqttBrokerageConfig}
use place_home.Config.File.{format}
use place_home.Config.Parsing.{join, parent}
use place_home.Ca.{Rcgen, CaState}

abbrev pub Files : Type 0
Files = List (Str × Str)

-- `fs::write`, with the answer of the file system; a write that fails leaves the file as it was.
unfoldable pub write : Result Str Unit → Str → Str → Exec Files Str Unit
write (ok _) path text files = (ok tt, insert path text files)
write (err e) path text files = (err e, files)

-- `CaService::ca_cert_pem`
unfoldable pub ca_cert_pem :
    {K P Q C : Type 0} → Rcgen K P Q C → Option (CaState K C) → Result Str Str
ca_cert_pem r state = ok_or state (str "CA not initialised") >>= λ ca. ok (r.pem ca.cert)

-- With the key pair that is generated and the parameters that are made of the alternative names.
abbrev generate_broker_identity :
    {K P Q C Ip : Type 0}
    → Rcgen K P Q C
    → Result Str K
    → (params : List Ip → List Str → P) → CaState K C
    → List Ip
    → List Str
    → Result Str (Str × Str)
generate_broker_identity r generated params ca ips hostnames =
    map_err (λ e. str "Failed to generate broker key pair: " ++ e) generated >>= λ key_pair.
    map_err (λ e. str "Failed to sign broker certificate: " ++ e)
      (r.signed_by (params ips hostnames) key_pair ca.cert ca.key_pair)
    >>= λ cert. ok (r.pem cert, r.serialize_pem key_pair)

-- `CaService::generate_broker_cert`
unfoldable pub generate_broker_cert :
    {K P Q C Ip : Type 0}
    → Rcgen K P Q C
    → Result Str K
    → (params : List Ip → List Str → P) → Option (CaState K C)
    → List Ip
    → List Str
    → Result Str (Str × Str)
generate_broker_cert r generated params state ips hostnames =
    ok_or state (str "CA not initialised") >>= λ ca.
    generate_broker_identity r generated params ca ips hostnames

-- How the file system answers to the directory and the three writes.
pub record Disk : Type 0 where
  pub create_dir_all : Result Str Unit
  pub write_ca : Result Str Unit
  pub write_cert : Result Str Unit
  pub write_key : Result Str Unit

abbrev create_dir : Option Str → Result Str Unit → Result Str Unit
create_dir none created = ok tt
create_dir (some dir) created = map_err (λ e. str "Failed to create broker cert dir: " ++ e) created

abbrev san_ips : {Ip : Type 0} → List Ip → List Ip → List Ip
san_ips local [] = local
san_ips local (ip ∷ ips) = ip ∷ ips

-- `local_ips` is what `get_local_ips` finds.
unfoldable pub provision_mqtt_broker_cert :
    {K P Q C Ip : Type 0}
    → Rcgen K P Q C
    → Result Str K
    → (params : List Ip → List Str → P) → Option (CaState K C)
    → Disk
    → (local_ips : List Ip) → MqttBrokerageConfig Ip
    → Exec Files Str Unit
unfolding parent write ca_cert_pem generate_broker_cert
provision_mqtt_broker_cert r generated params state disk local_ips cfg =
    lift (create_dir (parent cfg.certfile) disk.create_dir_all) >>>= λ _.
    lift (ca_cert_pem r state) >>>= λ ca_pem.
    map_error (λ e. str "Failed to write broker CA cert: " ++ e)
      (write disk.write_ca cfg.cafile ca_pem)
    >>>= λ _.
        lift (
          generate_broker_cert r generated params state (san_ips local_ips cfg.san_ips)
            (str "localhost" ∷ cfg.san_hostnames))
        >>>= λ (cert_pem, key_pem).
            map_error (λ e. str "Failed to write broker cert: " ++ e)
              (write disk.write_cert cfg.certfile cert_pem)
            >>>= λ _.
                map_error (λ e. str "Failed to write broker key: " ++ e)
                  (write disk.write_key cfg.keyfile key_pem)

-- The file in which the certificate of a device is kept.
unfoldable pub cert_path : (certs_dir hostname : Str) → Str
unfolding join
cert_path certs_dir hostname = join certs_dir (format (hostname ∷ str ".crt" ∷ []))

-- `cafile` is the one of the configuration.
unfoldable pub register_cert_identity :
    Result Str Unit → (cafile hostname cert_pem : Str) → Exec Files Str Unit
unfolding parent write cert_path
register_cert_identity written cafile hostname cert_pem =
    lift (ok_or (parent cafile) (str "cafile has no parent directory")) >>>= λ certs_dir.
    map_error
      (λ e.
        format
          (str "Failed to write device cert '" ∷ cert_path certs_dir hostname ∷ str "': " ∷ e ∷ []))
      (write written (cert_path certs_dir hostname) cert_pem)
