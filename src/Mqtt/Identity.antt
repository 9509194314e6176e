-- ===== src/Mqtt/Identity.antt =====
-- `provision_node_identity` of services/mqtt_client/manager.rs.
use place_home.Prelude.{
  Option, none, some, ◌++◌, Result, ok, Exec, ◌>>>=◌, lift, map_error, map_err, ok_or,
}
use place_home.Prelude.Text.{Str, str}
use place_home.Config.{MqttClientConfig}
use place_home.Config.Parsing.{parent}
use place_home.Ca.{Rcgen, CaState, Outside, Database, ensure_node_identity}
use place_home.Broker.Identities.{Files, write}

pub record Store : Type 0 where
  pub db : Database
  pub files : Files

-- How the file system answers.
pub record Disk : Type 0 where
  pub create_dir_all : Result Str Unit
  pub write_cert : Result Str Unit
  pub write_key : Result Str Unit

abbrev pub on_db : {A : Type 0} → Exec Database Str A → Exec Store Str A
on_db m s = let (r, db) = m s.db in (r, record s { db = db })

abbrev pub on_files : {A : Type 0} → Exec Files Str A → Exec Store Str A
on_files m s = let (r, files) = m s.files in (r, record s { files = files })

abbrev create_dir : Option Str → Result Str Unit → Result Str Unit
create_dir none created = ok tt
create_dir (some dir) created = map_err (λ e. str "Failed to create cert dir: " ++ e) created

unfoldable pub provision_node_identity :
    {K P Q C : Type 0}
    → Rcgen K P Q C
    → Outside K
    → Option (CaState K C)
    → Disk
    → MqttClientConfig
    → Exec Store Str Unit
unfolding ensure_node_identity parent write
provision_node_identity r o state disk cfg =
    lift (ok_or cfg.certfile (str "provision_node_identity requires a client cert path"))
    >>>= λ certfile.
        lift (ok_or cfg.keyfile (str "provision_node_identity requires a client key path"))
        >>>= λ keyfile. on_db (ensure_node_identity r o state) >>>= λ (cert_pem, key_pem).
            lift (create_dir (parent certfile) disk.create_dir_all) >>>= λ _.
            on_files (
              map_error (λ e. str "Failed to write node cert: " ++ e)
                (write disk.write_cert certfile cert_pem))
            >>>= λ _. on_files (
                map_error (λ e. str "Failed to write node key: " ++ e)
                  (write disk.write_key keyfile key_pem))
