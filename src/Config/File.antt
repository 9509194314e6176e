-- ===== src/Config/File.antt =====
-- `write_config` of config.rs: the text of mosquitto.conf.
use place_home.Prelude.{
  Bool, true, false, Option, some, List, [], ◌∷◌, ◌++◌, Result, ok, err, if◌then◌else◌, ◌≡◌,
}
use place_home.Prelude.Text.{Str, str}
use place_home.Config.{MqttBrokerageConfig}
use place_home.Config.Parsing.{to_string, has_parent}

-- How the file system answers, and what a write that fails leaves in the file.
pub record FileSystem : Type 0 where
  pub create_dir_all : Result Str Unit
  pub write : Result Str Unit
  pub left : Option Str

-- The pieces of `format!`, in order.
abbrev pub format : List Str → Str
format [] = []
format (piece ∷ pieces) = piece ++ format pieces

write_by : Option Str → Str → Result Str Unit → Result Str Unit × Option Str
write_by left text (ok _) = (ok tt, some text)
write_by left text (err e) = (err (str "Failed to write mosquitto.conf: " ++ e), left)

create_by : FileSystem → Str → Option Str → Result Str Unit → Result Str Unit × Option Str
unfolding write_by
create_by fs text file (ok _) = write_by fs.left text fs.write
create_by fs text file (err e) = (err (str "Failed to create config dir: " ++ e), file)

module _ {Ip : Type 0} where
  unfoldable pub listener : MqttBrokerageConfig Ip → Str
  listener c =
      if c.tls_enabled
      then format (
          str "listener "
          ∷ to_string c.mqtts_port
          ∷ str "\nprotocol mqtt\ncafile "
          ∷ c.cafile
          ∷ str "\ncertfile "
          ∷ c.certfile
          ∷ str "\nkeyfile "
          ∷ c.keyfile
          ∷ str "\ntls_version tlsv1.2\nrequire_certificate true\nuse_identity_as_username true\n"
          ∷ [])
      else format (
          str "listener "
          ∷ to_string c.port
          ∷ str "\nallow_anonymous false\npassword_file "
          ∷ c.password_file
          ∷ str "\n"
          ∷ [])

  unfoldable pub config_text : MqttBrokerageConfig Ip → Str
  config_text c =
      str "# Auto-generated by hamlet\npersistence false\nlog_dest stderr\n\n" ++ listener c

  -- The answer, and the file's contents after it.
  unfoldable pub write_config :
      FileSystem → MqttBrokerageConfig Ip → Option Str → Result Str Unit × Option Str
  unfolding create_by
  write_config fs c file =
      if has_parent c.config_file
      then create_by fs (config_text c) file fs.create_dir_all
      else (err (str "config_file has no parent directory"), file)

write_by-text :
    (left : Option Str) (text after : Str) (w : Result Str Unit)
    → write_by left text w ≡ (ok tt, some after)
    → after ≡ text
unfolding write_by
write_by-text left text after (ok _) h = cc
write_by-text left text after (err e) h = absurd cc

create_by-text :
    (fs : FileSystem) (text after : Str) (file : Option Str) (w : Result Str Unit)
    → create_by fs text file w ≡ (ok tt, some after)
    → after ≡ text
unfolding create_by
create_by-text fs text after file (ok _) h = write_by-text fs.left text after fs.write h
create_by-text fs text after file (err e) h = absurd cc

module _ {Ip : Type 0} (fs : FileSystem) (c : MqttBrokerageConfig Ip) (file : Option Str) where
  write_config-cases :
      (b : Bool) (after : Str)
      → (if b
          then create_by fs (config_text c) file fs.create_dir_all
          else (err (str "config_file has no parent directory"), file))
        ≡ (ok tt, some after)
      → after ≡ config_text c
  write_config-cases true after h = create_by-text fs (config_text c) after file fs.create_dir_all h
  write_config-cases false after h = absurd cc

  -- The text that a successful call leaves.
  pub write_config-text :
      (after : Str) → write_config fs c file ≡ (ok tt, some after) → after ≡ config_text c
  unfolding write_config
  write_config-text after h = write_config-cases (has_parent c.config_file) after h
