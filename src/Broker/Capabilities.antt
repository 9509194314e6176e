-- ===== src/Broker/Capabilities.antt =====
-- services/capabilities.rs, and `set_password` and `delete_user` of
-- services/mqtt_brokerage/mosquitto_brokerage_service.rs: the programs that are run.
use place_home.Prelude.{
  Bool, true, false, not, Option, none, some, List, [], ◌∷◌, ◌++◌, Result, ok, err, ok_or, ◌>>=◌,
  if◌then◌else◌,
}
use place_home.Prelude.Text.{Str, str, str_eq, str_has_eq}
use place_home.Prelude.Map.{lookup, insert}
use place_home.Config.Parsing.{trim, split}

pub record BinaryInfo : Type 0 where
  pub path : Str
  pub version : Option Str

pub record Command : Type 0 where
  pub program : Str
  pub args : List Str

pub record Output : Type 0 where
  pub success : Bool
  pub stdout : Str
  pub stderr : Str

-- How the system answers a command that is run, its texts already read as UTF-8.
abbrev pub Shell : Type 0
Shell = Command → Result Str Output

-- `lines().next()` and its `trim`: none of an empty text or an empty line.
first_line : Str → Option Str
first_line text = elim (split b'\n' text) [
  | [] ↦ none
  | line ∷ _ ↦ if str_eq (trim line) [] then none else some (trim line)
]

version_of : Result Str Output → Option Str
unfolding first_line
version_of (err e) = none
version_of (ok o) = first_line (if str_eq o.stdout [] then o.stderr else o.stdout)

detected : Shell → Result Str Output → Option BinaryInfo
unfolding version_of
detected run (err e) = none
detected run (ok o) =
    let info : BinaryInfo = record {
      path = trim o.stdout;
      version = version_of (run (record { program = trim o.stdout; args = str "--version" ∷ [] }));
    } in
    if o.success then some info else none

unfoldable pub detect_binary : Shell → Str → Option BinaryInfo
unfolding detected trim split
detect_binary run name = detected run (run (record { program = str "which"; args = name ∷ [] }))

abbrev pub ServiceCapabilities : Type 0
ServiceCapabilities = List (Str × Option BinaryInfo)

detect_from : Shell → List Str → ServiceCapabilities → ServiceCapabilities
detect_from run [] found = found
detect_from run (name ∷ names) found =
    detect_from run names (insert name (detect_binary run name) found)

unfoldable pub detect_capabilities : Shell → List Str → ServiceCapabilities
unfolding detect_from
detect_capabilities run names = detect_from run names []

is_found : Option (Option BinaryInfo) → Bool
is_found (some (some info)) = true
is_found _ = false

unfoldable pub is_available : ServiceCapabilities → Str → Bool
unfolding is_found
is_available c binary = is_found (lookup binary c)

path_of : Option (Option BinaryInfo) → Option Str
path_of (some (some info)) = some info.path
path_of _ = none

unfoldable pub binary_path : ServiceCapabilities → Str → Option Str
unfolding path_of
binary_path c binary = path_of (lookup binary c)

-- The check of `output.status`.
succeeded : Result Str Output → Result Str Unit
succeeded (err e) = err (str "Failed to run mosquitto_passwd: " ++ e)
succeeded (ok o) = if o.success then ok tt else err (str "mosquitto_passwd failed: " ++ o.stderr)

-- The command that sets a password: it makes the file only where there is none.
unfoldable pub password_command : Str → (file : Str) → (exists : Bool) → Str → Str → Command
password_command passwd_bin file exists username password = record {
  program = passwd_bin;
  args =
      if not exists
      then str "-c" ∷ str "-b" ∷ file ∷ username ∷ password ∷ []
      else str "-b" ∷ file ∷ username ∷ password ∷ [];
}

unfoldable pub set_password :
    Shell → Option Str → (file : Str) → (exists : Bool) → Str → Str → Result Str Unit
unfolding password_command succeeded
set_password run password_binary file exists username password =
    ok_or password_binary (str "mosquitto_passwd is not installed") >>= λ passwd_bin.
    succeeded (run (password_command passwd_bin file exists username password))

unfoldable pub delete_user :
    Shell → Option Str → (file : Str) → (exists : Bool) → Str → Result Str Unit
unfolding succeeded
delete_user run password_binary file exists username =
    ok_or password_binary (str "mosquitto_passwd is not installed") >>= λ passwd_bin.
    if not exists
    then err (str "Password file does not exist")
    else succeeded (run (record { program = passwd_bin; args = str "-D" ∷ file ∷ username ∷ [] }))
