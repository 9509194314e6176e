-- ===== src/Services/MqttClient.antt =====
-- services/mqtt_client/mqtt_client_service.rs: the client of the local broker as a managed service.
-- The configuration, from which only `build_mqtt_opts` reads, is left out.
use place_home.Prelude.{
  ℕ, Bool, true, false, Option, none, some, [], Result, ok, err, if◌then◌else◌,
}
use place_home.Prelude.Text.{Str, str}
use place_home.Services.Types.{Answers, Channel, Tasks, spawn, signal}

pub record MqttClientService : Type 0 where
  pub cmd_tx : Channel
  pub cmd_rx : Option Channel
  pub shutdown_tx : Option Channel
  pub cmd_shutdown_tx : Option Channel
  pub msg_tx : Channel
  pub out_rx : Option Channel
  pub connected_tx : Option Channel
  -- the event loop and the command task, while they run
  pub tasks : Tasks

unfoldable pub new : (cmd msg out connected : Channel) → MqttClientService
new cmd msg out connected = record {
  cmd_tx = cmd;
  cmd_rx = some cmd;
  shutdown_tx = none;
  cmd_shutdown_tx = none;
  msg_tx = msg;
  out_rx = some out;
  connected_tx = some connected;
  tasks = [];
}

abbrev is_some : Option Channel → Bool
is_some none = false
is_some (some _) = true

-- The three `take`s in turn; a missing endpoint ends the function after the earlier ones are gone.
take_by :
    Option Channel
    → Option Channel
    → Option Channel
    → MqttClientService
    → Result Str (Channel × Channel × Channel) × MqttClientService
take_by none out connected s = (err (str "MqttClientService command receiver already consumed"), s)
take_by (some c) none connected s =
    (err (str "MqttClientService outbound receiver already consumed"), record s { cmd_rx = none })
take_by (some c) (some o) none s = (
  err (str "MqttClientService connected sender already consumed"),
  record s { cmd_rx = none; out_rx = none },
)
take_by (some c) (some o) (some n) s =
    (ok (c, o, n), record s { cmd_rx = none; out_rx = none; connected_tx = none })

unfoldable pub take_channels :
    MqttClientService → Result Str (Channel × Channel × Channel) × MqttClientService
unfolding take_by
take_channels s = take_by s.cmd_rx s.out_rx s.connected_tx s

-- `start` after the channels are taken: the options, then the two tasks.
connect : Answers → Result Str Unit → MqttClientService → Result Str ℕ × MqttClientService
connect e (err m) s = (err m, s)
connect e (ok _) s = (
  ok 0,
  record s {
    shutdown_tx = some e.channel;
    cmd_shutdown_tx = some e.second_channel;
    tasks = spawn e.second_channel (spawn e.channel s.tasks);
  },
)

start_taken :
    Answers
    → Result Str (Channel × Channel × Channel)
    → MqttClientService
    → Result Str ℕ × MqttClientService
start_taken e (err m) s = (err m, s)
start_taken e (ok _) s = connect e e.mqtt_opts s

unfoldable pub start : Answers → MqttClientService → Result Str ℕ × MqttClientService
unfolding take_channels connect start_taken
start e s =
    if is_some s.shutdown_tx
    then (err (str "MqttClientService is already running"), s)
    else start_taken e (take_channels s).0 (take_channels s).1

signal_optional : Option Channel → Tasks → Tasks
unfolding signal
signal_optional none tasks = tasks
signal_optional (some c) tasks = signal c tasks

stop_by : Option Channel → MqttClientService → Result Str Unit × MqttClientService
stop_by none s = (err (str "MqttClientService is not running"), s)
stop_by (some c) s = (
  ok tt,
  record s {
    shutdown_tx = none;
    cmd_shutdown_tx = none;
    tasks = signal_optional s.cmd_shutdown_tx (signal c s.tasks);
  },
)

unfoldable pub stop : Answers → MqttClientService → Result Str Unit × MqttClientService
unfolding stop_by signal_optional
stop e s = stop_by s.shutdown_tx s

unfoldable pub is_running : Answers → MqttClientService → Bool × MqttClientService
is_running e s = (is_some s.shutdown_tx, s)
