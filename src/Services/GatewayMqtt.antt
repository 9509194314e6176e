-- ===== src/Services/GatewayMqtt.antt =====
-- services/gateway_mqtt/gateway_mqtt_service.rs: the MQTT client of the cloud gateway as a managed service.
-- The configuration, which `start` only hands on to the connection task, is left out.
use place_home.Prelude.{ℕ, Bool, true, false, Option, none, some, [], Result, ok, err}
use place_home.Prelude.Text.{Str, str}
use place_home.Services.Types.{Answers, Channel, Tasks, spawn, signal}

pub record GatewayMqttService : Type 0 where
  pub outbound_tx : Channel
  pub outbound_rx : Option Channel
  pub shutdown_tx : Option Channel
  -- the connection task, while it runs
  pub tasks : Tasks

unfoldable pub new : (outbound : Channel) → GatewayMqttService
new outbound = record {
  outbound_tx = outbound;
  outbound_rx = some outbound;
  shutdown_tx = none;
  tasks = [];
}

abbrev is_some : Option Channel → Bool
is_some none = false
is_some (some _) = true

start_by : Answers → Option Channel → GatewayMqttService → Result Str ℕ × GatewayMqttService
start_by e none s = (err (str "GatewayMqttService already started"), s)
start_by e (some rx) s = (
  ok 0,
  record s { outbound_rx = none; shutdown_tx = some e.channel; tasks = spawn e.channel s.tasks },
)

unfoldable pub start : Answers → GatewayMqttService → Result Str ℕ × GatewayMqttService
unfolding start_by
start e s = start_by e s.outbound_rx s

stop_by : Option Channel → GatewayMqttService → Result Str Unit × GatewayMqttService
stop_by none s = (ok tt, s)
stop_by (some c) s = (ok tt, record s { shutdown_tx = none; tasks = signal c s.tasks })

unfoldable pub stop : Answers → GatewayMqttService → Result Str Unit × GatewayMqttService
unfolding stop_by
stop e s = stop_by s.shutdown_tx s

unfoldable pub is_running : Answers → GatewayMqttService → Bool × GatewayMqttService
is_running e s = (is_some s.shutdown_tx, s)
