-- ===== src/Services/CloudGateway.antt =====
-- services/cloud_gateway/cloud_gateway_service.rs: the WebSocket client of the cloud gateway as a managed service.
-- The configuration, which `start` only hands on to the connection task, is left out.
use place_home.Prelude.{ℕ, Bool, true, false, Option, none, some, [], Result, ok, err}
use place_home.Prelude.Text.{Str, str}
use place_home.Services.Types.{Answers, Channel, Tasks, spawn, signal}

pub record CloudGatewayService : Type 0 where
  pub outbound_tx : Channel
  pub outbound_rx : Option Channel
  pub shutdown_tx : Option Channel
  -- the connection task, while it runs
  pub tasks : Tasks

unfoldable pub new : (outbound : Channel) → CloudGatewayService
new outbound = record {
  outbound_tx = outbound;
  outbound_rx = some outbound;
  shutdown_tx = none;
  tasks = [];
}

abbrev is_some : Option Channel → Bool
is_some none = false
is_some (some _) = true

start_by : Answers → Option Channel → CloudGatewayService → Result Str ℕ × CloudGatewayService
start_by e none s = (err (str "CloudGatewayService already started"), s)
start_by e (some rx) s = (
  ok 0,
  record s { outbound_rx = none; shutdown_tx = some e.channel; tasks = spawn e.channel s.tasks },
)

unfoldable pub start : Answers → CloudGatewayService → Result Str ℕ × CloudGatewayService
unfolding start_by
start e s = start_by e s.outbound_rx s

stop_by : Option Channel → CloudGatewayService → Result Str Unit × CloudGatewayService
stop_by none s = (ok tt, s)
stop_by (some c) s = (ok tt, record s { shutdown_tx = none; tasks = signal c s.tasks })

unfoldable pub stop : Answers → CloudGatewayService → Result Str Unit × CloudGatewayService
unfolding stop_by
stop e s = stop_by s.shutdown_tx s

unfoldable pub is_running : Answers → CloudGatewayService → Bool × CloudGatewayService
is_running e s = (is_some s.shutdown_tx, s)
