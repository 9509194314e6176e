-- ===== src/Services/Gateway.antt =====
-- services/beacon_management/gateway_service.rs: the HTTP(S) gateway as a managed service.
-- The fields that `start` only hands on to the connections (the CA, the brokerage info and handle,
-- the topic sender, the upstream port) are left out; `addr` is `host:port` of the configuration.
use place_home.Prelude.{
  Bool, true, false, Option, none, some, List, Result, ok, err, ◌>>◌, map_err, ◌++◌, if◌then◌else◌,
  ℕ,
}
use place_home.Prelude.Text.{Str, str}
use place_home.Services.Types.{Answers, Channel, Tasks, spawn, signal}

pub record GatewayService : Type 0 where
  pub addr : Str
  pub tls_enabled : Bool
  pub shutdown_tx : Option Channel
  -- the accept loops that run
  pub tasks : Tasks

unfoldable pub new : Str → Bool → GatewayService
new addr tls_enabled = record {
  addr = addr;
  tls_enabled = tls_enabled;
  shutdown_tx = none;
  tasks = List.[];
}

abbrev is_some : Option Channel → Bool
is_some none = false
is_some (some _) = true

-- `initialize` binds the listener and makes the shutdown channel.
initialize : Answers → GatewayService → Result Str Channel
initialize e s = do
  map_err (λ m. str "Failed to bind listener on " ++ (s.addr ++ (str ": " ++ m))) e.bound
  map_err (λ m. str "Failed to get local address: " ++ m) e.local_addr
  ok e.channel

-- The part of `start` after `initialize`: the sender is stored before the TLS configuration is
-- built.
serve : Answers → Channel → GatewayService → Result Str ℕ × GatewayService
serve e c s =
    let stored = record s { shutdown_tx = some c } in
    let serving = record stored { tasks = spawn c stored.tasks } in
    if s.tls_enabled
    then elim e.tls_config [ err m ↦ (err m, stored) | ok _ ↦ (ok 0, serving) ]
    else (ok 0, serving)

start_fresh : Answers → Result Str Channel → GatewayService → Result Str ℕ × GatewayService
start_fresh e (err m) s = (err m, s)
start_fresh e (ok c) s = serve e c s

unfoldable pub start : Answers → GatewayService → Result Str ℕ × GatewayService
unfolding initialize serve start_fresh
start e s =
    if is_some s.shutdown_tx
    then (err (str "GatewayService is already running"), s)
    else start_fresh e (initialize e s) s

stop_by : Option Channel → GatewayService → Result Str Unit × GatewayService
stop_by none s = (err (str "GatewayService is not running"), s)
stop_by (some c) s = (ok tt, record s { shutdown_tx = none; tasks = signal c s.tasks })

unfoldable pub stop : Answers → GatewayService → Result Str Unit × GatewayService
unfolding stop_by
stop e s = stop_by s.shutdown_tx s

unfoldable pub is_running : Answers → GatewayService → Bool × GatewayService
is_running e s = (is_some s.shutdown_tx, s)
