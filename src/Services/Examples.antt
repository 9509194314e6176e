-- ===== src/Services/Examples.antt =====
-- Tests of the supervisor and of the managed services.
use place_home.Prelude.{ℕ, Bool, true, false, ◌≡◌, refl, none, some, List, [], ◌∷◌, ok, err}
use place_home.Prelude.Text.{str}
use place_home.Prelude.Map.{lookup, insert}
use place_home.ServiceId.{ServiceId}
use place_home.Supervisor.{
  SupervisorCommand, Supervisor, new, register, handle_start, handle_restart, run,
}
use place_home.Supervisor.Spec.{IsConsistent}
use place_home.Supervisor.Invariant.{
  new-IsConsistent, register-IsConsistent, handle_start-IsConsistent,
}
use place_home.Supervisor.Runs.{run-IsConsistent}
use place_home.Services.Types.{Answers, exited, still_running}
use place_home.Services.Gateway
use place_home.Services.MqttClient
use place_home.Services.GatewayMqtt
use place_home.Services.Managed.{Service, dyn_service}
use place_home.Services.Restart.{restart-mqtt_client_fails, gateway_tls_failure, CanServe}
use place_home.Services.Loops.{Call}

-- All is well outside; the next channel is `c`.
abbrev fine : ℕ → Answers
fine c = record {
  channel = c;
  second_channel = ℕ.suc c;
  bound = ok tt;
  local_addr = ok tt;
  tls_config = ok tt;
  mqtt_opts = ok tt;
  config_exists = true;
  spawned = ok (some 4711);
  wait = exited;
  try_wait = still_running;
}

abbrev no_certificate : Answers
no_certificate = record (fine 1) { tls_config = err (str "no certificate") }

abbrev https : Gateway.GatewayService
https = record { addr = str "0.0.0.0:8080"; tls_enabled = true; shutdown_tx = none; tasks = [] }

abbrev client : MqttClient.MqttClientService
client = MqttClient.new 11 12 13 14

abbrev remote : GatewayMqtt.GatewayMqttService
remote = GatewayMqtt.new 21

abbrev empty : Supervisor Service
empty = new

abbrev one : ServiceId → Service → Bool → Supervisor Service
one id svc available = register id svc available empty

one-IsConsistent :
    (id : ServiceId) (svc : Service) (available : Bool) → IsConsistent (one id svc available)
one-IsConsistent id svc available = register-IsConsistent id svc available empty new-IsConsistent

abbrev sup : Supervisor Service
sup = one ServiceId.gateway (Service.gateway https) true

abbrev commands : List (Answers × Answers × SupervisorCommand)
commands =
    (fine 1, fine 3, SupervisorCommand.start ServiceId.gateway)
    ∷ (fine 5, fine 7, SupervisorCommand.restart ServiceId.gateway)
    ∷ (fine 9, fine 11, SupervisorCommand.stop ServiceId.gateway)
    ∷ []

-- The gateway of `sup`, started.
abbrev started : Supervisor Service
started = (handle_start (fine 1) ServiceId.gateway sup).1

started-IsConsistent : IsConsistent started
started-IsConsistent =
    handle_start-IsConsistent (fine 1) ServiceId.gateway sup
      (one-IsConsistent ServiceId.gateway (Service.gateway https) true)

run-IsConsistent_example : IsConsistent (run commands sup)
run-IsConsistent_example =
    run-IsConsistent commands sup (one-IsConsistent ServiceId.gateway (Service.gateway https) true)

abbrev absent : Supervisor Service
absent = one ServiceId.gateway (Service.gateway https) false

abbrev mqtt_sup : Supervisor Service
mqtt_sup = one ServiceId.mqtt_client (Service.mqtt_client client) true

restart-mqtt_client_fails_example :
    (handle_restart
      (fine 3)
      (fine 5)
      ServiceId.mqtt_client
      (handle_start (fine 1) ServiceId.mqtt_client mqtt_sup).1).0
    ≡ err (str "MqttClientService command receiver already consumed")
unfolding lookup insert register MqttClient.new
restart-mqtt_client_fails_example =
    (restart-mqtt_client_fails ServiceId.mqtt_client (fine 1) (fine 3) (fine 5) mqtt_sup client
      (one-IsConsistent ServiceId.mqtt_client (Service.mqtt_client client) true) refl refl).0

abbrev remote_sup : Supervisor Service
remote_sup = one ServiceId.gateway_mqtt_client (Service.gateway_mqtt remote) true

abbrev serving : Gateway.GatewayService
serving = record https { shutdown_tx = some 1; tasks = 1 ∷ [] }

can_serve : (c : ℕ) → CanServe (fine c) serving
can_serve c = record { binds = refl; addressed = refl; secured = λ p. refl }

gateway_tls_failure_example :
    let s = (Gateway.start no_certificate https).1 in
    ((Gateway.start no_certificate https).0 ≡ err (str "no certificate"))
    × (s.tasks ≡ [])
    × ((Gateway.start (fine 3) s).0 ≡ err (str "GatewayService is already running"))
    × ((Gateway.start (fine 3) (Gateway.stop (fine 3) s).1).0 ≡ ok 0)
gateway_tls_failure_example =
    gateway_tls_failure https no_certificate (fine 3) (str "no certificate") refl refl refl refl
      refl (record { binds = refl; addressed = refl; secured = λ p. refl })

abbrev calls : List Call
calls = Call.start no_certificate ∷ Call.stop (fine 1) ∷ Call.start (fine 3) ∷ []
