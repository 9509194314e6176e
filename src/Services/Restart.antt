-- ===== src/Services/Restart.antt =====
-- services/*/: which services can be started again after a stop, and what `Restart` gives.
use place_home.Prelude.{ℕ, true, ◌≡◌, ap, ◌∙◌, Option, none, some, ◌∷◌, Result, ok, err, arith}
use place_home.Prelude.Text.{Str, str}
use place_home.ServiceId.{ServiceId}
use place_home.Supervisor.{
  ServiceStatus, stopped, running, failed, Supervisor, handle_start, handle_restart,
}
use place_home.Supervisor.View.{Managed, view, spec_start, spec_restart}
use place_home.Supervisor.Spec.{IsConsistent, handle_start-refines}
use place_home.Supervisor.Invariant.{handle_start-IsConsistent}
use place_home.Supervisor.Runs.{handle_restart-refines}
use place_home.Services.Types.{Answers, Channel, signal}
use place_home.Services.Gateway
use place_home.Services.MqttClient
use place_home.Services.GatewayMqtt
use place_home.Services.Managed
use place_home.Services.Managed.{Service, dyn_service}

abbrev consumed : Str
consumed = str "MqttClientService command receiver already consumed"

-- After a first start of an MQTT client that is not running, whatever became of it, a later start
-- after a stop is refused: the first one took the command receiver, and nothing gives it back.
pub mqtt_client_starts_once :
    (s : MqttClient.MqttClientService) (e e' e'' : Answers)
    → s.shutdown_tx ≡ none
    → (MqttClient.start e'' (MqttClient.stop e' (MqttClient.start e s).1).1).0 ≡ err consumed
unfolding MqttClient.start MqttClient.stop
mqtt_client_starts_once s e e' e'' h = ground arith

abbrev status_of : Managed Service → Option ServiceStatus
status_of none = none
status_of (some (s, svc)) = some s

-- The abstract machine of a service, started from `Stopped` and then restarted.
abbrev start_then_restart :
    ServiceId → Answers → Answers → Answers → Managed Service → Result Str Unit × Managed Service
start_then_restart id e e' e'' v = spec_restart e' e'' id (spec_start e id v).1

module _ (id : ServiceId) (e e' e'' : Answers) (sup : Supervisor Service) (h : IsConsistent sup)
    {v : Managed Service} (u : view sup id ≡ v) where
  start_then_restart-refines :
      let sup' = (handle_restart e' e'' id (handle_start e id sup).1).1 in
      ((handle_restart e' e'' id (handle_start e id sup).1).0
        ≡ (start_then_restart id e e' e'' v).0)
      × (view sup' id ≡ (start_then_restart id e e' e'' v).1)
  start_then_restart-refines =
      let sup₁ = (handle_start e id sup).1 in
      let first = (handle_start-refines e id sup h).1 in
      let second = handle_restart-refines e' e'' id sup₁ (handle_start-IsConsistent e id sup h) in
      let path = first ∙ ap (λ (w : Managed Service). (spec_start e id w).1) u in
      (
        second.0 ∙ ap (λ (w : Managed Service). (spec_restart e' e'' id w).0) path,
        second.1 ∙ ap (λ (w : Managed Service). (spec_restart e' e'' id w).1) path,
      )

restarted_mqtt_client :
    (id : ServiceId) (s : MqttClient.MqttClientService) (e e' e'' : Answers)
    → s.shutdown_tx ≡ none
    → let r = start_then_restart id e e' e'' (some (stopped, Service.mqtt_client s)) in
      (r.0 ≡ err consumed) × (status_of r.1 ≡ some (failed consumed))
unfolding MqttClient.start MqttClient.stop Managed.start Managed.stop
restarted_mqtt_client id s e e' e'' h = ground arith

-- Under a consistent supervisor, the MQTT client can be started once: a `Restart` after a `Start`
-- of the stopped client fails and leaves the status `Failed`, whatever the broker and the system
-- answer.
pub restart-mqtt_client_fails :
    (id : ServiceId) (e e' e'' : Answers) (sup : Supervisor Service)
    (s : MqttClient.MqttClientService)
    → IsConsistent sup
    → view sup id ≡ some (stopped, Service.mqtt_client s)
    → s.shutdown_tx ≡ none
    → let r = handle_restart e' e'' id (handle_start e id sup).1 in
      (r.0 ≡ err consumed) × (status_of (view r.1 id) ≡ some (failed consumed))
restart-mqtt_client_fails id e e' e'' sup s h u n =
    let r = start_then_restart-refines id e e' e'' sup h u in
    let spec = restarted_mqtt_client id s e e' e'' n in (r.0 ∙ spec.0, ap status_of r.1 ∙ spec.1)

restarted_gateway_mqtt :
    (id : ServiceId) (s : GatewayMqtt.GatewayMqttService) (e e' e'' : Answers)
    → let r = start_then_restart id e e' e'' (some (stopped, Service.gateway_mqtt s)) in
      r.0 ≡ err (str "GatewayMqttService already started")
unfolding GatewayMqtt.start GatewayMqtt.stop Managed.start Managed.stop
restarted_gateway_mqtt id s e e' e'' = ground arith

-- Under a consistent supervisor, the cloud gateway's MQTT client can be started once: a `Restart`
-- after a `Start` of the stopped client is refused.
pub restart-gateway_mqtt_fails :
    (id : ServiceId) (e e' e'' : Answers) (sup : Supervisor Service)
    (s : GatewayMqtt.GatewayMqttService)
    → IsConsistent sup
    → view sup id ≡ some (stopped, Service.gateway_mqtt s)
    → (handle_restart e' e'' id (handle_start e id sup).1).0
      ≡ err (str "GatewayMqttService already started")
restart-gateway_mqtt_fails id e e' e'' sup s h u =
    (start_then_restart-refines id e e' e'' sup h u).0 ∙ restarted_gateway_mqtt id s e e' e''

-- The listener can be bound, and the TLS configuration built where it is wanted.
pub record CanServe (e : Answers) (s : Gateway.GatewayService) : Type 0 where
  pub binds : e.bound ≡ ok tt
  pub addressed : e.local_addr ≡ ok tt
  pub secured : s.tls_enabled ≡ true → e.tls_config ≡ ok tt

restarted_gateway :
    (id : ServiceId) (s : Gateway.GatewayService) (e' e'' : Answers) (pid : ℕ) {c : Channel}
    → s.shutdown_tx ≡ some c
    → CanServe e'' s
    → spec_restart e' e'' id (some (running pid, Service.gateway s)) ≡ (
      ok tt,
      some (
        running 0,
        Service.gateway
            (record s { shutdown_tx = some e''.channel; tasks = e''.channel ∷ signal c s.tasks }),
      ),
    )
unfolding Gateway.start Gateway.stop Managed.start Managed.stop
restarted_gateway id s e' e'' pid h k = ground arith

-- Under a consistent supervisor, a running HTTP gateway whose listener can be bound again is
-- restarted: its old accept loop is signalled, and one on a new channel runs.
pub restart-gateway_ok :
    (id : ServiceId) (e' e'' : Answers) (sup : Supervisor Service) (s : Gateway.GatewayService)
    (pid : ℕ) {c : Channel}
    → IsConsistent sup
    → view sup id ≡ some (running pid, Service.gateway s)
    → s.shutdown_tx ≡ some c
    → CanServe e'' s
    → let r = handle_restart e' e'' id sup in
      (r.0 ≡ ok tt)
      × (view r.1 id
          ≡ some (
            running 0,
            Service.gateway (record s {
              shutdown_tx = some e''.channel;
              tasks = e''.channel ∷ signal c s.tasks;
            }),
          ))
restart-gateway_ok id e' e'' sup s pid h u k can =
    let r = handle_restart-refines e' e'' id sup h in
    let spec =
      ap (λ (v : Managed Service). spec_restart e' e'' id v) u
      ∙ restarted_gateway id s e' e'' pid k can in
    (r.0 ∙ ap (λ p. p.0) spec, r.1 ∙ ap (λ p. p.1) spec)

-- A start of the HTTPS gateway that binds its listener and then fails to build the TLS
-- configuration leaves no accept loop, and yet the next start is refused as already running; after
-- a stop it is possible again.
pub gateway_tls_failure :
    (s : Gateway.GatewayService) (e e' : Answers) (m : Str)
    → s.shutdown_tx ≡ none
    → s.tls_enabled ≡ true
    → e.bound ≡ ok tt
    → e.local_addr ≡ ok tt
    → e.tls_config ≡ err m
    → CanServe e' s
    → let s₁ = (Gateway.start e s).1 in
      ((Gateway.start e s).0 ≡ err m)
      × (s₁.tasks ≡ s.tasks)
      × ((Gateway.start e' s₁).0 ≡ err (str "GatewayService is already running"))
      × ((Gateway.start e' (Gateway.stop e' s₁).1).0 ≡ ok 0)
unfolding Gateway.start Gateway.stop
gateway_tls_failure s e e' m h t b l f can = ground arith
