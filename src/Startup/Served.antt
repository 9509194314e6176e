-- ===== src/Startup/Served.antt =====
-- `App::initialize` of app.rs: what becomes of the HTTP gateway.
use place_home.Prelude.{
  ◌≡◌, Bool, true, false, ◌&&◌, some, ok, refl, subst, List, if◌then◌else◌, arith,
}
use place_home.Prelude.Text.{Str}
use place_home.ServiceId
use place_home.Supervisor.{stopped, Supervisor}
use place_home.Supervisor.View.{view, launched, spec_start}
use place_home.Supervisor.Spec.{IsConsistent, handle_start-refines}
use place_home.Supervisor.Invariant.{handle_start-IsConsistent, handle_start-frame}
use place_home.Services.Managed
use place_home.Services.Managed.{
  Service, dyn_service, gateway, mqtt_client, mosquitto, gateway_mqtt,
}
use place_home.Ca.{Rcgen}
use place_home.Startup.{
  Config, Meets, Boot, prepare, Await, signalled, closed, pending, Started, done, waiting, started,
  Starts, gateway_service, start_last, after_wait, start_services,
}
use place_home.Startup.Prepared.{Leads, Post, On, IsReady, prepare-IsReady}

abbrev pub supervisor : Started → Supervisor Service
supervisor (done sup) = sup
supervisor (waiting sup) = sup

abbrev pub is_pending : Await → Bool
is_pending pending = true
is_pending _ = false

start_last-gateway :
    (e : Starts) (cloud : Bool) (sup : Supervisor Service)
    → IsConsistent sup
    → view (start_last e cloud sup) ServiceId.gateway
      ≡ (spec_start e.gateway ServiceId.gateway (view sup ServiceId.gateway)).1
unfolding start_last
start_last-gateway e false sup h = (handle_start-refines e.gateway ServiceId.gateway sup h).1
start_last-gateway e true sup h =
    rw
      (handle_start-frame e.gateway_mqtt ServiceId.gateway_mqtt_client ServiceId.gateway
        (started e.gateway ServiceId.gateway sup) (ground arith))
      ((handle_start-refines e.gateway ServiceId.gateway sup h).1)

-- The starts that come before the wait.
abbrev first_two : Starts → Supervisor Service → Supervisor Service
first_two e sup =
    started e.mqtt_client ServiceId.mqtt_client (started e.mosquitto ServiceId.mosquitto sup)

first_two-gateway :
    (e : Starts) (sup : Supervisor Service)
    → view (first_two e sup) ServiceId.gateway ≡ view sup ServiceId.gateway
first_two-gateway e sup =
    rw
      (handle_start-frame e.mqtt_client ServiceId.mqtt_client ServiceId.gateway
        (started e.mosquitto ServiceId.mosquitto sup) (ground arith))
      (handle_start-frame e.mosquitto ServiceId.mosquitto ServiceId.gateway sup (ground arith))

first_two-IsConsistent :
    (e : Starts) (sup : Supervisor Service) → IsConsistent sup → IsConsistent (first_two e sup)
first_two-IsConsistent e sup h =
    handle_start-IsConsistent e.mqtt_client ServiceId.mqtt_client _
      (handle_start-IsConsistent e.mosquitto ServiceId.mosquitto sup h)

start_services-gateway :
    (e : Starts) (available cloud : Bool) (connected : Await) (sup : Supervisor Service)
    → IsConsistent sup
    → view (supervisor (start_services e (available, cloud) connected sup)) ServiceId.gateway ≡ (
        if available && is_pending connected
        then view sup ServiceId.gateway
        else (spec_start e.gateway ServiceId.gateway (view sup ServiceId.gateway)).1)
unfolding start_services after_wait
start_services-gateway e false cloud connected sup h = start_last-gateway e cloud sup h
start_services-gateway e true cloud pending sup h = first_two-gateway e sup
start_services-gateway e true cloud signalled sup h =
    rw (start_last-gateway e cloud (first_two e sup) (first_two-IsConsistent e sup h))
      (rw (first_two-gateway e sup) refl)
start_services-gateway e true cloud closed sup h =
    rw (start_last-gateway e cloud (first_two e sup) (first_two-IsConsistent e sup h))
      (rw (first_two-gateway e sup) refl)

module _ {K P Q C Ip : Type 0} (r : Rcgen K P Q C) (params : List Ip → List Str → P)
    (m : Meets K Ip) (config : Config Ip) where
  -- Once the start has prepared everything, from a consistent supervisor, the HTTP gateway is in
  -- the state in which its own start leaves it, whether the services before it start or fail; but
  -- with a broker on the node whose first acknowledgement stays out, the gateway is left stopped.
  pub initialize-gateway :
      (e : Starts) (available cloud : Bool) (connected : Await) (s s' : Boot)
      → IsConsistent s.sup
      → prepare r params m config s ≡ (ok (available, cloud), s')
      → view (supervisor (start_services e (available, cloud) connected s'.sup)) ServiceId.gateway
        ≡ (if available && is_pending connected
            then some (stopped, gateway (gateway_service config.http))
            else (launched (Managed.start e.gateway (gateway (gateway_service config.http)))).1)
  unfolding Leads Post
  initialize-gateway e available cloud connected s s' h p =
      let ready : IsReady r params m config s'.sup =
        subst (λ res. Post (λ _. On (IsReady r params m config)) res) p
          (prepare-IsReady r params m config s h) in
      rw (start_services-gateway e available cloud connected s'.sup ready.0) (rw ready.1 refl)
