-- ===== src/Startup/Prepared.antt =====
-- `App::initialize` of app.rs: what the preparation leaves of the supervisor.
use place_home.Prelude.{
  ◌≡◌, ◌≢◌, Bool, true, false, some, Result, ok, err, Exec, ◌>>>=◌, lift, List, arith,
}
use place_home.Prelude.Text.{Str, str}
use place_home.Broker.Capabilities.{is_available, detect_capabilities}
use place_home.ServiceId
use place_home.Supervisor.{stopped, Supervisor, register}
use place_home.Supervisor.View.{view}
use place_home.Supervisor.Spec.{IsConsistent}
use place_home.Supervisor.Invariant.{register-IsConsistent}
use place_home.Services.Managed.{
  Service, dyn_service, gateway, mqtt_client, mosquitto, gateway_mqtt,
}
use place_home.Services.MqttClient
use place_home.Services.Mosquitto
use place_home.Services.GatewayMqtt
use place_home.Services.Registration.{register_mosquitto, register_mqtt_client}
use place_home.Services.Registration.Frame.{
  register-view, register-frame, register_gateway_mqtt-holds,
}
use place_home.Ca.{Rcgen}
use place_home.Ca.Service.{register as register_ca}
use place_home.Broker.Interfaces.{get_local_ips}
use place_home.Broker.Identities.{provision_mqtt_broker_cert, ca_cert_pem}
use place_home.Startup.{
  Config, Meets, Boot, gateway_service, register_first, register_rest, prepare, Available, when,
  on_store, is_mutual, required_binaries,
}
use place_home.Mqtt.Identity.{Store, on_db, on_files, provision_node_identity}

-- What a computation that succeeds leaves.
unfoldable pub Post : {S A : Type 0} → (A → S → Type 0) → Result Str A × S → Type 0
Post Q (ok a, s) = Q a s
Post Q (err e, s) = Unit

unfoldable pub Leads : {S A : Type 0} → (S → Type 0) → Exec S Str A → (A → S → Type 0) → Type 0
unfolding Post
Leads {S} P m Q = (s : S) → P s → Post Q (m s)

module _ {S A B : Type 0} (Q : S → Type 0) (R : B → S → Type 0) (k : A → Exec S Str B) where
  then_by :
      (r : Result Str A × S) (s : S)
      → Post (λ _. Q) r
      → ((a : A) → Leads Q (k a) R)
      → Post R (((λ _. r) >>>= k) s)
  unfolding Post Leads
  then_by (ok a, s') s q h = h a s' q
  then_by (err e, s') s q h = tt

-- The sequence of two computations, the first of which leaves `Q`.
Leads-then :
    {S A B : Type 0} (P Q : S → Type 0) (R : B → S → Type 0) (m : Exec S Str A)
    (k : A → Exec S Str B)
    → Leads P m (λ _. Q)
    → ((a : A) → Leads Q (k a) R)
    → Leads P (m >>>= k) R
unfolding Leads
Leads-then P Q R m k first second s p = then_by Q R k (m s) s (first s p) second

abbrev Keeps : {S A : Type 0} → (S → Type 0) → Exec S Str A → Type 0
Keeps P m = Leads P m (λ _. P)

Keeps-lift : {S A : Type 0} (P : S → Type 0) (r : Result Str A) → Keeps P (lift r)
unfolding Post Leads
Keeps-lift P (ok a) s p = p
Keeps-lift P (err e) s p = tt

-- What is said of the supervisor alone is kept by all that is done to the store.
module _ (P : Supervisor Service → Type 0) where
  abbrev pub On : Boot → Type 0
  On s = P s.sup

  on_store_by :
      {A : Type 0} (r : Result Str A × Store) (s : Boot)
      → On s
      → Post (λ _. On) (on_store (λ _. r) s)
  unfolding Post
  on_store_by (ok a, store) s p = p
  on_store_by (err e, store) s p = tt

  Keeps-on_store : {A : Type 0} (m : Exec Store Str A) → Keeps On (on_store m)
  unfolding Leads
  Keeps-on_store m s p = on_store_by (m s.store) s p

  Keeps-when : (b : Bool) (m : Exec Store Str Unit) → Keeps On (when b (on_store m))
  unfolding Post Leads
  Keeps-when true m s p = on_store_by (m s.store) s p
  Keeps-when false m s p = p

module _ {K P Q C Ip : Type 0} (r : Rcgen K P Q C) (params : List Ip → List Str → P)
    (m : Meets K Ip) (config : Config Ip) where
  abbrev pub http_gateway : Service
  http_gateway = gateway (gateway_service config.http)

  -- The gateway is registered and not started.
  abbrev pub IsReady : Supervisor Service → Type 0
  IsReady sup = IsConsistent sup × (view sup ServiceId.gateway ≡ some (stopped, http_gateway))

  register-IsReady :
      (id : ServiceId.ServiceId) (svc : Service) (available : Bool) (sup : Supervisor Service)
      → id ≢ ServiceId.gateway
      → IsReady sup
      → IsReady (register id svc available sup)
  register-IsReady id svc available sup n (consistent, v) = (
    register-IsConsistent id svc available sup consistent,
    rw (register-frame id ServiceId.gateway svc available sup n) v,
  )

  register_first-IsReady :
      (s : Boot) → IsConsistent s.sup → IsReady (register_first r params m config s).1.sup
  unfolding register_first register_mosquitto detect_capabilities
  register_first-IsReady s h =
      let mosquitto_too =
        register-IsConsistent ServiceId.mosquitto
          (mosquitto (Mosquitto.new config.mqtt_brokerage.config_file))
          (is_available (detect_capabilities m.shell required_binaries) (str "mosquitto")) s.sup
          h in
      (
        register-IsConsistent ServiceId.gateway http_gateway true _ mosquitto_too,
        register-view ServiceId.gateway http_gateway _,
      )

  register_rest-IsReady :
      (available : Bool) (s : Boot)
      → IsReady s.sup
      → IsReady (register_rest r params m config available s).1.sup
  unfolding register_rest register_mqtt_client
  register_rest-IsReady available s h =
      let client_too =
        register-IsReady ServiceId.mqtt_client
          (mqtt_client (MqttClient.new m.cmd m.msg m.out m.connected)) available s.sup
          (ground arith) h in
      register_gateway_mqtt-holds IsReady _ m.outbound config.gateway_registration client_too (
        register-IsReady ServiceId.gateway_mqtt_client (gateway_mqtt (GatewayMqtt.new m.outbound))
          true _ (ground arith) client_too)

  register_first-leads :
      Leads
        (On IsConsistent)
        (λ s. let (b, s') = register_first r params m config s in (ok b, s'))
        (λ _. On IsReady)
  unfolding Leads Post
  register_first-leads s h = register_first-IsReady s h

  register_rest-leads :
      (a : Bool)
      → Leads {A = Available}
          (On IsReady)
          (λ s. let (b, s') = register_rest r params m config a s in (ok (a, b), s'))
          (λ _. On IsReady)
  unfolding Leads Post
  register_rest-leads a s h = register_rest-IsReady a s h

  pub prepare-IsReady : Leads (On IsConsistent) (prepare r params m config) (λ _. On IsReady)
  unfolding prepare
  prepare-IsReady =
      let consistent = On IsConsistent in
      let ready = On IsReady in
      Leads-then consistent consistent _ _ _
        (Keeps-on_store IsConsistent (on_db (register_ca r m.opening m.ca)))
        λ ca. Leads-then consistent consistent _ _ _ (Keeps-lift _ (ca_cert_pem r (some ca))) λ _.
          Leads-then consistent consistent _ _ _
            (Keeps-when IsConsistent config.mqtt_brokerage.tls_enabled (
              on_files (
                provision_mqtt_broker_cert r m.broker_key params (some ca) m.broker_disk
                  (get_local_ips m.ip_addr m.interfaces) config.mqtt_brokerage)))
            λ _. Leads-then consistent ready _ _ _ register_first-leads λ available.
              Leads-then ready ready _ _ _
                (Keeps-when IsReady (is_mutual config.mqtt_client.tls_mode)
                  (provision_node_identity r m.node (some ca) m.node_disk config.mqtt_client))
                λ _. register_rest-leads available
