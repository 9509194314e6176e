-- ===== src/Services/Registration/Disabled.antt =====
-- The managers of services/cloud_gateway, services/gateway_mqtt and services/mqtt_brokerage: what the
-- supervisor says of a service that is disabled or not installed.
use place_home.Prelude.{
  ℕ, ◌≡◌, refl, Bool, true, false, ◌&&◌, Option, none, some, List, [], ◌∷◌, ◌++◌, err,
  if◌then◌else◌, ◌⊎◌, inl, inr, Option-cases,
}
use place_home.Prelude.Text.{Str, str}
use place_home.Prelude.Map.{lookup, lookup-insert_self}
use place_home.ServiceId
use place_home.ServiceId.{debug, service_id_eq}
use place_home.Supervisor.{
  stopped, unavailable, Supervisor, SupervisorCommand, register, run, handle_start,
}
use place_home.Supervisor.View.{view}
use place_home.Supervisor.Spec.{IsConsistent}
use place_home.Supervisor.Invariant.{register-IsConsistent}
use place_home.Supervisor.Runs.{run-unavailable}
use place_home.Services.Types.{Answers, Channel}
use place_home.Services.Managed.{Service, dyn_service, mosquitto}
use place_home.Services.Mosquitto
use place_home.Config.{Env, gateway_registration_from_env, MqttBrokerageConfig}
use place_home.Config.File.{FileSystem}
use place_home.Broker.Capabilities.{ServiceCapabilities, is_available, Shell}
use place_home.Services.Registration.{
  gateway_mqtt_by, register_gateway_mqtt, register_cloud_gateway, register_mosquitto,
}

-- A variable that is set to some text.
abbrev is_filled : Option Str → Bool
is_filled (some (c ∷ s)) = true
is_filled _ = false

text_cases :
    (o : Option Str) → (o ≡ none) ⊎ (o ≡ some []) ⊎ ((c : ℕ) × (s : Str) × (o ≡ some (c ∷ s)))
text_cases none = inl refl
text_cases (some []) = inr (inl refl)
text_cases (some (c ∷ s)) = inr (inr (c, s, refl))

abbrev is_set : Option Str → Bool
is_set none = false
is_set (some s) = true

abbrev pub is_enabled : Env → Bool
is_enabled env =
    is_set (env (str "PLACENET_GATEWAY_URL"))
    && (is_filled (env (str "PLACENET_GATEWAY_USERNAME"))
        && is_filled (env (str "PLACENET_GATEWAY_PASSWORD")))

-- Start-up registers the cloud gateway's MQTT client exactly if the environment names a gateway and
-- a user and a password that are not empty; otherwise it leaves the supervisor as it is.
pub register_gateway_mqtt-is_enabled :
    (c : Channel) (env : Env) (sup : Supervisor Service)
    → let sup' = (register_gateway_mqtt c (gateway_registration_from_env env) sup).1 in
      lookup ServiceId.gateway_mqtt_client sup'.statuses
      ≡ (if is_enabled env then some stopped else lookup ServiceId.gateway_mqtt_client sup.statuses)
unfolding register_gateway_mqtt gateway_mqtt_by gateway_registration_from_env register
register_gateway_mqtt-is_enabled c env sup =
    elim (Option-cases (env (str "PLACENET_GATEWAY_URL"))) [
      | inl u ↦ rw u refl
      | inr (url, u) ↦ elim (text_cases (env (str "PLACENET_GATEWAY_USERNAME"))) [
        | inl n ↦ rw u (rw n refl)
        | inr (inl n) ↦ rw u (rw n refl)
        | inr (inr (a, user, n)) ↦ elim (text_cases (env (str "PLACENET_GATEWAY_PASSWORD"))) [
          | inl p ↦ rw u (rw n (rw p refl))
          | inr (inl p) ↦ rw u (rw n (rw p refl))
          | inr (inr (b, password, p)) ↦ rw u (rw n (rw p (lookup-insert_self _ _ _)))
        ]
      ]
    ]

-- Without a URL the cloud gateway's client is not registered as unavailable, but not at all: a start
-- is answered with an error that says so.
pub cloud_gateway-unregistered :
    (c : Channel) (e : Answers) (sup : Supervisor Service)
    → lookup ServiceId.cloud_gateway sup.statuses ≡ none
    → (handle_start e ServiceId.cloud_gateway (register_cloud_gateway c none sup).1).0
      ≡ err (debug ServiceId.cloud_gateway ++ str " is not registered")
unfolding register_cloud_gateway handle_start
cloud_gateway-unregistered c e sup h = rw h refl

view-register :
    (id : ServiceId.ServiceId) (svc : Service) (sup : Supervisor Service)
    → view (register id svc false sup) id ≡ some (unavailable, svc)
unfolding register
view-register id svc sup =
    rw (lookup-insert_self id unavailable sup.statuses)
      (rw (lookup-insert_self id svc sup.services) refl)

module _ {Ip : Type 0} (fs : FileSystem) (shell : Shell) (c : ServiceCapabilities)
    (config : MqttBrokerageConfig Ip) where
  -- On a node without Mosquitto, the registration of the broker writes no file and sets no password,
  -- and no command that the supervisor runs later starts the broker or stops it.
  pub register_mosquitto-unavailable :
      (exists : Bool) (file : Option Str) (sup : Supervisor Service)
      (cmds : List (Answers × Answers × SupervisorCommand))
      → IsConsistent sup
      → is_available c (str "mosquitto") ≡ false
      → let r = register_mosquitto fs shell c config exists file sup in
        (r.0.1 ≡ none)
        × (r.1.0 ≡ file)
        × (view (run cmds r.1.1) ServiceId.mosquitto
            ≡ some (unavailable, mosquitto (Mosquitto.new config.config_file)))
  unfolding register_mosquitto
  register_mosquitto-unavailable exists file sup cmds h a =
      let service = mosquitto (Mosquitto.new config.config_file) in
      rw a (
        refl,
        refl,
        run-unavailable cmds ServiceId.mosquitto (register ServiceId.mosquitto service false sup)
            service (register-IsConsistent ServiceId.mosquitto service false sup h)
            (view-register ServiceId.mosquitto service sup),
      )
