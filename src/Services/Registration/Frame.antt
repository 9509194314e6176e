-- ===== src/Services/Registration/Frame.antt =====
-- The registrations of the managers: what they leave of the other services.
use place_home.Prelude.{
  ◌≡◌, ◌≢◌, refl, Bool, true, ◌||◌, Option, none, some, [], Bool-cases, inl, inr, if◌then◌else◌,
}
use place_home.Prelude.Text.{Str, str_eq}
use place_home.Prelude.Map.{lookup-insert_self, lookup-insert_ne}
use place_home.ServiceId
use place_home.ServiceId.{service_id_eq}
use place_home.Supervisor.{stopped, unavailable, Supervisor, register}
use place_home.Supervisor.View.{view}
use place_home.Services.Types.{Channel}
use place_home.Services.Managed.{Service, gateway_mqtt}
use place_home.Services.GatewayMqtt
use place_home.Config.{GatewayRegistrationConfig}
use place_home.Services.Registration.{gateway_mqtt_by, register_gateway_mqtt}

pub register-view :
    (id : ServiceId.ServiceId) (svc : Service) (sup : Supervisor Service)
    → view (register id svc true sup) id ≡ some (stopped, svc)
unfolding register
register-view id svc sup =
    rw (lookup-insert_self id stopped sup.statuses)
      (rw (lookup-insert_self id svc sup.services) refl)

pub register-frame :
    (id j : ServiceId.ServiceId) (svc : Service) (available : Bool) (sup : Supervisor Service)
    → id ≢ j
    → view (register id svc available sup) j ≡ view sup j
unfolding register
register-frame id j svc available sup n =
    rw (lookup-insert_ne id j (if available then stopped else unavailable) sup.statuses n)
      (rw (lookup-insert_ne id j svc sup.services n) refl)

-- What holds of a supervisor and of one with another service of the cloud gateway holds after its
-- registration.
module _ (P : Supervisor Service → Type 0) (sup : Supervisor Service) (c : Channel) where
  gateway_mqtt_by-holds :
      (cfg : GatewayRegistrationConfig) (o : Option Str)
      → P sup
      → P (register ServiceId.gateway_mqtt_client (gateway_mqtt (GatewayMqtt.new c)) true sup)
      → P (gateway_mqtt_by c cfg o sup).1
  unfolding gateway_mqtt_by
  gateway_mqtt_by-holds cfg none a b = a
  gateway_mqtt_by-holds cfg (some url) a b =
      elim (Bool-cases (str_eq cfg.username [] || str_eq cfg.password [])) [
        | inl e ↦ rw e a
        | inr e ↦ rw e b
      ]

  pub register_gateway_mqtt-holds :
      (cfg : GatewayRegistrationConfig)
      → P sup
      → P (register ServiceId.gateway_mqtt_client (gateway_mqtt (GatewayMqtt.new c)) true sup)
      → P (register_gateway_mqtt c cfg sup).1
  unfolding register_gateway_mqtt
  register_gateway_mqtt-holds cfg a b = gateway_mqtt_by-holds cfg cfg.gateway_url a b
