-- ===== src/ServiceId.antt =====
-- services/mod.rs: the identifiers of the managed services.
use place_home.Prelude.{ℕ, ◌≡◌, ◌↔◌, true, arith, Eq, eqb}
use place_home.Prelude.Text.{Str, str}

pub data ServiceId : Type 0 where
  gateway mosquitto mqtt_client cloud_gateway gateway_mqtt_client : ServiceId

-- The order of declaration, by which two identifiers are compared.
abbrev pub index : ServiceId → ℕ
index gateway = 0
index mosquitto = 1
index mqtt_client = 2
index cloud_gateway = 3
index gateway_mqtt_client = 4

pub index-injective : (a b : ServiceId) → index a ≡ index b → a ≡ b
index-injective a b h = ground arith

pub index_iff : (a b : ServiceId) → (eqb (index a) (index b) ≡ true) ↔ (a ≡ b)
index_iff a b = ground (arith, index-injective a b)

instance abbrev pub service_id_eq : Eq ServiceId
service_id_eq = record { eq = λ a b. eqb (index a) (index b); eq_reflects = index_iff }

-- The derived `Debug`, which error messages print.
pub debug : ServiceId → Str
debug gateway = str "Gateway"
debug mosquitto = str "Mosquitto"
debug mqtt_client = str "MqttClient"
debug cloud_gateway = str "CloudGateway"
debug gateway_mqtt_client = str "GatewayMqttClient"
