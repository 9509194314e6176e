-- ===== src/Services/Managed.antt =====
-- `Box<dyn ManagedService + Send>`: one type for the five implementations, and the trait for it.
use place_home.Prelude.{ℕ, Bool, Result}
use place_home.Prelude.Text.{Str}
use place_home.Supervisor.{ManagedService}
use place_home.Services.Types.{Answers}
use place_home.Services.Gateway
use place_home.Services.MqttClient
use place_home.Services.CloudGateway
use place_home.Services.GatewayMqtt
use place_home.Services.Mosquitto

pub data Service : Type 0 where
  gateway : Gateway.GatewayService → Service
  mqtt_client : MqttClient.MqttClientService → Service
  cloud_gateway : CloudGateway.CloudGatewayService → Service
  gateway_mqtt : GatewayMqtt.GatewayMqttService → Service
  mosquitto : Mosquitto.MosquittoBrokerageService → Service

abbrev boxed : {R S : Type 0} → (S → Service) → R × S → R × Service
boxed c (r, s) = (r, c s)

unfoldable pub start : Answers → Service → Result Str ℕ × Service
start e (gateway s) = boxed gateway (Gateway.start e s)
start e (mqtt_client s) = boxed mqtt_client (MqttClient.start e s)
start e (cloud_gateway s) = boxed cloud_gateway (CloudGateway.start e s)
start e (gateway_mqtt s) = boxed gateway_mqtt (GatewayMqtt.start e s)
start e (mosquitto s) = boxed mosquitto (Mosquitto.start e s)

unfoldable pub stop : Answers → Service → Result Str Unit × Service
stop e (gateway s) = boxed gateway (Gateway.stop e s)
stop e (mqtt_client s) = boxed mqtt_client (MqttClient.stop e s)
stop e (cloud_gateway s) = boxed cloud_gateway (CloudGateway.stop e s)
stop e (gateway_mqtt s) = boxed gateway_mqtt (GatewayMqtt.stop e s)
stop e (mosquitto s) = boxed mosquitto (Mosquitto.stop e s)

unfoldable pub is_running : Answers → Service → Bool × Service
is_running e (gateway s) = boxed gateway (Gateway.is_running e s)
is_running e (mqtt_client s) = boxed mqtt_client (MqttClient.is_running e s)
is_running e (cloud_gateway s) = boxed cloud_gateway (CloudGateway.is_running e s)
is_running e (gateway_mqtt s) = boxed gateway_mqtt (GatewayMqtt.is_running e s)
is_running e (mosquitto s) = boxed mosquitto (Mosquitto.is_running e s)

instance abbrev pub dyn_service : ManagedService Answers Service
dyn_service = record { start = start; stop = stop; is_running = is_running }
