-- ===== src/Services.antt =====
-- The five implementations of `ManagedService`, and the dynamic dispatch over them.
pub mod Types
pub mod Gateway
pub mod MqttClient
pub mod CloudGateway
pub mod GatewayMqtt
pub mod Mosquitto
pub mod Managed
pub mod Restart
pub mod Registration
pub mod Loops
pub mod Concurrent
pub mod Examples
