-- ===== src/Mqtt.antt =====
-- services/mqtt_client/: what the clients of the local and of the gateway's broker share.
pub mod Identity
pub mod Options
pub mod Client
pub mod Examples
