-- ===== src/GatewayLink.antt =====
-- services/gateway_mqtt/: the link to the cloud gateway, from the login over HTTPS to the MQTT
-- connection with the credentials that the gateway returned.
pub mod Protocol
pub mod Url
pub mod Login
pub mod Trust
pub mod Task
pub mod Examples
