-- ===== src/GatewayLink/Protocol.antt =====
-- services/gateway_mqtt/protocol.rs: what goes over the wire to the cloud gateway.
use place_home.Prelude.{ℕ}
use place_home.Prelude.Text.{Str}

pub record LoginRequest : Type 0 where
  pub username : Str
  pub password : Str

pub record BrokerInfo : Type 0 where
  pub host : Str
  pub port : ℕ

pub record DeviceTopics : Type 0 where
  pub cmds : Str
  pub connect : Str
  pub notify : Str

pub record LoginResponse : Type 0 where
  pub protocol_version : Str
  pub device_id : Str
  pub mqtt_username : Str
  pub mqtt_password : Str
  pub broker : BrokerInfo
  pub topics : DeviceTopics

pub data Envelope : Type 0 where
  alive : (device_id : Str) → Envelope
