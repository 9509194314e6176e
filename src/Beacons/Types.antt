-- ===== src/Beacons/Types.antt =====
-- The messages and settings that the parts of the beacon management exchange
-- (services/beacon_management/manager.rs, internals/types.rs, services/cloud_gateway/messages.rs).
use place_home.Prelude.{ℕ, Bool, Option, none, some, ◌==◌, if◌then◌else◌}
use place_home.Prelude.Text.{Str, str_has_eq}

pub data TopicType : Type 0 where
  listen broadcast hybrid : TopicType

pub record MqttTopicConfig : Type 0 where
  pub topic : Str
  pub qos : ℕ

pub record TopicChannel : Type 0 where
  pub beacon_id : Str
  pub topic : MqttTopicConfig
  pub topic_type : TopicType

-- `rumqttc::QoS`
pub data QoS : Type 0 where
  at_most_once at_least_once exactly_once : QoS

-- `serde_json::Value`; numbers are kept as their text.
mutual
  pub data Json : Type 0 where
    null : Json
    bool : Bool → Json
    number : Str → Json
    string : Str → Json
    array : Elements → Json
    object : Fields → Json

  pub data Elements : Type 0 where
    nil : Elements
    cons : Json → Elements → Elements

  pub data Fields : Type 0 where
    end : Fields
    field : Str → Json → Fields → Fields

-- `obj.get(key)`
unfoldable pub get : Str → Fields → Option Json
get key end = none
get key (field k v fs) = if k == key then some v else get key fs

pub data GatewayMessage : Type 0 where
  register : (server_url : Str) → GatewayMessage
  connect : (target : Str) → GatewayMessage
  connect_request : (from : Str) → GatewayMessage
  beacon_registration : (server_url : Str) → (payload : Json) → GatewayMessage
  relay : (from to : Str) → (payload : Json) → GatewayMessage
  ack : (ok : Bool) → (message : Option Str) → GatewayMessage
