-- ===== src/Beacons/MessageLoop.antt =====
-- `run_beacon_message_loop` of app.rs: topic channels, sweeps and MQTT messages, in the order in
-- which `select!` takes them.
pub mod Pinned
pub mod Dropped
pub mod Live
pub mod Greeted
pub mod Topics
pub mod Stranded
use place_home.Prelude.{
  ℕ, Bool, true, false, Option, none, some, List, [], ◌∷◌, Result, ok, err, if◌then◌else◌,
}
use place_home.Prelude.Text.{Str, str, strip_suffix}
use place_home.Services.Types.{Channel}
use place_home.CloudGateway.Url.{compute_ws_url}
use place_home.Beacons.Types.{
  TopicChannel, Json, string, object, get, GatewayMessage, beacon_registration,
}
use place_home.Beacons.Registry.{
  BeaconRegistry, register_channel, Await, check_timeouts, check_timeouts_until, update_last_seen,
  is_gateway_known, insert_gateway, associate_gateway,
}

-- `serde_json::from_slice` and `String::from_utf8_lossy` on the payload of a message.
pub record Decoder : Type 0 where
  pub from_slice : List ℕ → Option Json
  pub from_utf8_lossy : List ℕ → Str

-- What `connect_to_gateway` starts: the connection task with its shutdown channel, and what has been
-- queued for it.
pub record Connection : Type 0 where
  pub gateway_url : Str
  pub ws_url : Str
  pub server_url : Str
  pub shutdown : Channel
  pub queued : List GatewayMessage

pub record Loop : Type 0 where
  pub registry : BeaconRegistry
  pub connections : List Connection

-- What an iteration takes up. A sweep of `check_timeouts` runs to its end, or is given up at one of
-- its awaits after it has removed some beacons, as another branch of `select!` is ready; one that is
-- given up before its tick does nothing. A message comes with the number of the shutdown channel that a
-- connection would get.
pub data Event : Type 0 where
  channel : (now : ℕ) → (subscribed : Result Str Unit) → TopicChannel → Event
  tick : (now : ℕ) → Event
  given_up : (now done : ℕ) → Await → Event
  message : (now : ℕ) → (topic : Str) → (payload : List ℕ) → (shutdown : Channel) → Event

-- "{beacon_id}/rec"
abbrev beacon_of : Str → Option Str
beacon_of topic = strip_suffix (str "/rec") topic

refresh : ℕ → Option Str → BeaconRegistry → BeaconRegistry
refresh now none reg = reg
refresh now (some id) reg = update_last_seen now id reg

unfoldable pub payload_value : Decoder → List ℕ → Option Json → Json
payload_value d payload none = string (d.from_utf8_lossy payload)
payload_value d payload (some v) = v

as_str : Option Json → Option Str
as_str (some (string s)) = some s
as_str _ = none

-- The chain that reads the field `gateway_url` of an object, if it is a string.
unfoldable pub advertised : Json → Option Str
unfolding as_str get
advertised (object fields) = as_str (get (str "gateway_url") fields)
advertised _ = none

-- The shutdown sender goes to the beacon's record, or is dropped at the end of the block.
associate : Option Str → Str → Channel → BeaconRegistry → BeaconRegistry
associate none url c reg = record reg { closed = c ∷ reg.closed }
associate (some id) url c reg = associate_gateway id url c reg

-- The channel of a new connection has room for its first message, and its task holds the receiver
-- until the shutdown sender is dropped: `handle.send` puts the message in the queue.
connect : Str → Str → Json → Channel → Connection
connect server_url url payload c = record {
  gateway_url = url;
  ws_url = compute_ws_url url;
  server_url = server_url;
  shutdown = c;
  queued = beacon_registration server_url payload ∷ [];
}

handle_gateway : Str → Option Str → Option Str → Json → Channel → Loop → Loop
handle_gateway server_url beacon none payload c s = s
handle_gateway server_url beacon (some url) payload c s =
    if is_gateway_known url s.registry then s else record {
      registry = associate beacon url c (insert_gateway url s.registry);
      connections = connect server_url url payload c ∷ s.connections;
    }

abbrev handle_message : Decoder → Str → ℕ → Str → List ℕ → Channel → Loop → Loop
handle_message d server_url now topic bytes c s =
    let payload = payload_value d bytes (d.from_slice bytes) in
    handle_gateway server_url (beacon_of topic) (advertised payload) payload c
      (record s { registry = refresh now (beacon_of topic) s.registry })

unfoldable pub step : Decoder → Str → Event → Loop → Loop
unfolding refresh payload_value handle_gateway associate connect
step d server_url (channel now subscribed c) s = record s {
  registry = register_channel now subscribed c s.registry;
}
step d server_url (tick now) s = record s { registry = check_timeouts now s.registry }
step d server_url (given_up now done at) s = record s {
  registry = check_timeouts_until now done at s.registry;
}
step d server_url (message now topic payload c) s =
    handle_message d server_url now topic payload c s

unfoldable pub run : Decoder → Str → List Event → Loop → Loop
run d server_url [] s = s
run d server_url (e ∷ events) s = run d server_url events (step d server_url e s)
