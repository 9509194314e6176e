-- ===== src/CloudGateway/Examples.antt =====
-- Tests of the WebSocket connection to a cloud gateway.
use place_home.Prelude.{true, false, List, [], ◌∷◌, ◌++◌, Result, ok}
use place_home.Prelude.Text.{Str, str}
use place_home.Beacons.Types.{GatewayMessage, connect}
use place_home.CloudGateway.Connection.{
  Event, established, outbound, received, ping, close, slept, run, spawn_connection_task,
}
use place_home.CloudGateway.Connection.Protocol.{WellSpoken, connection-registers}

abbrev to_text : GatewayMessage → Result Str Str
to_text (GatewayMessage.register url) = ok (str "register " ++ url)
to_text _ = ok (str "other")

abbrev events : List Event
events =
    established true
    ∷ outbound (connect (str "peer")) true
    ∷ received (ping [])
    ∷ received close
    ∷ slept
    ∷ established false
    ∷ established true
    ∷ []

connection-registers_example : WellSpoken to_text (str "https://home") (str "wss://gw/ws") true (
    (spawn_connection_task (str "wss://gw/ws")).0
    ++ (run to_text
        (str "https://home")
        (str "wss://gw/ws")
        events
        (spawn_connection_task (str "wss://gw/ws")).1).0)
connection-registers_example =
    connection-registers to_text (str "https://home") (str "wss://gw/ws") events
