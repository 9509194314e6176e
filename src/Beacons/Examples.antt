-- ===== src/Beacons/Examples.antt =====
-- Tests of the beacons' registry and of the message loop.
use place_home.Prelude.{
  arith, eq_iff, ◌*◌, true, ◌≡◌, refl, none, some, List, [], ◌∷◌, ok, contains, nat_eq,
}
use place_home.Prelude.Text.{Str, str, str_has_eq}
use place_home.Prelude.Map.{lookup}
use place_home.CloudGateway.Url.{compute_ws_url}
use place_home.Beacons.Types.{at_least_once, listen, Fields, string, object, beacon_registration}
use place_home.Beacons.MessageLoop.Stranded.{given_up-stranded}
use place_home.Beacons.Registry.Topics.{topic_of}
use place_home.Beacons.Registry.{
  lock, stale_ids, subscribe, BeaconRecord, BeaconRegistry, new, second, check_timeouts,
}
use place_home.Beacons.Registry.Invariant.{IsSound}
use place_home.Beacons.Registry.Sweep.{check_timeouts-exact}
use place_home.Beacons.MessageLoop.{
  Decoder, Connection, Loop, Event, payload_value, advertised, step, run,
}
use place_home.Beacons.MessageLoop.Pinned.{run-IsSound, start}
use place_home.Beacons.MessageLoop.Greeted.{greeted, first_contact, handshake-greeted}
use place_home.Beacons.MessageLoop.Live.{start-IsSound}

-- A payload is the gateway's URL as it stands.
abbrev decoder : Decoder
decoder = record {
  from_slice = λ bytes. some (object (Fields.field (str "gateway_url") (string bytes) Fields.end));
  from_utf8_lossy = λ bytes. bytes;
}

-- A payload that is no JSON.
abbrev plain : Decoder
plain = record { from_slice = λ bytes. none; from_utf8_lossy = λ bytes. bytes }

abbrev server : Str
server = str "https://home:8080"

abbrev gw : Str
gw = str "https://gw"

abbrev own : Str
own = str "https://own"

abbrev handshake : Event
handshake = Event.channel 0 (ok tt) (record {
  beacon_id = str "b1";
  topic = record { topic = str "b1/rec"; qos = 1 };
  topic_type = listen;
})

abbrev events : List Event
events =
    handshake
    ∷ Event.message second (str "b1/rec") gw 7
    ∷ Event.message second (str "b1/rec") own 8
    ∷ Event.tick (2 * second)
    ∷ []

abbrev first : Loop
first = start (some own) []

run-IsSound_example : IsSound (run decoder server events first).registry
run-IsSound_example = run-IsSound decoder server events first (start-IsSound (some own) [])

-- The connection that the second event makes.
abbrev connection : Connection
connection = record {
  gateway_url = gw;
  ws_url = compute_ws_url gw;
  server_url = server;
  shutdown = 7;
  queued =
      beacon_registration server (object (Fields.field (str "gateway_url") (string gw) Fields.end))
      ∷ [];
}

abbrev silent : BeaconRecord
silent = record {
  listen_topic = str "b1/rec";
  broadcast_topic = [];
  last_seen = 0;
  gateway_url = some gw;
  gateway_shutdown_tx = some 7;
}

abbrev registry : BeaconRegistry
registry = record {
  records = (str "b1", silent) ∷ [];
  known_gateways = gw ∷ [];
  broadcast_topics = [];
  mqtt = [];
  closed = [];
}

check_timeouts-exact_example :
    lookup (str "b1") (check_timeouts (121 * second) registry).records ≡ none
unfolding lookup
check_timeouts-exact_example = check_timeouts-exact (121 * second) (str "b1") registry (refl, tt)

handshake-greeted_example :
    let reg =
      (run plain server
        (first_contact (str "b7") 5 9 (str "hi") 3)
        (record { registry = new none []; connections = [] })).registry in
    (lookup (str "b7") reg.records ≡ some (greeted (str "b7") 9))
    × (reg.broadcast_topics ≡ str "b7/cast" ∷ [])
    × (reg.mqtt ≡ subscribe (str "b7/rec") at_least_once ∷ [])
unfolding new lookup payload_value advertised
handshake-greeted_example =
    handshake-greeted plain server (str "b7") 5 9 (str "hi") 3
      (record { registry = new none []; connections = [] }) refl refl

-- A beacon that has been silent for too long, with a broadcast topic.
abbrev casting : Loop
casting = record {
  registry = record registry {
    records = (str "b1", record silent { broadcast_topic = str "b1/cast" }) ∷ [];
    broadcast_topics = str "b1/cast" ∷ [];
  };
  connections = [];
}

casting-alone : (j : Str) → topic_of casting.registry j ≡ some (str "b1/cast") → j ≡ str "b1"
unfolding lookup
casting-alone j p = ground (arith, eq_iff (str "b1") j, p)

given_up-stranded_example :
    let after =
      run decoder server
        (Event.tick (300 * second) ∷ [])
        (step decoder server (Event.given_up (121 * second) 0 lock) casting) in
    contains (str "b1/cast") after.registry.broadcast_topics ≡ true
unfolding lookup stale_ids contains
given_up-stranded_example =
    (given_up-stranded decoder server (121 * second) (str "b1") []
      (record silent { broadcast_topic = str "b1/cast" }) (Event.tick (300 * second) ∷ []) casting
      refl refl (λ e. cc) refl casting-alone (tt, tt)).0
