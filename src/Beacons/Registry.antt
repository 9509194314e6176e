-- ===== src/Beacons/Registry.antt =====
-- services/beacon_management/registry.rs: the registered beacons, the gateways known through them,
-- and the sweep of those that have fallen silent. An `Instant` is a number of nanoseconds.
pub mod Sweep
pub mod Cut
pub mod Invariant
pub mod Pinned
pub mod Gateways
pub mod Held
pub mod Topics
use place_home.Prelude.{
  ℕ, zero, suc, ◌*◌, ◌-◌, Bool, true, false, Option, none, some, List, [], ◌∷◌, ◌++◌, Result, ok,
  err, if◌then◌else◌, ltb, not, retain, contains, ◌==◌,
}
use place_home.Prelude.Text.{Str, str, str_eq, str_has_eq}
use place_home.Prelude.Map.{lookup, insert, remove, modify}
use place_home.Services.Types.{Channel}
use place_home.Beacons.Types.{
  TopicType, listen, broadcast, hybrid, TopicChannel, QoS, at_most_once, at_least_once,
  exactly_once,
}

abbrev pub second : ℕ
second = 1000000000

abbrev pub beacon_timeout : ℕ
beacon_timeout = 120 * second

pub record BeaconRecord : Type 0 where
  pub listen_topic : Str
  pub broadcast_topic : Str
  pub last_seen : ℕ
  pub gateway_url : Option Str
  pub gateway_shutdown_tx : Option Channel

-- What is asked of the local broker.
pub data MqttCall : Type 0 where
  subscribe : Str → QoS → MqttCall
  unsubscribe : Str → MqttCall

-- `closed` are the connections whose shutdown sender has been dropped.
pub record BeaconRegistry : Type 0 where
  pub records : List (Str × BeaconRecord)
  pub known_gateways : List Str
  pub broadcast_topics : List Str
  pub mqtt : List MqttCall
  pub closed : List Channel

unfoldable pub new : Option Str → List Str → BeaconRegistry
new own_gateway_url broadcast_topics = record {
  records = [];
  known_gateways = elim own_gateway_url [ none ↦ [] | some url ↦ url ∷ [] ];
  broadcast_topics = broadcast_topics;
  mqtt = [];
  closed = [];
}

unfoldable pub qos_from_u8 : ℕ → QoS
qos_from_u8 zero = at_most_once
qos_from_u8 (suc (suc zero)) = exactly_once
qos_from_u8 _ = at_least_once

abbrev pub fresh_record : ℕ → BeaconRecord
fresh_record now = record {
  listen_topic = [];
  broadcast_topic = [];
  last_seen = now;
  gateway_url = none;
  gateway_shutdown_tx = none;
}

-- `entry(id).or_insert_with(…)`
unfoldable pub ensure_by :
    Option BeaconRecord → Str → ℕ → List (Str × BeaconRecord) → List (Str × BeaconRecord)
ensure_by none id now records = insert id (fresh_record now) records
ensure_by (some r) id now records = records

unfoldable pub ensure : Str → ℕ → List (Str × BeaconRecord) → List (Str × BeaconRecord)
unfolding ensure_by
ensure id now records = ensure_by (lookup id records) id now records

abbrev set_listen : Str → BeaconRecord → BeaconRecord
set_listen topic r = record r { listen_topic = topic }

abbrev set_broadcast : Str → BeaconRecord → BeaconRecord
set_broadcast topic r = record r { broadcast_topic = topic }

-- `subscribed` is the broker's answer.
unfoldable pub register_topic :
    TopicType → Result Str Unit → Str → Str → QoS → BeaconRegistry → BeaconRegistry
register_topic listen (err e) id topic qos reg = record reg {
  mqtt = subscribe topic qos ∷ reg.mqtt;
}
register_topic listen (ok _) id topic qos reg = record reg {
  mqtt = subscribe topic qos ∷ reg.mqtt;
  records = modify id (set_listen topic) reg.records;
}
register_topic broadcast subscribed id topic qos reg = record reg {
  broadcast_topics = reg.broadcast_topics ++ topic ∷ [];
  records = modify id (set_broadcast topic) reg.records;
}
register_topic hybrid (err e) id topic qos reg = record reg {
  mqtt = subscribe topic qos ∷ reg.mqtt;
}
register_topic hybrid (ok _) id topic qos reg = record reg {
  mqtt = subscribe topic qos ∷ reg.mqtt;
  broadcast_topics = reg.broadcast_topics ++ topic ∷ [];
  records = modify id (λ r. set_broadcast topic (set_listen topic r)) reg.records;
}

-- What is done before the first await.
abbrev pub enter : ℕ → TopicChannel → BeaconRegistry → BeaconRegistry
enter now c reg = record reg { records = ensure c.beacon_id now reg.records }

abbrev pub register_entered : Result Str Unit → TopicChannel → BeaconRegistry → BeaconRegistry
register_entered subscribed c reg =
    register_topic c.topic_type subscribed c.beacon_id c.topic.topic (qos_from_u8 c.topic.qos) reg

unfoldable pub register_channel :
    ℕ → Result Str Unit → TopicChannel → BeaconRegistry → BeaconRegistry
unfolding ensure register_topic
register_channel now subscribed c reg = register_entered subscribed c (enter now c reg)

-- `duration_since` is 0 for a later instant, as the subtraction of ℕ is.
abbrev pub is_stale : ℕ → BeaconRecord → Bool
is_stale now r = ltb beacon_timeout (now - r.last_seen)

unfoldable pub stale_ids : ℕ → List (Str × BeaconRecord) → List Str
stale_ids now [] = []
stale_ids now ((id, r) ∷ records) =
    let rest = stale_ids now records in if is_stale now r then id ∷ rest else rest

pub unsubscribe_listen : Str → List MqttCall → List MqttCall
unsubscribe_listen [] calls = calls
unsubscribe_listen (c ∷ topic) calls = unsubscribe (c ∷ topic) ∷ calls

pub drop_topic : Str → List Str → List Str
drop_topic [] topics = topics
drop_topic (c ∷ topic) topics = retain (λ t. not (str_eq t (c ∷ topic))) topics

pub evict : Option Str → List Str → List Str
evict none known = known
evict (some url) known = retain (λ u. not (str_eq u url)) known

pub close : Option Channel → List Channel → List Channel
close none closed = closed
close (some c) closed = c ∷ closed

-- The record is moved out of the map, and what follows with it.
abbrev pub take_out : Str → BeaconRegistry → BeaconRegistry
take_out id reg = record reg { records = remove id reg.records }

abbrev pub clean : BeaconRecord → BeaconRegistry → BeaconRegistry
clean r reg = record reg {
  mqtt = unsubscribe_listen r.listen_topic reg.mqtt;
  broadcast_topics = drop_topic r.broadcast_topic reg.broadcast_topics;
  known_gateways = evict r.gateway_url reg.known_gateways;
  closed = close r.gateway_shutdown_tx reg.closed;
}

-- The body of the loop over the stale beacons; a failed unsubscribe is only logged.
pub remove_by : Option BeaconRecord → Str → BeaconRegistry → BeaconRegistry
remove_by none id reg = reg
remove_by (some r) id reg = clean r (take_out id reg)

pub remove_all : List Str → BeaconRegistry → BeaconRegistry
remove_all [] reg = reg
remove_all (id ∷ ids) reg = remove_all ids (remove_by (lookup id reg.records) id reg)

-- `check_timeouts` once its tick has come.
unfoldable pub check_timeouts : ℕ → BeaconRegistry → BeaconRegistry
unfolding stale_ids remove_all remove_by unsubscribe_listen drop_topic evict close
check_timeouts now reg = remove_all (stale_ids now reg.records) reg

-- Where a sweep is given up, when `select!` takes another branch: before the command is in its
-- channel, before its reply, or before the lock on the topics.
pub data Await : Type 0 where
  command reply lock : Await

-- Whether the removal of a beacon comes to that point.
pub awaits : Await → BeaconRecord → Bool
awaits command r = not (str_eq r.listen_topic [])
awaits reply r = not (str_eq r.listen_topic [])
awaits lock r = not (str_eq r.broadcast_topic [])

pub asked : Await → Str → List MqttCall → List MqttCall
asked command topic calls = calls
asked reply topic calls = unsubscribe_listen topic calls
asked lock topic calls = unsubscribe_listen topic calls

-- The record is dropped with its shutdown sender; its topic stays listed and its gateway known.
abbrev pub abandon : Await → BeaconRecord → BeaconRegistry → BeaconRegistry
abandon at r reg = record reg {
  mqtt = asked at r.listen_topic reg.mqtt;
  closed = close r.gateway_shutdown_tx reg.closed;
}

pub give_up : Await → Str → BeaconRecord → BeaconRegistry → BeaconRegistry
unfolding asked unsubscribe_listen close
give_up at id r reg = abandon at r (take_out id reg)

pub give_up_by : Option BeaconRecord → Await → Str → List Str → BeaconRegistry → BeaconRegistry
unfolding awaits give_up
give_up_by none at id ids reg = remove_all ids reg
give_up_by (some r) at id ids reg =
    let swept = remove_all ids (remove_by (some r) id reg) in
    if awaits at r then give_up at id r reg else swept

-- The first `done` beacons have been removed.
pub remove_some : (done : ℕ) → Await → List Str → BeaconRegistry → BeaconRegistry
unfolding give_up_by
remove_some n at [] reg = reg
remove_some zero at (id ∷ ids) reg = give_up_by (lookup id reg.records) at id ids reg
remove_some (suc n) at (id ∷ ids) reg =
    remove_some n at ids (remove_by (lookup id reg.records) id reg)

-- `check_timeouts`, given up on the way; if that beacon's removal does not come to such a point, the
-- sweep ends.
unfoldable pub check_timeouts_until : ℕ → (done : ℕ) → Await → BeaconRegistry → BeaconRegistry
unfolding remove_some
check_timeouts_until now done at reg = remove_some done at (stale_ids now reg.records) reg

unfoldable pub update_last_seen : ℕ → Str → BeaconRegistry → BeaconRegistry
update_last_seen now id reg = record reg {
  records = modify id (λ r. record r { last_seen = now }) reg.records;
}

unfoldable pub is_gateway_known : Str → BeaconRegistry → Bool
is_gateway_known url reg = contains url reg.known_gateways

-- A set holds a value once.
unfoldable pub insert_gateway : Str → BeaconRegistry → BeaconRegistry
insert_gateway url reg =
    if contains url reg.known_gateways
    then reg
    else record reg { known_gateways = url ∷ reg.known_gateways }

-- The sender is moved in: a beacon that is not registered drops it, and a record that had one
-- drops the former.
associate_by : Option BeaconRecord → Str → Str → Channel → BeaconRegistry → BeaconRegistry
associate_by none id url c reg = record reg { closed = c ∷ reg.closed }
associate_by (some r) id url c reg = record reg {
  records =
      insert id (record r { gateway_url = some url; gateway_shutdown_tx = some c }) reg.records;
  closed = close r.gateway_shutdown_tx reg.closed;
}

unfoldable pub associate_gateway : Str → Str → Channel → BeaconRegistry → BeaconRegistry
unfolding associate_by close
associate_gateway id url c reg = associate_by (lookup id reg.records) id url c reg
