-- ===== src/Beacons/MessageLoop/Greeted.antt =====
-- app.rs, registry.rs and the handshake of internals/handlers.rs: a beacon from its handshake to its
-- messages.
use place_home.Prelude.{ℕ, ◌≡◌, refl, none, some, List, [], ◌∷◌, ◌++◌, ok, arith, eq_iff}
use place_home.Prelude.Text.{Str, str, str_has_eq, strip_suffix-append}
use place_home.Prelude.Map.{lookup, lookup-insert_self, lookup-modify, modify}
use place_home.Services.Types.{Channel}
use place_home.Beacons.Types.{listen, broadcast, at_least_once}
use place_home.Beacons.Registry.{
  BeaconRecord, register_channel, qos_from_u8, update_last_seen, subscribe, fresh_record, ensure_by,
}
use place_home.Beacons.MessageLoop.{
  Decoder, Loop, Event, channel, message, refresh, handle_gateway, payload_value, advertised, step,
  run,
}
use place_home.Http.Handlers.{topic_channel, receive_topic, broadcast_topic}

-- What the node knows of a beacon after its handshake.
abbrev pub greeted : Str → ℕ → BeaconRecord
greeted id now = record {
  listen_topic = receive_topic id;
  broadcast_topic = broadcast_topic id;
  last_seen = now;
  gateway_url = none;
  gateway_shutdown_tx = none;
}

-- The two channels that the handshake sends, and a message of the beacon.
abbrev pub first_contact :
    (id : Str) → (registered later : ℕ) → (payload : List ℕ) → Channel → List Event
first_contact id registered later payload c =
    channel registered (ok tt) (topic_channel id (receive_topic id) listen)
    ∷ channel registered (ok tt) (topic_channel id (broadcast_topic id) broadcast)
    ∷ message later (receive_topic id) payload c
    ∷ []

module _ (id : Str) (records : List (Str × BeaconRecord)) where
  -- A change of a record that is there.
  lookup-changed :
      (f : BeaconRecord → BeaconRecord) (r : BeaconRecord)
      → lookup id records ≡ some r
      → lookup id (modify id f records) ≡ some (f r)
  lookup-changed f r h = ground (arith, lookup-modify id id f records, eq_iff id id, h)

  ensure_by-present :
      (now : ℕ) (r : BeaconRecord)
      → lookup id records ≡ some r
      → ensure_by (lookup id records) id now records ≡ records
  unfolding ensure_by
  ensure_by-present now r h = rw h refl

  ensure_by-absent :
      (now : ℕ)
      → lookup id records ≡ none
      → lookup id (ensure_by (lookup id records) id now records) ≡ some (fresh_record now)
  unfolding ensure_by
  ensure_by-absent now h = rw h (lookup-insert_self id (fresh_record now) records)

-- The topic channels that a handshake sends, taken up by the message loop with the broker's
-- consent, give a beacon of a new identifier its record: its messages are subscribed to, the
-- broadcasts go to its topic, and a message on its topic, that advertises no gateway, counts as a
-- sign of life.
pub handshake-greeted :
    (d : Decoder) (server id : Str) (registered later : ℕ) (payload : List ℕ) (c : Channel)
    (s : Loop)
    → lookup id s.registry.records ≡ none
    → advertised (payload_value d payload (d.from_slice payload)) ≡ none
    → let reg = (run d server (first_contact id registered later payload c) s).registry in
      (lookup id reg.records ≡ some (greeted id later))
      × (reg.broadcast_topics ≡ s.registry.broadcast_topics ++ broadcast_topic id ∷ [])
      × (reg.mqtt ≡ subscribe (receive_topic id) at_least_once ∷ s.registry.mqtt)
unfolding run step register_channel qos_from_u8 refresh handle_gateway update_last_seen
handshake-greeted d server id registered later payload c s h a =
    let listening =
      modify id (λ r. record r { listen_topic = receive_topic id })
        (ensure_by (lookup id s.registry.records) id registered s.registry.records) in
    let l =
      lookup-changed id _ (λ r. record r { listen_topic = receive_topic id }) _
        (ensure_by-absent id s.registry.records registered h) in
    let b =
      lookup-changed id listening (λ r. record r { broadcast_topic = broadcast_topic id }) _ l in
    rw a (
      rw (strip_suffix-append (str "/rec") id) (
        rw (ensure_by-present id listening registered _ l)
          (lookup-changed id _ (λ r. record r { last_seen = later }) _ b, refl, refl)))
