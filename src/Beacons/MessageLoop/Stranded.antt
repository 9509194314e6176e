-- ===== src/Beacons/MessageLoop/Stranded.antt =====
-- app.rs: the topic of a beacon whose removal is given up.
use place_home.Prelude.{
  ℕ, refl, true, ◌≡◌, ◌≢◌, Option, none, some, List, [], ◌∷◌, contains, Bool-cases, All, inl, inr,
}
use place_home.Prelude.Text.{Str, str, str_has_eq, strip_suffix}
use place_home.Prelude.Map.{lookup}
use place_home.Services.Types.{Channel}
use place_home.Beacons.Types.{Json}
use place_home.Beacons.Registry.{
  BeaconRecord, BeaconRegistry, lock, stale_ids, insert_gateway, is_gateway_known,
}
use place_home.Beacons.Registry.Topics.{topic_of}
use place_home.Beacons.Registry.Topics.Left.{
  IsLeft, given_up-IsLeft, register_channel-IsLeft, check_timeouts-IsLeft,
  check_timeouts_until-IsLeft, update_last_seen-IsLeft, insert_gateway-IsLeft,
  associate_gateway-IsLeft,
}
use place_home.Beacons.MessageLoop.{
  Decoder, Loop, Event, channel, tick, given_up, message, refresh, associate, handle_gateway, step,
  run,
}

-- A handshake's channel has another topic.
abbrev pub Spares : Str → Event → Type 0
Spares t (channel now subscribed c) = c.topic.topic ≢ t
Spares t _ = Unit

module _ (t : Str) (ne : t ≢ []) where
  refresh-IsLeft :
      (now : ℕ) (o : Option Str) (reg : BeaconRegistry)
      → IsLeft t ne reg
      → IsLeft t ne (refresh now o reg)
  unfolding refresh
  refresh-IsLeft now none reg h = h
  refresh-IsLeft now (some id) reg h = update_last_seen-IsLeft t ne now id reg h

  associate-IsLeft :
      (o : Option Str) (url : Str) (c : Channel) (reg : BeaconRegistry)
      → IsLeft t ne reg
      → IsLeft t ne (associate o url c reg)
  unfolding associate
  associate-IsLeft none url c reg h = record { listed = h.listed; unowned = h.unowned }
  associate-IsLeft (some id) url c reg h = associate_gateway-IsLeft t ne id url c reg h

  handle_gateway-IsLeft :
      (server : Str) (o url : Option Str) (payload : Json) (c : Channel) (s : Loop)
      → IsLeft t ne s.registry
      → IsLeft t ne (handle_gateway server o url payload c s).registry
  unfolding handle_gateway
  handle_gateway-IsLeft server o none payload c s h = h
  handle_gateway-IsLeft server o (some url) payload c s h =
      elim (Bool-cases (is_gateway_known url s.registry)) [
        | inl e ↦ rw e h
        | inr e ↦ rw e (
            associate-IsLeft o url c (insert_gateway url s.registry)
              (insert_gateway-IsLeft t ne url s.registry h))
      ]

  step-IsLeft :
      (d : Decoder) (server : Str) (e : Event) (s : Loop)
      → Spares t e
      → IsLeft t ne s.registry
      → IsLeft t ne (step d server e s).registry
  unfolding step
  step-IsLeft d server (channel now sub c) s a h =
      register_channel-IsLeft t ne now sub c s.registry a h
  step-IsLeft d server (tick now) s a h = check_timeouts-IsLeft t ne now s.registry h
  step-IsLeft d server (given_up now n at) s a h =
      check_timeouts_until-IsLeft t ne now n at s.registry h
  step-IsLeft d server (message now topic payload c) s a h =
      handle_gateway-IsLeft server (strip_suffix (str "/rec") topic) _ _ c _
        (refresh-IsLeft now (strip_suffix (str "/rec") topic) s.registry h)

  run-IsLeft :
      (d : Decoder) (server : Str) (events : List Event) (s : Loop)
      → All (Spares t) events
      → IsLeft t ne s.registry
      → IsLeft t ne (run d server events s).registry
  unfolding run
  run-IsLeft d server [] s a h = h
  run-IsLeft d server (e ∷ events) s (a, rest) h =
      run-IsLeft d server events (step d server e s) rest (step-IsLeft d server e s a h)

-- A sweep that is given up while it waits for the lock, with the topic of the first stale beacon to
-- take off the list: if no other beacon has that topic, then no beacon has it any more, and yet,
-- through all messages, sweeps and handshakes of beacons with other topics that follow, it stays on
-- the list of broadcast topics for ever.
pub given_up-stranded :
    (d : Decoder) (server : Str) (now : ℕ) (id : Str) (ids : List Str) (b : BeaconRecord)
    (events : List Event) (s : Loop)
    → stale_ids now s.registry.records ≡ id ∷ ids
    → lookup id s.registry.records ≡ some b
    → b.broadcast_topic ≢ []
    → contains b.broadcast_topic s.registry.broadcast_topics ≡ true
    → ((j : Str) → topic_of s.registry j ≡ some b.broadcast_topic → j ≡ id)
    → All (Spares b.broadcast_topic) events
    → let s' = run d server events (step d server (given_up now 0 lock) s) in
      (contains b.broadcast_topic s'.registry.broadcast_topics ≡ true)
      × ((j : Str) → topic_of s'.registry j ≢ some b.broadcast_topic)
unfolding step
given_up-stranded d server now id ids b events s e f n c alone a =
    let left = given_up-IsLeft b.broadcast_topic n now id ids b s.registry e f refl c alone in
    let h = run-IsLeft b.broadcast_topic n d server events _ a left in (h.listed, h.unowned)
