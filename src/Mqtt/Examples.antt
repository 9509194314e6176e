-- ===== src/Mqtt/Examples.antt =====
-- Tests of the MQTT client.
use place_home.Prelude.{true, ◌≡◌, refl, List, [], ◌∷◌, ok, err}
use place_home.Prelude.Text.{str}
use place_home.Beacons.Types.{at_least_once}
use place_home.Mqtt.Client.{
  MqttMessage, subscribe, TopicSubscription, Fate, answered, subscribe_all, published, conn_ack,
  poll_error, LoopEvent, shutdown, outbound, polled, loop_run, spawned_loop, required_subscriptions,
}
use place_home.Mqtt.Client.Orders.{subscribe_all-reached}
use place_home.Mqtt.Client.Connected.{event_loop-passes}

abbrev registration : TopicSubscription
registration = record { topic = str "registration"; qos = at_least_once }

abbrev key_bridge : TopicSubscription
key_bridge = record { topic = str "key-bridge"; qos = at_least_once }

required : required_subscriptions ≡ registration ∷ key_bridge ∷ []
unfolding required_subscriptions
required = refl

-- The broker refuses the first topic.
abbrev refused : List (TopicSubscription × Fate)
refused = (registration, answered (err (str "full"))) ∷ (key_bridge, answered (ok tt)) ∷ []

subscribe_all-reached_example :
    ((subscribe_all refused (record { is_running = true; asked = [] })).0
      ≡ err (str "subscribe failed: full"))
    × ((subscribe_all refused (record { is_running = true; asked = [] })).1.asked
        ≡ subscribe (str "registration") at_least_once ∷ [])
subscribe_all-reached_example = subscribe_all-reached refused []

abbrev hello : MqttMessage
hello = record { topic = str "a/rec"; payload = [] }

abbrev events : List LoopEvent
events =
    polled conn_ack
    ∷ polled (published (ok tt) hello)
    ∷ polled poll_error
    ∷ polled conn_ack
    ∷ outbound hello
    ∷ shutdown
    ∷ outbound hello
    ∷ []

event_loop-passes_example :
    let s = loop_run events spawned_loop in
    (s.published_out ≡ hello ∷ []) × (s.delivered ≡ hello ∷ []) × (s.signals ≡ 1)
event_loop-passes_example = event_loop-passes events
