-- ===== src/Node/Examples.antt =====
-- Tests of a running node: a handshake, its two channels, and a cycle of the broadcast loop.
use mathlib.Core.List.{Mem}
use place_home.Prelude.{◌≡◌, ◌≢◌, List, refl, inl, none, [], ◌∷◌, Result, ok, err}
use place_home.Prelude.Text.{Str, str}
use place_home.Prelude.Map.{lookup, modify, insert}
use place_home.Beacons.Types.{TopicChannel, listen, broadcast}
use place_home.Beacons.Registry.{register_topic, register_entered, ensure, new}
use place_home.BroadcastKeys.{get_or_rotate_key, build_key}
use place_home.BroadcastKeys.Rows.{newest}
use place_home.Beacons.MessageLoop.{Decoder}
use place_home.Http.Requests.{Request, Response}
use place_home.Http.Handlers.{topic_channel, receive_topic, broadcast_topic, dispatch}
use place_home.Http.Examples as Gateway
use place_home.Broadcast.{payload}
use place_home.Broadcast.Cycles.{published}
use place_home.Broadcast.Examples as Sender
use place_home.Node.Honest.{rest_of}
use place_home.Node.{
  Node, selecting, registering, holding, start, answered, take, in_registry, begin_cycle,
  writes_topics, Step, request, take_channel, register, Reach, here, then,
}
use place_home.Node.Broadcasts.{broadcasts-Told}
use place_home.Node.Blocked.{begin, more, registration-waits}

abbrev none_forwarded : Request → Result Str Response
none_forwarded req = err (str "refused")

abbrev decoder : Decoder
decoder = record { from_slice = λ bytes. none; from_utf8_lossy = λ bytes. bytes }

abbrev listening : TopicChannel
listening = topic_channel (str "id") (receive_topic (str "id")) listen

abbrev broadcasting : TopicChannel
broadcasting = topic_channel (str "id") (broadcast_topic (str "id")) broadcast

abbrev Steps : Node → Node → Type 0
Steps =
    Step Gateway.toy Gateway.state Gateway.parse_device Gateway.parse_payload none_forwarded decoder
      Sender.mac Sender.state

abbrev started : Node
started = start none Gateway.world Sender.table

abbrev greeted : Node
greeted =
    answered (str "id")
      (dispatch Gateway.toy Gateway.meets Gateway.state Gateway.parse_device Gateway.parse_payload
        none_forwarded (Gateway.hello (str "lamp")) started.world)
      started

abbrev server : Str
server = str "https://home:8080"

-- A channel is taken up, and its topic registered.
abbrev took_up : TopicChannel → List TopicChannel → Node → Node
took_up c rest n =
    let t = take 5 (ok tt) c rest n in
    in_registry (register_entered (ok tt) c t.loop.registry) selecting t

abbrev heard : Node
heard = took_up listening (broadcasting ∷ []) greeted

abbrev waiting : Node
waiting = take 6 (ok tt) broadcasting [] heard

abbrev ready : Node
ready = in_registry (register_entered (ok tt) broadcasting waiting.loop.registry) selecting waiting

abbrev Reaches : Node → Type 0
Reaches =
    Reach Gateway.toy Gateway.state Gateway.parse_device Gateway.parse_payload none_forwarded
      decoder Sender.mac Sender.state started

ready-Reach : Reaches ready
unfolding start answered dispatch lookup take
ready-Reach =
    then
      (then
        (then
          (then (then here (request started Gateway.meets (Gateway.hello (str "lamp"))))
            (take_channel greeted 5 (ok tt) listening (broadcasting ∷ []) refl refl))
          (register _ (ok tt) listening refl (inl refl)))
        (take_channel heard 6 (ok tt) broadcasting [] refl refl))
      (register waiting (ok tt) broadcasting refl (inl refl))

broadcasts-Told_example :
    Mem
      (broadcast_topic (str "id"), payload Sender.mac Sender.state 2000 Sender.key)
      (published
        (rest_of (begin_cycle Sender.mac Sender.state (Sender.round 2000) ready).cycle_rest))
unfolding start answered dispatch lookup take register_topic ensure get_or_rotate_key modify newest
    build_key new insert
broadcasts-Told_example =
    (broadcasts-Told Gateway.toy Gateway.state Gateway.parse_device Gateway.parse_payload
        none_forwarded decoder Sender.mac Sender.state none Gateway.world Sender.table ready
        (Sender.round 2000) Sender.key refl ready-Reach refl).0
      (str "id") refl

-- The cycle begins when the second channel has been taken up.
abbrev reading : Node
reading = begin_cycle Sender.mac Sender.state (Sender.round 2000) waiting

abbrev asked : Node
asked =
    answered (str "id")
      (dispatch Gateway.toy Gateway.meets Gateway.state Gateway.parse_device Gateway.parse_payload
        none_forwarded (Gateway.hello (str "fan")) reading.world)
      reading

reading-holds : reading.cycle_rest ≢ none
unfolding begin_cycle take answered get_or_rotate_key start newest build_key holding
reading-holds e = cc

registration-waits_example :
    (asked.loop ≡ reading.loop) × (asked.work ≡ registering (ok tt) broadcasting)
unfolding begin_cycle take writes_topics answered start
registration-waits_example =
    registration-waits Gateway.toy Gateway.state Gateway.parse_device Gateway.parse_payload
      none_forwarded decoder Sender.mac Sender.state reading asked (ok tt) broadcasting
      (reading-holds, refl, refl)
      (more begin (request reading Gateway.meets (Gateway.hello (str "fan"))) reading-holds)
