-- ===== src/Beacons/MessageLoop/Topics.antt =====
-- app.rs: the list of broadcast topics through an iteration of the message loop.
use place_home.Prelude.{ℕ, Option, none, some, List, Bool-cases, inl, inr}
use place_home.Prelude.Text.{Str, str, str_has_eq, strip_suffix}
use place_home.Services.Types.{Channel}
use place_home.Beacons.Types.{Json}
use place_home.Beacons.Registry.{BeaconRegistry, update_last_seen, insert_gateway, is_gateway_known}
use place_home.Beacons.Registry.Topics.Calls.{
  TopicsMatch, update_last_seen-TopicsMatch, insert_gateway-TopicsMatch,
  associate_gateway-TopicsMatch,
}
use place_home.Beacons.Registry.Topics.From.{
  AllTopics, insert_gateway-AllTopics, associate_gateway-AllTopics,
}
use place_home.Beacons.MessageLoop.{
  Decoder, Loop, message, refresh, associate, handle_gateway, step,
}

refresh-TopicsMatch :
    (now : ℕ) (o : Option Str) (reg : BeaconRegistry)
    → TopicsMatch reg
    → TopicsMatch (refresh now o reg)
unfolding refresh
refresh-TopicsMatch now none reg h = h
refresh-TopicsMatch now (some id) reg h = update_last_seen-TopicsMatch now id reg h

associate-TopicsMatch :
    (o : Option Str) (url : Str) (c : Channel) (reg : BeaconRegistry)
    → TopicsMatch reg
    → TopicsMatch (associate o url c reg)
unfolding associate
associate-TopicsMatch none url c reg h = h
associate-TopicsMatch (some id) url c reg h = associate_gateway-TopicsMatch id url c reg h

handle_gateway-TopicsMatch :
    (server : Str) (o url : Option Str) (payload : Json) (c : Channel) (s : Loop)
    → TopicsMatch s.registry
    → TopicsMatch (handle_gateway server o url payload c s).registry
unfolding handle_gateway
handle_gateway-TopicsMatch server o none payload c s h = h
handle_gateway-TopicsMatch server o (some url) payload c s h =
    elim (Bool-cases (is_gateway_known url s.registry)) [
      | inl e ↦ rw e h
      | inr e ↦ rw e (
          associate-TopicsMatch o url c (insert_gateway url s.registry)
            (insert_gateway-TopicsMatch url s.registry h))
    ]

pub message-TopicsMatch :
    (d : Decoder) (server : Str) (now : ℕ) (topic : Str) (bytes : List ℕ) (c : Channel) (s : Loop)
    → TopicsMatch s.registry
    → TopicsMatch (step d server (message now topic bytes c) s).registry
unfolding step
message-TopicsMatch d server now topic bytes c s h =
    handle_gateway-TopicsMatch server (strip_suffix (str "/rec") topic) _ _ c _
      (refresh-TopicsMatch now (strip_suffix (str "/rec") topic) s.registry h)

-- A property of all topics.
module _ (P : Str → Type 0) where
  refresh-topics :
      (now : ℕ) (o : Option Str) (reg : BeaconRegistry)
      → AllTopics P reg
      → AllTopics P (refresh now o reg)
  unfolding refresh update_last_seen
  refresh-topics now none reg h = h
  refresh-topics now (some id) reg h = h

  associate-topics :
      (o : Option Str) (url : Str) (c : Channel) (reg : BeaconRegistry)
      → AllTopics P reg
      → AllTopics P (associate o url c reg)
  unfolding associate
  associate-topics none url c reg h = h
  associate-topics (some id) url c reg h = associate_gateway-AllTopics P id url c reg h

  handle_gateway-topics :
      (server : Str) (o url : Option Str) (payload : Json) (c : Channel) (s : Loop)
      → AllTopics P s.registry
      → AllTopics P (handle_gateway server o url payload c s).registry
  unfolding handle_gateway
  handle_gateway-topics server o none payload c s h = h
  handle_gateway-topics server o (some url) payload c s h =
      elim (Bool-cases (is_gateway_known url s.registry)) [
        | inl e ↦ rw e h
        | inr e ↦ rw e (associate-topics o url c _ (insert_gateway-AllTopics P url s.registry h))
      ]

  pub message-AllTopics :
      (d : Decoder) (server : Str) (now : ℕ) (topic : Str) (bytes : List ℕ) (c : Channel) (s : Loop)
      → AllTopics P s.registry
      → AllTopics P (step d server (message now topic bytes c) s).registry
  unfolding step
  message-AllTopics d server now topic bytes c s h =
      handle_gateway-topics server (strip_suffix (str "/rec") topic) _ _ c _
        (refresh-topics now (strip_suffix (str "/rec") topic) s.registry h)
