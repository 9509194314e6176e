-- ===== src/Beacons/Registry/Topics/From.antt =====
-- registry.rs: what holds of all broadcast topics.
use place_home.Prelude.{
  not, ◌≢◌, Option, none, some, List, [], ◌∷◌, Result, ok, err, contains, Bool-cases, inl, inr, All,
  All-append, All-retain,
}
use place_home.Prelude.Text.{Str, str_eq, str_has_eq}
use place_home.Prelude.Map.{lookup}
use place_home.Services.Types.{Channel}
use place_home.Beacons.Types.{TopicType, listen, broadcast, hybrid, QoS}
use place_home.Beacons.Registry.{
  BeaconRecord, BeaconRegistry, register_topic, drop_topic, insert_gateway, associate_by,
  associate_gateway,
}

module _ (P : Str → Type 0) where
  abbrev pub AllTopics : BeaconRegistry → Type 0
  AllTopics reg = All P reg.broadcast_topics

  pub register_topic-AllTopics :
      (k : TopicType) (s : Result Str Unit) (id topic : Str) (qos : QoS) (reg : BeaconRegistry)
      → (k ≢ listen → P topic)
      → AllTopics reg
      → AllTopics (register_topic k s id topic qos reg)
  unfolding register_topic
  register_topic-AllTopics listen (err e) id topic qos reg p h = h
  register_topic-AllTopics listen (ok _) id topic qos reg p h = h
  register_topic-AllTopics broadcast s id topic qos reg p h =
      All-append P reg.broadcast_topics (topic ∷ []) h (p (λ e. cc), tt)
  register_topic-AllTopics hybrid (err e) id topic qos reg p h = h
  register_topic-AllTopics hybrid (ok _) id topic qos reg p h =
      All-append P reg.broadcast_topics (topic ∷ []) h (p (λ e. cc), tt)

  pub drop_topic-All : (t : Str) (topics : List Str) → All P topics → All P (drop_topic t topics)
  unfolding drop_topic
  drop_topic-All [] topics h = h
  drop_topic-All (c ∷ t) topics h = All-retain P (λ v. not (str_eq v (c ∷ t))) topics h

  pub insert_gateway-AllTopics :
      (url : Str) (reg : BeaconRegistry) → AllTopics reg → AllTopics (insert_gateway url reg)
  unfolding insert_gateway
  insert_gateway-AllTopics url reg h = elim (Bool-cases (contains url reg.known_gateways)) [
    | inl e ↦ rw e h
    | inr e ↦ rw e h
  ]

  associate_by-AllTopics :
      (o : Option BeaconRecord) (id url : Str) (c : Channel) (reg : BeaconRegistry)
      → AllTopics reg
      → AllTopics (associate_by o id url c reg)
  unfolding associate_by
  associate_by-AllTopics none id url c reg h = h
  associate_by-AllTopics (some r) id url c reg h = h

  pub associate_gateway-AllTopics :
      (id url : Str) (c : Channel) (reg : BeaconRegistry)
      → AllTopics reg
      → AllTopics (associate_gateway id url c reg)
  unfolding associate_gateway
  associate_gateway-AllTopics id url c reg h =
      associate_by-AllTopics (lookup id reg.records) id url c reg h
