-- ===== src/Beacons/Registry/Gateways.antt =====
-- registry.rs: the calls that change no beacon's gateway.
use place_home.Prelude.{ℕ, ◌≡◌, refl, Result, ok, err, ◌∙◌}
use place_home.Prelude.Text.{Str, str_has_eq}
use place_home.Prelude.Map.{lookup}
use place_home.Beacons.Types.{TopicType, listen, broadcast, hybrid, TopicChannel, QoS}
use place_home.Beacons.Registry.{
  BeaconRegistry, ensure, register_topic, register_channel, update_last_seen, qos_from_u8,
}
use place_home.Beacons.Registry.Invariant.{url_of, ensure_by-lookup, modify-url}

register_topic-url :
    (t : TopicType) (s : Result Str Unit) (id topic : Str) (qos : QoS) (reg : BeaconRegistry)
    (j : Str)
    → url_of (register_topic t s id topic qos reg) j ≡ url_of reg j
unfolding register_topic
register_topic-url listen (err e) id topic qos reg j = refl
register_topic-url listen (ok _) id topic qos reg j = modify-url id j _ reg.records (λ r. refl)
register_topic-url broadcast s id topic qos reg j = modify-url id j _ reg.records (λ r. refl)
register_topic-url hybrid (err e) id topic qos reg j = refl
register_topic-url hybrid (ok _) id topic qos reg j = modify-url id j _ reg.records (λ r. refl)

register_topic-known :
    (t : TopicType) (s : Result Str Unit) (id topic : Str) (qos : QoS) (reg : BeaconRegistry)
    → (register_topic t s id topic qos reg).known_gateways ≡ reg.known_gateways
unfolding register_topic
register_topic-known listen (err e) id topic qos reg = refl
register_topic-known listen (ok _) id topic qos reg = refl
register_topic-known broadcast s id topic qos reg = refl
register_topic-known hybrid (err e) id topic qos reg = refl
register_topic-known hybrid (ok _) id topic qos reg = refl

-- A handshake's channel changes no gateway.
pub register_channel-gateways :
    (now : ℕ) (s : Result Str Unit) (c : TopicChannel) (reg : BeaconRegistry)
    → ((j : Str) → url_of (register_channel now s c reg) j ≡ url_of reg j)
      × ((register_channel now s c reg).known_gateways ≡ reg.known_gateways)
unfolding register_channel
register_channel-gateways now s c reg =
    let id = c.beacon_id in
    let ensured = record reg { records = ensure id now reg.records } in
    let qos = qos_from_u8 c.topic.qos in
    (
      λ j.
          register_topic-url c.topic_type s id c.topic.topic qos ensured j
          ∙ ensure_by-lookup (lookup id reg.records) id j now reg.records refl,
      register_topic-known c.topic_type s id c.topic.topic qos ensured,
    )

pub update_last_seen-gateways :
    (now : ℕ) (id : Str) (reg : BeaconRegistry)
    → ((j : Str) → url_of (update_last_seen now id reg) j ≡ url_of reg j)
      × ((update_last_seen now id reg).known_gateways ≡ reg.known_gateways)
unfolding update_last_seen
update_last_seen-gateways now id reg =
    (λ j. modify-url id j (λ r. record r { last_seen = now }) reg.records (λ r. refl), refl)
