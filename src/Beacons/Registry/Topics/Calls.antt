-- ===== src/Beacons/Registry/Topics/Calls.antt =====
-- registry.rs: the calls of the registry, on channels as handshakes send them, keep its list of
-- broadcast topics to the beacons that it has.
use place_home.Prelude.{
  ℕ, ◌≡◌, ◌≢◌, ◌⊎◌, refl, Option, none, some, List, [], ◌∷◌, Result, ok, err, arith, eq_iff, ◌==◌,
  contains, if◌then◌else◌, Bool-cases, Option-cases, inl, inr, ap, ◌∙◌, sym,
}
use place_home.Prelude.Text.{Str, str, str_has_eq, strip_suffix, strip_suffix-append}
use place_home.Prelude.Map.{lookup, modify, lookup-insert, lookup-modify, lookup-remove}
use place_home.Services.Types.{Channel}
use place_home.Beacons.Types.{TopicType, listen, broadcast, hybrid, TopicChannel, QoS}
use place_home.Beacons.Registry.{
  BeaconRecord, BeaconRegistry, enter, register_entered, take_out, clean, ensure_by, ensure,
  fresh_record, register_topic, update_last_seen, insert_gateway, associate_by, associate_gateway,
  qos_from_u8,
}
use place_home.Beacons.Registry.Topics.{
  topic_by, Matches, grown-Matches, added-Matches, dropped-Matches,
}
use place_home.Http.Handlers.{broadcast_topic}

abbrev pub Lists : List (Str × BeaconRecord) → List Str → Type 0
Lists records topics = Matches broadcast_topic (λ j. topic_by (lookup j records)) topics

abbrev pub TopicsMatch : BeaconRegistry → Type 0
TopicsMatch reg = Lists reg.records reg.broadcast_topics

pub broadcast_topic-injective : (i j : Str) → broadcast_topic i ≡ broadcast_topic j → i ≡ j
broadcast_topic-injective i j h =
    let p : some i ≡ some j =
      sym (strip_suffix-append (str "/cast") i)
      ∙ (ap (strip_suffix (str "/cast")) h ∙ strip_suffix-append (str "/cast") j) in
    cc

pub broadcast_topic_ne : (j : Str) → broadcast_topic j ≢ []
broadcast_topic_ne [] h = cc
broadcast_topic_ne (c ∷ j) h = cc

-- A change of the records that changes no topic.
same_topics :
    (records records' : List (Str × BeaconRecord)) (topics : List Str)
    → ((j : Str) → topic_by (lookup j records') ≡ topic_by (lookup j records))
    → Lists records topics
    → Lists records' topics
same_topics records records' topics e h =
    grown-Matches broadcast_topic (λ j. topic_by (lookup j records))
      (λ j. topic_by (lookup j records')) topics (λ id u p. inr (sym (e id) ∙ p)) h

pub modify-topic :
    (id j : Str) (f : BeaconRecord → BeaconRecord) (records : List (Str × BeaconRecord))
    → ((r : BeaconRecord) → (f r).broadcast_topic ≡ r.broadcast_topic)
    → topic_by (lookup j (modify id f records)) ≡ topic_by (lookup j records)
modify-topic id j f records e = elim (Option-cases (lookup j records)) [
  | inl n ↦ ground (arith, n, lookup-modify id j f records)
  | inr (r, n) ↦ ground (arith, n, e r, lookup-modify id j f records)
]

pub update_last_seen-TopicsMatch :
    (now : ℕ) (id : Str) (reg : BeaconRegistry)
    → TopicsMatch reg
    → TopicsMatch (update_last_seen now id reg)
unfolding update_last_seen
update_last_seen-TopicsMatch now id reg h =
    same_topics reg.records _ reg.broadcast_topics
      (λ j. modify-topic id j (λ r. record r { last_seen = now }) reg.records (λ r. refl)) h

pub insert_gateway-TopicsMatch :
    (url : Str) (reg : BeaconRegistry) → TopicsMatch reg → TopicsMatch (insert_gateway url reg)
unfolding insert_gateway
insert_gateway-TopicsMatch url reg h = elim (Bool-cases (contains url reg.known_gateways)) [
  | inl e ↦ rw e h
  | inr e ↦ rw e h
]

associate_by-TopicsMatch :
    (o : Option BeaconRecord) (id url : Str) (c : Channel) (reg : BeaconRegistry)
    → lookup id reg.records ≡ o
    → TopicsMatch reg
    → TopicsMatch (associate_by o id url c reg)
unfolding associate_by
associate_by-TopicsMatch none id url c reg e h = h
associate_by-TopicsMatch (some r) id url c reg e h =
    let r' = record r { gateway_url = some url; gateway_shutdown_tx = some c } in
    same_topics reg.records _ reg.broadcast_topics
      (λ j. ground (arith, e, lookup-insert id j r' reg.records, eq_iff id j)) h

pub associate_gateway-TopicsMatch :
    (id url : Str) (c : Channel) (reg : BeaconRegistry)
    → TopicsMatch reg
    → TopicsMatch (associate_gateway id url c reg)
unfolding associate_gateway
associate_gateway-TopicsMatch id url c reg h =
    associate_by-TopicsMatch (lookup id reg.records) id url c reg refl h

ensure_by-Lists :
    (o : Option BeaconRecord) (id : Str) (now : ℕ) (records : List (Str × BeaconRecord))
    (topics : List Str)
    → lookup id records ≡ o
    → Lists records topics
    → Lists (ensure_by o id now records) topics
      × ((r : BeaconRecord) × (lookup id (ensure_by o id now records) ≡ some r))
unfolding ensure_by
ensure_by-Lists none id now records topics e h =
    let at = λ (j : Str). lookup-insert id j (fresh_record now) records in
    (
      grown-Matches broadcast_topic (λ j. topic_by (lookup j records)) _ topics
          (λ j t p. ground (arith, at j, eq_iff id j, e, p)) h,
      (fresh_record now, ground (arith, at id, eq_iff id id)),
    )
ensure_by-Lists (some r) id now records topics e h = (h, (r, e))

pub enter-TopicsMatch :
    (now : ℕ) (c : TopicChannel) (reg : BeaconRegistry)
    → TopicsMatch reg
    → TopicsMatch (enter now c reg)
      × ((r : BeaconRecord) × (lookup c.beacon_id (enter now c reg).records ≡ some r))
unfolding ensure
enter-TopicsMatch now c reg h =
    let id = c.beacon_id in
    ensure_by-Lists (lookup id reg.records) id now reg.records reg.broadcast_topics refl h

-- A channel as a handshake sends it.
abbrev pub IsMade : TopicChannel → Type 0
IsMade c =
    (c.topic_type ≡ listen)
    ⊎ ((c.topic_type ≡ broadcast) × (c.topic.topic ≡ broadcast_topic c.beacon_id))

pub set-topic :
    (id j topic : Str) (records : List (Str × BeaconRecord)) (r : BeaconRecord)
    → lookup id records ≡ some r
    → topic_by (lookup j (modify id (λ q. record q { broadcast_topic = topic }) records))
      ≡ (if id == j then some topic else topic_by (lookup j records))
set-topic id j topic records r l = ground (
  arith,
  lookup-modify id j (λ (q : BeaconRecord). record q { broadcast_topic = topic }) records,
  eq_iff id j,
  l,
)

register_topic-TopicsMatch :
    (k : TopicType) (s : Result Str Unit) (id topic : Str) (qos : QoS) (reg : BeaconRegistry)
    (r : BeaconRecord)
    → (k ≡ listen) ⊎ ((k ≡ broadcast) × (topic ≡ broadcast_topic id))
    → lookup id reg.records ≡ some r
    → TopicsMatch reg
    → TopicsMatch (register_topic k s id topic qos reg)
unfolding register_topic
register_topic-TopicsMatch listen (err e) id topic qos reg r m l h = h
register_topic-TopicsMatch listen (ok _) id topic qos reg r m l h =
    same_topics reg.records _ reg.broadcast_topics
      (λ j. modify-topic id j _ reg.records (λ q. refl)) h
register_topic-TopicsMatch broadcast s id topic qos reg r m l h =
    let e : topic ≡ broadcast_topic id = ground (arith, m) in
    rw e (
      added-Matches broadcast_topic (λ j. topic_by (lookup j reg.records)) _ reg.broadcast_topics id
        (λ j. set-topic id j (broadcast_topic id) reg.records r l) h)
register_topic-TopicsMatch hybrid s id topic qos reg r m l h = ground arith

pub register_entered-TopicsMatch :
    (s : Result Str Unit) (c : TopicChannel) (reg : BeaconRegistry) (r : BeaconRecord)
    → IsMade c
    → lookup c.beacon_id reg.records ≡ some r
    → TopicsMatch reg
    → TopicsMatch (register_entered s c reg)
register_entered-TopicsMatch s c reg r m e h =
    register_topic-TopicsMatch c.topic_type s c.beacon_id c.topic.topic (qos_from_u8 c.topic.qos)
      reg r m e h

-- The record of a beacon, with its own topic or none.
abbrev pub HasOwn : Str → BeaconRecord → Type 0
HasOwn id r = (r.broadcast_topic ≡ []) ⊎ (r.broadcast_topic ≡ broadcast_topic id)

pub take_out-TopicsMatch :
    (id : Str) (r : BeaconRecord) (reg : BeaconRegistry)
    → lookup id reg.records ≡ some r
    → TopicsMatch reg
    → TopicsMatch (take_out id reg) × HasOwn id r × (lookup id (take_out id reg).records ≡ none)
take_out-TopicsMatch id r reg e h = (
  grown-Matches broadcast_topic (λ j. topic_by (lookup j reg.records)) _ reg.broadcast_topics
      (λ j t p. ground (arith, lookup-remove id j reg.records, p)) h,
  elim (h id r.broadcast_topic (rw e refl)) [ inl z ↦ inl z | inr (w, c) ↦ inr w ],
  ground (arith, lookup-remove id id reg.records, eq_iff id id),
)

pub clean-TopicsMatch :
    (id : Str) (r : BeaconRecord) (reg : BeaconRegistry)
    → lookup id reg.records ≡ none
    → HasOwn id r
    → TopicsMatch reg
    → TopicsMatch (clean r reg)
clean-TopicsMatch id r reg e m h =
    dropped-Matches broadcast_topic (λ j. topic_by (lookup j reg.records)) reg.broadcast_topics id
      r.broadcast_topic (rw e refl) m broadcast_topic-injective h
