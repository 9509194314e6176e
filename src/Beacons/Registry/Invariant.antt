-- ===== src/Beacons/Registry/Invariant.antt =====
-- registry.rs: the gateways known and the gateways that records hold.
use place_home.Prelude.{
  ℕ, true, false, not, ◌≡◌, ◌≢◌, refl, Option, none, some, List, [], ◌∷◌, Result, ok, err, arith,
  eq_iff, ◌==◌, retain, contains, if◌then◌else◌, Bool-cases, Option-cases, inl, inr, ap, ◌∙◌, sym,
}
use place_home.Prelude.Text.{Str, str_eq, str_eq_iff, str_has_eq}
use place_home.Prelude.Map.{
  lookup, modify, lookup-insert, lookup-modify, HasDistinctKeys, insert-HasDistinctKeys,
  remove-HasDistinctKeys, modify-HasDistinctKeys,
}
use place_home.Services.Types.{Channel}
use place_home.Beacons.Types.{TopicType, listen, broadcast, hybrid, TopicChannel, QoS}
use place_home.Beacons.Registry.{
  BeaconRecord, BeaconRegistry, ensure_by, ensure, fresh_record, register_topic, register_channel,
  Await, give_up, check_timeouts_until, remove_by, evict, check_timeouts, update_last_seen,
  insert_gateway, associate_by, associate_gateway, qos_from_u8,
}
use place_home.Beacons.Registry.Cut.{check_timeouts-keeps, check_timeouts_until-keeps}
use place_home.Beacons.Registry.Sweep.{remove_by-lookup}

abbrev pub url_by : Option BeaconRecord → Option Str
url_by none = none
url_by (some r) = r.gateway_url

-- The gateway that a beacon's record holds.
abbrev pub url_of : BeaconRegistry → Str → Option Str
url_of reg id = url_by (lookup id reg.records)

-- A gateway that a record holds is known, and no two records hold the same.
pub record IsSound (reg : BeaconRegistry) : Type 0 where
  pub keys : HasDistinctKeys reg.records
  pub known : (id g : Str) → url_of reg id ≡ some g → contains g reg.known_gateways ≡ true
  pub unique : (id j g : Str) → url_of reg id ≡ some g → url_of reg j ≡ some g → id ≡ j

pub ensure_by-lookup :
    (o : Option BeaconRecord) (id j : Str) (now : ℕ) (records : List (Str × BeaconRecord))
    → lookup id records ≡ o
    → url_by (lookup j (ensure_by o id now records)) ≡ url_by (lookup j records)
unfolding ensure_by
ensure_by-lookup none id j now records e =
    ground (arith, lookup-insert id j (fresh_record now) records, eq_iff id j)
ensure_by-lookup (some r) id j now records e = refl

ensure_by-keys :
    (o : Option BeaconRecord) (id : Str) (now : ℕ) (records : List (Str × BeaconRecord))
    → HasDistinctKeys records
    → HasDistinctKeys (ensure_by o id now records)
unfolding ensure_by
ensure_by-keys none id now records h = insert-HasDistinctKeys id (fresh_record now) records h
ensure_by-keys (some r) id now records h = h

-- A change that keeps every record's gateway keeps the fields of a sound registry that speak of it.
same_urls-IsSound :
    (reg reg' : BeaconRegistry)
    → HasDistinctKeys reg'.records
    → ((j : Str) → url_of reg' j ≡ url_of reg j)
    → reg'.known_gateways ≡ reg.known_gateways
    → IsSound reg
    → IsSound reg'
same_urls-IsSound reg reg' k u e h = record {
  keys = k;
  known = λ id g p. rw e (h.known id g (sym (u id) ∙ p));
  unique = λ id j g p q. h.unique id j g (sym (u id) ∙ p) (sym (u j) ∙ q);
}

pub modify-url :
    (id j : Str) (f : BeaconRecord → BeaconRecord) (records : List (Str × BeaconRecord))
    → ((r : BeaconRecord) → (f r).gateway_url ≡ r.gateway_url)
    → url_by (lookup j (modify id f records)) ≡ url_by (lookup j records)
modify-url id j f records e = elim (Option-cases (lookup j records)) [
  | inl n ↦ ground (arith, n, lookup-modify id j f records)
  | inr (r, n) ↦ ground (arith, n, e r, lookup-modify id j f records)
]

pub update_last_seen-IsSound :
    (now : ℕ) (id : Str) (reg : BeaconRegistry)
    → IsSound reg
    → IsSound (update_last_seen now id reg)
unfolding update_last_seen
update_last_seen-IsSound now id reg h =
    same_urls-IsSound reg (unfold update_last_seen in update_last_seen now id reg)
      (modify-HasDistinctKeys id _ reg.records h.keys)
      (λ j. modify-url id j (λ r. record r { last_seen = now }) reg.records (λ r. refl)) refl h

register_topic-IsSound :
    (t : TopicType) (s : Result Str Unit) (id topic : Str) (qos : QoS) (reg : BeaconRegistry)
    → IsSound reg
    → IsSound (register_topic t s id topic qos reg)
unfolding register_topic
register_topic-IsSound listen (err e) id topic qos reg h = record {
  keys = h.keys;
  known = h.known;
  unique = h.unique;
}
register_topic-IsSound listen (ok _) id topic qos reg h =
    same_urls-IsSound reg _ (modify-HasDistinctKeys id _ reg.records h.keys)
      (λ j. modify-url id j _ reg.records (λ r. refl)) refl h
register_topic-IsSound broadcast s id topic qos reg h =
    same_urls-IsSound reg _ (modify-HasDistinctKeys id _ reg.records h.keys)
      (λ j. modify-url id j _ reg.records (λ r. refl)) refl h
register_topic-IsSound hybrid (err e) id topic qos reg h = record {
  keys = h.keys;
  known = h.known;
  unique = h.unique;
}
register_topic-IsSound hybrid (ok _) id topic qos reg h =
    same_urls-IsSound reg _ (modify-HasDistinctKeys id _ reg.records h.keys)
      (λ j. modify-url id j _ reg.records (λ r. refl)) refl h

pub register_channel-IsSound :
    (now : ℕ) (s : Result Str Unit) (c : TopicChannel) (reg : BeaconRegistry)
    → IsSound reg
    → IsSound (register_channel now s c reg)
unfolding register_channel
register_channel-IsSound now s c reg h =
    register_topic-IsSound c.topic_type s c.beacon_id c.topic.topic (qos_from_u8 c.topic.qos)
      (record reg { records = ensure c.beacon_id now reg.records })
      (same_urls-IsSound reg _
        (ensure_by-keys (lookup c.beacon_id reg.records) c.beacon_id now reg.records h.keys)
        (λ j. ensure_by-lookup (lookup c.beacon_id reg.records) c.beacon_id j now reg.records refl)
        refl h)

contains-retain :
    (g url : Str) (known : List Str)
    → contains g (retain (λ u. not (str_eq u url)) known)
      ≡ (if str_eq g url then false else contains g known)
unfolding contains retain
contains-retain g url [] = ground arith
contains-retain g url (u ∷ known) =
    ground (arith, contains-retain g url known, str_eq_iff u url, str_eq_iff g url, str_eq_iff u g)

pub contains-evict :
    (g : Str) (o : Option Str) (known : List Str)
    → o ≢ some g
    → contains g (evict o known) ≡ contains g known
unfolding evict
contains-evict g none known n = refl
contains-evict g (some url) known n = ground (arith, contains-retain g url known, str_eq_iff g url)

-- The other records that a removal leaves keep their gateway.
pub url_of-remove_by :
    (o : Option BeaconRecord) (id j g : Str) (reg : BeaconRegistry)
    → lookup id reg.records ≡ o
    → url_of (remove_by o id reg) j ≡ some g
    → (id ≢ j) × (url_of reg j ≡ some g)
url_of-remove_by o id j g reg e p =
    let l = remove_by-lookup o id j reg e in
    elim (Bool-cases (id == j)) [
      | inl same ↦ absurd (ground (arith, l))
      | inr other ↦ (λ q. ground (arith, eq_iff id j), ground (arith, l))
    ]

remove_by-IsSound :
    (o : Option BeaconRecord) (id : Str) (reg : BeaconRegistry)
    → lookup id reg.records ≡ o
    → IsSound reg
    → IsSound (remove_by o id reg)
unfolding remove_by
remove_by-IsSound none id reg e h = h
remove_by-IsSound (some r) id reg e h = record {
  keys = remove-HasDistinctKeys id reg.records h.keys;
  known = λ j g p.
      let (other, q) = url_of-remove_by (some r) id j g reg e p in
      contains-evict g r.gateway_url reg.known_gateways
        (λ u. other (h.unique id j g (ap url_by e ∙ u) q))
      ∙ h.known j g q;
  unique = λ i j g p q.
      h.unique i j g (url_of-remove_by (some r) id i g reg e p).1
        (url_of-remove_by (some r) id j g reg e q).1;
}

give_up-IsSound :
    (at : Await) (id : Str) (r : BeaconRecord) (reg : BeaconRegistry)
    → lookup id reg.records ≡ some r
    → IsSound reg
    → IsSound (give_up at id r reg)
unfolding give_up remove_by
give_up-IsSound at id r reg e h = record {
  keys = remove-HasDistinctKeys id reg.records h.keys;
  known = λ j g p. h.known j g (url_of-remove_by (some r) id j g reg e p).1;
  unique = λ i j g p q.
      h.unique i j g (url_of-remove_by (some r) id i g reg e p).1
        (url_of-remove_by (some r) id j g reg e q).1;
}

pub check_timeouts-IsSound :
    (now : ℕ) (reg : BeaconRegistry) → IsSound reg → IsSound (check_timeouts now reg)
check_timeouts-IsSound now reg h =
    check_timeouts-keeps IsSound (λ id reg. remove_by-IsSound (lookup id reg.records) id reg refl)
      give_up-IsSound now reg h

pub check_timeouts_until-IsSound :
    (now n : ℕ) (at : Await) (reg : BeaconRegistry)
    → IsSound reg
    → IsSound (check_timeouts_until now n at reg)
check_timeouts_until-IsSound now n at reg h =
    check_timeouts_until-keeps IsSound
      (λ id reg. remove_by-IsSound (lookup id reg.records) id reg refl) give_up-IsSound now n at reg
      h

pub insert_gateway-IsSound :
    (url : Str) (reg : BeaconRegistry) → IsSound reg → IsSound (insert_gateway url reg)
unfolding insert_gateway contains
insert_gateway-IsSound url reg h = elim (Bool-cases (contains url reg.known_gateways)) [
  | inl e ↦ rw e h
  | inr e ↦
      rw e (record {
        keys = h.keys;
        known = λ id g p. ground (arith, h.known id g);
        unique = h.unique;
      })
]

associate_by-IsSound :
    (o : Option BeaconRecord) (id url : Str) (c : Channel) (reg : BeaconRegistry)
    → lookup id reg.records ≡ o
    → contains url reg.known_gateways ≡ true
    → ((j : Str) → url_of reg j ≢ some url)
    → IsSound reg
    → IsSound (associate_by o id url c reg)
unfolding associate_by
associate_by-IsSound none id url c reg e k n h = record {
  keys = h.keys;
  known = h.known;
  unique = h.unique;
}
associate_by-IsSound (some r) id url c reg e k n h =
    let r' = record r { gateway_url = some url; gateway_shutdown_tx = some c } in
    record {
      keys = insert-HasDistinctKeys id r' reg.records h.keys;
      known = λ j g p. ground (arith, lookup-insert id j r' reg.records, h.known j g, k);
      unique = λ i j g p q. ground (
        arith,
        lookup-insert id i r' reg.records,
        lookup-insert id j r' reg.records,
        h.unique i j g,
        n i,
        n j,
        eq_iff id i,
        eq_iff id j,
      );
    }

pub associate_gateway-IsSound :
    (id url : Str) (c : Channel) (reg : BeaconRegistry)
    → contains url reg.known_gateways ≡ true
    → ((j : Str) → url_of reg j ≢ some url)
    → IsSound reg
    → IsSound (associate_gateway id url c reg)
unfolding associate_gateway
associate_gateway-IsSound id url c reg k n h =
    associate_by-IsSound (lookup id reg.records) id url c reg refl k n h
