-- ===== src/Beacons/Registry/Held.antt =====
-- registry.rs: the records that hold connections.
use place_home.Prelude.{
  ℕ, false, ◌≡◌, ◌≢◌, refl, Option, none, some, List, Result, ok, err, arith, sym, ◌∙◌, ap,
  contains, Bool-cases, Option-cases, inl, inr, eq_iff, ◌==◌, nat_eq,
}
use place_home.Prelude.Text.{Str, str_has_eq}
use place_home.Prelude.Map.{lookup, modify, lookup-insert, lookup-modify}
use place_home.Services.Types.{Channel}
use place_home.Beacons.Types.{TopicType, listen, broadcast, hybrid, TopicChannel, QoS}
use place_home.Beacons.Registry.{
  BeaconRecord, BeaconRegistry, check_timeouts, Await, give_up, check_timeouts_until, remove_by,
  insert_gateway, associate_by, associate_gateway, close, register_channel, register_topic, ensure,
  ensure_by, fresh_record, update_last_seen, qos_from_u8,
}
use place_home.Beacons.Registry.Cut.{check_timeouts-keeps, check_timeouts_until-keeps}
use place_home.Beacons.Registry.Sweep.{remove_by-lookup}

-- The gateway and the shutdown sender that a record has.
abbrev pub link : Option BeaconRecord → Option Str × Option Channel
link none = (none, none)
link (some r) = (r.gateway_url, r.gateway_shutdown_tx)

abbrev pub link_of : BeaconRegistry → Str → Option Str × Option Channel
link_of reg id = link (lookup id reg.records)

-- If the connection has not been closed, some beacon's record has its gateway and its sender.
abbrev pub HeldIfOpen : Str → Channel → BeaconRegistry → Type 0
HeldIfOpen g c reg =
    contains c reg.closed ≡ false → (id : Str) × (link_of reg id ≡ (some g, some c))

same_links-HeldIfOpen :
    (g : Str) (c : Channel) (reg reg' : BeaconRegistry)
    → ((j : Str) → link_of reg' j ≡ link_of reg j)
    → reg'.closed ≡ reg.closed
    → HeldIfOpen g c reg
    → HeldIfOpen g c reg'
same_links-HeldIfOpen g c reg reg' u e h open_now =
    let (id, p) = h (sym (ap (contains c) e) ∙ open_now) in (id, u id ∙ p)

modify-link :
    (id j : Str) (f : BeaconRecord → BeaconRecord) (records : List (Str × BeaconRecord))
    → ((r : BeaconRecord) → link (some (f r)) ≡ link (some r))
    → link (lookup j (modify id f records)) ≡ link (lookup j records)
modify-link id j f records e = elim (Option-cases (lookup j records)) [
  | inl n ↦ ground (arith, n, lookup-modify id j f records)
  | inr (r, n) ↦ ground (arith, n, e r, lookup-modify id j f records)
]

ensure_by-link :
    (o : Option BeaconRecord) (id j : Str) (now : ℕ) (records : List (Str × BeaconRecord))
    → lookup id records ≡ o
    → link (lookup j (ensure_by o id now records)) ≡ link (lookup j records)
unfolding ensure_by
ensure_by-link none id j now records e =
    ground (arith, lookup-insert id j (fresh_record now) records, eq_iff id j)
ensure_by-link (some r) id j now records e = refl

register_topic-HeldIfOpen :
    (g : Str) (c : Channel) (t : TopicType) (s : Result Str Unit) (id topic : Str) (qos : QoS)
    (reg : BeaconRegistry)
    → HeldIfOpen g c reg
    → HeldIfOpen g c (register_topic t s id topic qos reg)
unfolding register_topic
register_topic-HeldIfOpen g c listen (err e) id topic qos reg h = h
register_topic-HeldIfOpen g c listen (ok u) id topic qos reg h =
    same_links-HeldIfOpen g c reg
      (unfold register_topic in register_topic listen (ok u) id topic qos reg)
      (λ j. modify-link id j _ reg.records (λ r. refl)) refl h
register_topic-HeldIfOpen g c broadcast s id topic qos reg h =
    same_links-HeldIfOpen g c reg
      (unfold register_topic in register_topic broadcast s id topic qos reg)
      (λ j. modify-link id j _ reg.records (λ r. refl)) refl h
register_topic-HeldIfOpen g c hybrid (err e) id topic qos reg h = h
register_topic-HeldIfOpen g c hybrid (ok u) id topic qos reg h =
    same_links-HeldIfOpen g c reg
      (unfold register_topic in register_topic hybrid (ok u) id topic qos reg)
      (λ j. modify-link id j _ reg.records (λ r. refl)) refl h

pub register_channel-HeldIfOpen :
    (g : Str) (c : Channel) (now : ℕ) (s : Result Str Unit) (t : TopicChannel)
    (reg : BeaconRegistry)
    → HeldIfOpen g c reg
    → HeldIfOpen g c (register_channel now s t reg)
unfolding register_channel
register_channel-HeldIfOpen g c now s t reg h =
    let id = t.beacon_id in
    let ensured = record reg { records = ensure id now reg.records } in
    register_topic-HeldIfOpen g c t.topic_type s id t.topic.topic (qos_from_u8 t.topic.qos) ensured
      (same_links-HeldIfOpen g c reg ensured
        (λ j. ensure_by-link (lookup id reg.records) id j now reg.records refl) refl h)

pub update_last_seen-HeldIfOpen :
    (g : Str) (c : Channel) (now : ℕ) (id : Str) (reg : BeaconRegistry)
    → HeldIfOpen g c reg
    → HeldIfOpen g c (update_last_seen now id reg)
unfolding update_last_seen
update_last_seen-HeldIfOpen g c now id reg h =
    same_links-HeldIfOpen g c reg (unfold update_last_seen in update_last_seen now id reg)
      (λ j. modify-link id j (λ r. record r { last_seen = now }) reg.records (λ r. refl)) refl h

-- What closing a sender leaves open was open, and is another sender.
open_after_close :
    (c : Channel) (o : Option Channel) (closed : List Channel)
    → contains c (close o closed) ≡ false
    → (contains c closed ≡ false) × (o ≢ some c)
unfolding close contains
open_after_close c none closed h = (h, λ p. cc)
open_after_close c (some d) closed h = (ground (arith, eq_iff d c), λ p. ground (arith, eq_iff d c))

remove_by-HeldIfOpen :
    (g : Str) (c : Channel) (o : Option BeaconRecord) (id : Str) (reg : BeaconRegistry)
    → lookup id reg.records ≡ o
    → HeldIfOpen g c reg
    → HeldIfOpen g c (remove_by o id reg)
remove_by-HeldIfOpen g c none id reg e h open_now =
    unfold remove_by in h (unfold remove_by in open_now)
remove_by-HeldIfOpen g c (some r) id reg e h open_now =
    let (was_open, other) =
      open_after_close c r.gateway_shutdown_tx reg.closed (unfold remove_by in open_now) in
    let (j, p) = h was_open in
    (
      j,
      elim (Bool-cases (id == j)) [
        | inl same ↦ absurd (other (ground (arith, eq_iff id j)))
        | inr differ ↦ ground (arith, remove_by-lookup (some r) id j reg e)
      ],
    )

-- A record whose removal is given up has the same end for its sender.
give_up-HeldIfOpen :
    (g : Str) (c : Channel) (at : Await) (id : Str) (r : BeaconRecord) (reg : BeaconRegistry)
    → lookup id reg.records ≡ some r
    → HeldIfOpen g c reg
    → HeldIfOpen g c (give_up at id r reg)
unfolding give_up remove_by
give_up-HeldIfOpen g c at id r reg e h = remove_by-HeldIfOpen g c (some r) id reg e h

pub check_timeouts-HeldIfOpen :
    (g : Str) (c : Channel) (now : ℕ) (reg : BeaconRegistry)
    → HeldIfOpen g c reg
    → HeldIfOpen g c (check_timeouts now reg)
check_timeouts-HeldIfOpen g c now reg h =
    check_timeouts-keeps (HeldIfOpen g c)
      (λ id reg. remove_by-HeldIfOpen g c (lookup id reg.records) id reg refl)
      (give_up-HeldIfOpen g c) now reg h

pub check_timeouts_until-HeldIfOpen :
    (g : Str) (c : Channel) (now n : ℕ) (at : Await) (reg : BeaconRegistry)
    → HeldIfOpen g c reg
    → HeldIfOpen g c (check_timeouts_until now n at reg)
check_timeouts_until-HeldIfOpen g c now n at reg h =
    check_timeouts_until-keeps (HeldIfOpen g c)
      (λ id reg. remove_by-HeldIfOpen g c (lookup id reg.records) id reg refl)
      (give_up-HeldIfOpen g c) now n at reg h

pub insert_gateway-HeldIfOpen :
    (g : Str) (c : Channel) (url : Str) (reg : BeaconRegistry)
    → HeldIfOpen g c reg
    → HeldIfOpen g c (insert_gateway url reg)
unfolding insert_gateway
insert_gateway-HeldIfOpen g c url reg h = elim (Bool-cases (contains url reg.known_gateways)) [
  | inl e ↦ rw e h
  | inr e ↦ rw e h
]

associate_by-HeldIfOpen :
    (g : Str) (c : Channel) (o : Option BeaconRecord) (id url : Str) (d : Channel)
    (reg : BeaconRegistry)
    → lookup id reg.records ≡ o
    → HeldIfOpen g c reg
    → HeldIfOpen g c (associate_by o id url d reg)
associate_by-HeldIfOpen g c none id url d reg e h open_now =
    let (was_open, other) =
      open_after_close c (some d) reg.closed (unfold associate_by close in open_now) in
    unfold associate_by in h was_open
associate_by-HeldIfOpen g c (some r) id url d reg e h open_now =
    let (was_open, other) =
      open_after_close c r.gateway_shutdown_tx reg.closed (unfold associate_by in open_now) in
    let (j, p) = h was_open in
    let r' = record r { gateway_url = some url; gateway_shutdown_tx = some d } in
    (
      j,
      unfold associate_by in
          elim (Bool-cases (id == j)) [
            | inl same ↦ absurd (other (ground (arith, eq_iff id j)))
            | inr differ ↦ ground (arith, lookup-insert id j r' reg.records)
          ],
    )

pub associate_gateway-HeldIfOpen :
    (g : Str) (c : Channel) (id url : Str) (d : Channel) (reg : BeaconRegistry)
    → HeldIfOpen g c reg
    → HeldIfOpen g c (associate_gateway id url d reg)
unfolding associate_gateway
associate_gateway-HeldIfOpen g c id url d reg h =
    associate_by-HeldIfOpen g c (lookup id reg.records) id url d reg refl h

-- The connection that is associated is held by its beacon, or closed if the beacon is not registered.
associate_by-holds :
    (o : Option BeaconRecord) (id url : Str) (d : Channel) (reg : BeaconRegistry)
    → HeldIfOpen url d (associate_by o id url d reg)
unfolding associate_by close contains
associate_by-holds none id url d reg open_now = absurd (ground (arith, eq_iff d d))
associate_by-holds (some r) id url d reg open_now =
    let r' = record r { gateway_url = some url; gateway_shutdown_tx = some d } in
    (id, ground (arith, lookup-insert id id r' reg.records, eq_iff id id))

pub associate_gateway-holds :
    (id url : Str) (d : Channel) (reg : BeaconRegistry)
    → HeldIfOpen url d (associate_gateway id url d reg)
unfolding associate_gateway
associate_gateway-holds id url d reg = associate_by-holds (lookup id reg.records) id url d reg
