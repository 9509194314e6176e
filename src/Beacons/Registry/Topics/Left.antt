-- ===== src/Beacons/Registry/Topics/Left.antt =====
-- registry.rs: a topic that is on the list and that no beacon has.
use place_home.Prelude.{
  ℕ, true, ◌≡◌, ◌≢◌, refl, Option, none, some, List, [], ◌∷◌, Result, ok, err, arith, eq_iff, ◌==◌,
  contains, Bool-cases, Option-cases, inl, inr, ap, ◌∙◌, sym,
}
use place_home.Prelude.Text.{Str, str_eq_iff, str_has_eq}
use place_home.Prelude.Map.{lookup, modify, remove, lookup-insert, lookup-remove, lookup-modify}
use place_home.Services.Types.{Channel}
use place_home.Beacons.Types.{TopicType, listen, broadcast, hybrid, TopicChannel, QoS}
use place_home.Beacons.Registry.{
  BeaconRecord, BeaconRegistry, Await, lock, ensure_by, ensure, fresh_record, register_topic,
  register_channel, remove_by, drop_topic, stale_ids, check_timeouts, give_up, check_timeouts_until,
  update_last_seen, insert_gateway, associate_by, associate_gateway,
}
use place_home.Beacons.Registry.Topics.{topic_by, topic_of, contains-snoc, contains-drop}
use place_home.Beacons.Registry.Topics.Calls.{modify-topic}
use place_home.Beacons.Registry.Cut.{
  give_up-first, check_timeouts-keeps, check_timeouts_until-keeps,
}

module _ (t : Str) (ne : t ≢ []) where
  pub record IsLeft (reg : BeaconRegistry) : Type 0 where
    pub listed : contains t reg.broadcast_topics ≡ true
    pub unowned : (j : Str) → topic_of reg j ≢ some t

  ensure_by-owner :
      (o : Option BeaconRecord) (id j : Str) (now : ℕ) (records : List (Str × BeaconRecord))
      → lookup id records ≡ o
      → topic_by (lookup j (ensure_by o id now records)) ≡ some t
      → topic_by (lookup j records) ≡ some t
  unfolding ensure_by
  ensure_by-owner none id j now records e p =
      ground (arith, lookup-insert id j (fresh_record now) records, eq_iff id j, e, p, ne)
  ensure_by-owner (some r) id j now records e p = p

  modify-owner :
      (id j topic : Str) (f : BeaconRecord → BeaconRecord) (records : List (Str × BeaconRecord))
      → topic ≢ t
      → ((r : BeaconRecord) → (f r).broadcast_topic ≡ topic)
      → topic_by (lookup j (modify id f records)) ≡ some t
      → topic_by (lookup j records) ≡ some t
  modify-owner id j topic f records n e p = elim (Option-cases (lookup j records)) [
    | inl z ↦ ground (arith, z, lookup-modify id j f records, p)
    | inr (r, z) ↦ ground (arith, z, e r, lookup-modify id j f records, p)
  ]

  register_topic-IsLeft :
      (k : TopicType) (s : Result Str Unit) (id topic : Str) (qos : QoS) (reg : BeaconRegistry)
      → topic ≢ t
      → IsLeft reg
      → IsLeft (register_topic k s id topic qos reg)
  unfolding register_topic
  register_topic-IsLeft listen (err e) id topic qos reg n h = record {
    listed = h.listed;
    unowned = h.unowned;
  }
  register_topic-IsLeft listen (ok _) id topic qos reg n h = record {
    listed = h.listed;
    unowned = λ j p. h.unowned j (sym (modify-topic id j _ reg.records (λ q. refl)) ∙ p);
  }
  register_topic-IsLeft broadcast s id topic qos reg n h = record {
    listed = ground (arith, contains-snoc t topic reg.broadcast_topics, h.listed);
    unowned = λ j p. h.unowned j (modify-owner id j topic _ reg.records n (λ q. refl) p);
  }
  register_topic-IsLeft hybrid (err e) id topic qos reg n h = record {
    listed = h.listed;
    unowned = h.unowned;
  }
  register_topic-IsLeft hybrid (ok _) id topic qos reg n h = record {
    listed = ground (arith, contains-snoc t topic reg.broadcast_topics, h.listed);
    unowned = λ j p. h.unowned j (modify-owner id j topic _ reg.records n (λ q. refl) p);
  }

  pub register_channel-IsLeft :
      (now : ℕ) (s : Result Str Unit) (c : TopicChannel) (reg : BeaconRegistry)
      → c.topic.topic ≢ t
      → IsLeft reg
      → IsLeft (register_channel now s c reg)
  unfolding register_channel ensure
  register_channel-IsLeft now s c reg n h =
      let id = c.beacon_id in
      register_topic-IsLeft c.topic_type s id c.topic.topic _
        (record reg { records = ensure id now reg.records }) n
        (record {
          listed = h.listed;
          unowned = λ j p.
              h.unowned j (ensure_by-owner (lookup id reg.records) id j now reg.records refl p);
        })

  removed-owner :
      (id j : Str) (records : List (Str × BeaconRecord))
      → topic_by (lookup j (remove id records)) ≡ some t
      → topic_by (lookup j records) ≡ some t
  removed-owner id j records p = ground (arith, lookup-remove id j records, p)

  drop_topic-listed :
      (u : Str) (topics : List Str)
      → u ≢ t
      → contains t topics ≡ true
      → contains t (drop_topic u topics) ≡ true
  unfolding drop_topic
  drop_topic-listed [] topics n h = h
  drop_topic-listed (a ∷ u) topics n h =
      ground (arith, contains-drop t (a ∷ u) topics, str_eq_iff t (a ∷ u), h)

  remove_by-IsLeft :
      (o : Option BeaconRecord) (id : Str) (reg : BeaconRegistry)
      → lookup id reg.records ≡ o
      → IsLeft reg
      → IsLeft (remove_by o id reg)
  unfolding remove_by
  remove_by-IsLeft none id reg e h = h
  remove_by-IsLeft (some r) id reg e h = record {
    listed =
        drop_topic-listed r.broadcast_topic reg.broadcast_topics
          (λ same. h.unowned id (ap topic_by e ∙ ap some same)) h.listed;
    unowned = λ j p. h.unowned j (removed-owner id j reg.records p);
  }

  give_up-IsLeft :
      (at : Await) (id : Str) (r : BeaconRecord) (reg : BeaconRegistry)
      → lookup id reg.records ≡ some r
      → IsLeft reg
      → IsLeft (give_up at id r reg)
  unfolding give_up
  give_up-IsLeft at id r reg e h = record {
    listed = h.listed;
    unowned = λ j p. h.unowned j (removed-owner id j reg.records p);
  }

  pub check_timeouts-IsLeft :
      (now : ℕ) (reg : BeaconRegistry) → IsLeft reg → IsLeft (check_timeouts now reg)
  check_timeouts-IsLeft now reg h =
      check_timeouts-keeps IsLeft (λ id reg. remove_by-IsLeft (lookup id reg.records) id reg refl)
        give_up-IsLeft now reg h

  pub check_timeouts_until-IsLeft :
      (now n : ℕ) (at : Await) (reg : BeaconRegistry)
      → IsLeft reg
      → IsLeft (check_timeouts_until now n at reg)
  check_timeouts_until-IsLeft now n at reg h =
      check_timeouts_until-keeps IsLeft
        (λ id reg. remove_by-IsLeft (lookup id reg.records) id reg refl) give_up-IsLeft now n at reg
        h

  pub update_last_seen-IsLeft :
      (now : ℕ) (id : Str) (reg : BeaconRegistry)
      → IsLeft reg
      → IsLeft (update_last_seen now id reg)
  unfolding update_last_seen
  update_last_seen-IsLeft now id reg h = record {
    listed = h.listed;
    unowned = λ j p. h.unowned j (sym (modify-topic id j _ reg.records (λ q. refl)) ∙ p);
  }

  pub insert_gateway-IsLeft :
      (url : Str) (reg : BeaconRegistry) → IsLeft reg → IsLeft (insert_gateway url reg)
  unfolding insert_gateway
  insert_gateway-IsLeft url reg h = elim (Bool-cases (contains url reg.known_gateways)) [
    | inl e ↦ rw e h
    | inr e ↦ rw e (record { listed = h.listed; unowned = h.unowned })
  ]

  associate_by-IsLeft :
      (o : Option BeaconRecord) (id url : Str) (c : Channel) (reg : BeaconRegistry)
      → lookup id reg.records ≡ o
      → IsLeft reg
      → IsLeft (associate_by o id url c reg)
  unfolding associate_by
  associate_by-IsLeft none id url c reg e h = record { listed = h.listed; unowned = h.unowned }
  associate_by-IsLeft (some r) id url c reg e h = record {
    listed = h.listed;
    unowned = λ j p.
        let r' = record r { gateway_url = some url; gateway_shutdown_tx = some c } in
        h.unowned j (ground (arith, e, lookup-insert id j r' reg.records, eq_iff id j, p));
  }

  pub associate_gateway-IsLeft :
      (id url : Str) (c : Channel) (reg : BeaconRegistry)
      → IsLeft reg
      → IsLeft (associate_gateway id url c reg)
  unfolding associate_gateway
  associate_gateway-IsLeft id url c reg h =
      associate_by-IsLeft (lookup id reg.records) id url c reg refl h

  removed-unowned :
      (id : Str) (reg : BeaconRegistry)
      → ((j : Str) → topic_of reg j ≡ some t → j ≡ id)
      → (j : Str) → topic_by (lookup j (remove id reg.records)) ≢ some t
  removed-unowned id reg alone j p = elim (Bool-cases (id == j)) [
    | inl same ↦ ground (arith, lookup-remove id j reg.records, p)
    | inr other ↦
        let q : topic_of reg j ≡ some t = ground (arith, lookup-remove id j reg.records, p) in
        ground (arith, alone j q, eq_iff id j)
  ]

  -- The topic of a stale beacon that no other has.
  pub given_up-IsLeft :
      (now : ℕ) (id : Str) (ids : List Str) (b : BeaconRecord) (reg : BeaconRegistry)
      → stale_ids now reg.records ≡ id ∷ ids
      → lookup id reg.records ≡ some b
      → b.broadcast_topic ≡ t
      → contains t reg.broadcast_topics ≡ true
      → ((j : Str) → topic_of reg j ≡ some t → j ≡ id)
      → IsLeft (check_timeouts_until now 0 lock reg)
  unfolding give_up
  given_up-IsLeft now id ids b reg e f same c alone =
      rw (give_up-first now id ids b reg e f (λ z. ne (sym same ∙ z)))
        (record { listed = c; unowned = removed-unowned id reg alone })
