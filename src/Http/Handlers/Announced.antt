-- ===== src/Http/Handlers/Announced.antt =====
-- internals/handlers.rs of services/beacon_management: the topic channels of a handshake on their way
-- to the message loop.
use mathlib.Core.List.{append-nil, append_assoc}
use place_home.Prelude.{
  ℕ, suc, ◌<◌, ◌≡◌, refl, ap, ◌∙◌, Bool, true, false, zero, ◌-◌, ◌&&◌, if◌then◌else◌, Bool-cases,
  sym, Option, List, [], ◌∷◌, ◌++◌, Result, ok, err, length, length-append, ◌⊎◌, inl, inr, arith,
}
use place_home.Prelude.Text.{Str}
use place_home.Beacons.Types.{TopicChannel, listen, broadcast}
use place_home.Ca.{Rcgen, Database}
use place_home.Broker.Identities.{Files}
use place_home.Http.Requests.{DeviceInfo, Request, Response, DeviceInitRequest, process_init}
use place_home.Http.Handlers.{
  TopicQueue, AppState, World, Meets, try_send, register_topics, topic_channel, receive_topic,
  broadcast_topic, welcome, after_identity, after_sign, init_with, handle_device_init,
}

try_send-room :
    (c : TopicChannel) (q : TopicQueue)
    → q.is_open ≡ true
    → length q.sent < q.capacity
    → try_send c q ≡ record q { sent = q.sent ++ c ∷ [] }
unfolding try_send
try_send-room c q h l = ground arith

try_send-full : (c : TopicChannel) (q : TopicQueue) → q.capacity ≡ length q.sent → try_send c q ≡ q
unfolding try_send
try_send-full c q l = ground arith

module _ (id : Str) where
  abbrev pub listening : TopicChannel
  listening = topic_channel id (receive_topic id) listen

  abbrev pub broadcasting : TopicChannel
  broadcasting = topic_channel id (broadcast_topic id) broadcast

  -- With room for two, both channels are sent, in this order.
  pub register_topics-both :
      (q : TopicQueue)
      → q.is_open ≡ true
      → suc (length q.sent) < q.capacity
      → register_topics true id q
        ≡ record q { sent = q.sent ++ listening ∷ [] ++ broadcasting ∷ [] }
  unfolding register_topics
  register_topics-both q h l = rw (try_send-room listening q h (omega arith)) (
      try_send-room broadcasting (record q { sent = q.sent ++ listening ∷ [] }) h
        (omega (arith, length-append q.sent (listening ∷ []))))

  -- With room for one, the second is lost.
  register_topics-one :
      (q : TopicQueue)
      → q.is_open ≡ true
      → suc (length q.sent) ≡ q.capacity
      → register_topics true id q ≡ record q { sent = q.sent ++ listening ∷ [] }
  unfolding register_topics
  register_topics-one q h l = rw (try_send-room listening q h (omega arith)) (
      try_send-full broadcasting (record q { sent = q.sent ++ listening ∷ [] })
        (omega (arith, length-append q.sent (listening ∷ []))))

-- The places that are free for the topics of a handshake: none without a queue to the message loop,
-- or with a closed one.
abbrev pub room : Bool → TopicQueue → ℕ
room has_tx q = if has_tx && q.is_open then q.capacity - length q.sent else 0

-- As many as there is room for.
abbrev pub fitting : List TopicChannel → ℕ → List TopicChannel
fitting [] n = []
fitting (c ∷ cs) zero = []
fitting (c ∷ cs) (suc n) = c ∷ fitting cs n

try_send-none : (c : TopicChannel) (q : TopicQueue) → room true q ≡ 0 → try_send c q ≡ q
unfolding try_send
try_send-none c q e = ground (arith, e)

register_topics-room :
    (id : Str) (q : TopicQueue) (k : ℕ)
    → room true q ≡ k
    → (register_topics true id q).sent ≡ q.sent ++ fitting (listening id ∷ broadcasting id ∷ []) k
unfolding register_topics
register_topics-room id q zero e =
    rw (try_send-none (listening id) q e)
      (rw (try_send-none (broadcasting id) q e) (sym (append-nil q.sent)))
register_topics-room id q (suc zero) e = elim (Bool-cases q.is_open) [
  | inl o ↦ ap (λ q. q.sent) (register_topics-one id q o (ground (arith, e)))
  | inr o ↦ absurd (ground (arith, e))
]
register_topics-room id q (suc (suc k)) e = elim (Bool-cases q.is_open) [
  | inl o ↦
      ap (λ q. q.sent) (register_topics-both id q o (ground (arith, e)))
      ∙ append_assoc q.sent (listening id ∷ []) (broadcasting id ∷ [])
  | inr o ↦ absurd (ground (arith, e))
]

pub register_topics-sent :
    (has_tx : Bool) (id : Str) (q : TopicQueue)
    → (register_topics has_tx id q).sent
      ≡ q.sent ++ fitting (listening id ∷ broadcasting id ∷ []) (room has_tx q)
unfolding register_topics
register_topics-sent false id q = sym (append-nil q.sent)
register_topics-sent true id q = register_topics-room id q (room true q) refl

module _ {K P Q C : Type 0} (r : Rcgen K P Q C) (m : Meets K) (state : AppState K C) where
  -- Answers and topics of one handshake with two queues.
  abbrev SameBut : TopicQueue → Response × World → Response × World → Type 0
  SameBut q out out' =
      (out.0 ≡ out'.0)
      × ((out.1.topics ≡ q) ⊎ (out.1.topics ≡ register_topics state.has_topic_tx m.uuid q))

  after_identity-SameBut :
      (request : DeviceInitRequest) (pem : Str) (w : World) (q : TopicQueue)
      (i : Result Str Unit × Files)
      → SameBut q
          (after_identity r m state request pem (record w { topics = q }) i)
          (after_identity r m state request pem w i)
  unfolding after_identity welcome
  after_identity-SameBut request pem w q (err e, files) = (refl, inl refl)
  after_identity-SameBut request pem w q (ok _, files) = (refl, inr refl)

  after_sign-SameBut :
      (request : DeviceInitRequest) (w : World) (q : TopicQueue) (s : Result Str Str × Database)
      → SameBut q
          (after_sign r m state request s (record w { topics = q }))
          (after_sign r m state request s w)
  unfolding after_sign
  after_sign-SameBut request w q (err e, db) = (refl, inl refl)
  after_sign-SameBut request w q (ok pem, db) =
      after_identity-SameBut request pem (record w { db = db }) q _

  init_with-SameBut :
      (p : Result Response DeviceInitRequest) (w : World) (q : TopicQueue)
      → SameBut q (init_with r m state p (record w { topics = q })) (init_with r m state p w)
  unfolding init_with
  init_with-SameBut (err e) w q = (refl, inl refl)
  init_with-SameBut (ok request) w q = after_sign-SameBut request w q _

  -- A handshake over an open queue with a single free place is answered as over any other queue,
  -- and yet no channel of the beacon is sent but, at most, the one for its messages: the channel
  -- for its broadcasts is lost.
  pub full_queue-unnoticed :
      (parse : List ℕ → Option DeviceInfo) (req : Request) (w : World) (q : TopicQueue)
      → state.has_topic_tx ≡ true
      → q.is_open ≡ true
      → suc (length q.sent) ≡ q.capacity
      → let out = handle_device_init r m state parse req (record w { topics = q }) in
        (out.0 ≡ (handle_device_init r m state parse req w).0)
        × ((out.1.topics.sent ≡ q.sent) ⊎ (out.1.topics.sent ≡ q.sent ++ listening m.uuid ∷ []))
  unfolding handle_device_init
  full_queue-unnoticed parse req w q t h l =
      let (same, sent) = init_with-SameBut (process_init parse req) w q in
      (
        same,
        elim sent [
          | inl e ↦ inl (ap (λ q. q.sent) e)
          | inr e ↦ inr (
              ap (λ q. q.sent)
                (e ∙ ap (λ b. register_topics b m.uuid q) t ∙ register_topics-one m.uuid q h l))
        ],
      )
