-- ===== src/Node/Welcomed.antt =====
-- internals/proxy.rs and handlers.rs: what a request sends to the message loop, and to whom it says
-- so.
use mathlib.Core.List.{Mem, mem-cons_of_mem}
use place_home.Prelude.{
  ℕ, Bool, true, false, ◌&&◌, ◌≡◌, ◌⊎◌, inl, inr, refl, ap, ltb, length, Option, List, [], ◌∷◌,
  Result, All, All-append, Bool-cases,
}
use place_home.Prelude.Text.{Str}
use place_home.Ca.{Rcgen}
use place_home.Config.{MqttBrokerageInfo}
use place_home.Beacons.Types.{TopicChannel, listen, broadcast}
use place_home.Http.Requests.{
  DeviceInfo, Request, Response, json_response, contains_key, header_health, header_init,
  header_register,
}
use place_home.Http.Handlers.{
  TopicQueue, AppState, World, Meets, try_send, register_topics, topic_channel, receive_topic,
  broadcast_topic, init_json, dispatch, handle_device_init, handle_client_register,
}
use place_home.Http.Handlers.Outcomes.{handle_device_init-outcome}
use place_home.Http.Handlers.Clients.{handle_client_register-outcome}

-- The answer of a handshake that succeeded, with the identifier that the device gets.
abbrev pub IsInvitation : Str → Response → Type 0
IsInvitation id response =
    (cert_pem : Str) × (info : MqttBrokerageInfo) × (response
      ≡ json_response 200 (init_json cert_pem info id))

-- A device was told this identifier.
abbrev pub Welcomed : Str → List (Str × Response) → Type 0
Welcomed id answers = (response : Response) × IsInvitation id response × Mem (id, response) answers

pub Welcomed-later :
    (id : Str) (a : Str × Response) (answers : List (Str × Response))
    → Welcomed id answers
    → Welcomed id (a ∷ answers)
Welcomed-later id a answers (response, i, m) = (response, i, mem-cons_of_mem a m)

try_send-All :
    (Q : TopicChannel → Type 0) (c : TopicChannel) (q : TopicQueue)
    → Q c
    → All Q q.sent
    → All Q (try_send c q).sent
unfolding try_send
try_send-All Q c q p h = elim (Bool-cases (q.is_open && ltb (length q.sent) q.capacity)) [
  | inl e ↦ rw e (All-append Q q.sent (c ∷ []) h (p, tt))
  | inr e ↦ rw e h
]

pub register_topics-All :
    (Q : TopicChannel → Type 0) (b : Bool) (id : Str) (q : TopicQueue)
    → Q (topic_channel id (receive_topic id) listen)
    → Q (topic_channel id (broadcast_topic id) broadcast)
    → All Q q.sent
    → All Q (register_topics b id q).sent
unfolding register_topics
register_topics-All Q false id q l b h = h
register_topics-All Q true id q l b h =
    try_send-All Q (topic_channel id (broadcast_topic id) broadcast)
      (try_send (topic_channel id (receive_topic id) listen) q) b
      (try_send-All Q (topic_channel id (receive_topic id) listen) q l h)

module _ {K P Q C : Type 0} (r : Rcgen K P Q C) (m : Meets K) (state : AppState K C)
    (parse_device : List ℕ → Option DeviceInfo) (parse_payload : List ℕ → Option Str)
    (forwarded : Request → Result Str Response) where
  -- Nothing is sent, or the answer is an invitation.
  abbrev pub Announces : World → Response × World → Type 0
  Announces w (response, w') =
      (w'.topics ≡ w.topics)
      ⊎ (IsInvitation m.uuid response
          × (w'.topics ≡ register_topics state.has_topic_tx m.uuid w.topics))

  device-Announces :
      (req : Request) (w : World) → Announces w (handle_device_init r m state parse_device req w)
  device-Announces req w = elim (handle_device_init-outcome r m state parse_device req w) [
    | inl (refusal, same) ↦ inl (ap (λ v. v.topics) same)
    | inr (request, p, host, inl welcome) ↦
        inr ((welcome.cert_pem, _, welcome.answered), welcome.announced)
    | inr (request, p, host, inr (status, same)) ↦ inl same
  ]

  client-Announces :
      (req : Request) (w : World)
      → Announces w (handle_client_register r m state parse_payload req w)
  client-Announces req w = elim (handle_client_register-outcome r m state parse_payload req w) [
    | inl (refusal, same) ↦ inl (ap (λ v. v.topics) same)
    | inr (csr, p, inl registered) ↦ inl (registered.others.1)
    | inr (csr, p, inr (status, same)) ↦ inl (ap (λ v. v.topics) same)
  ]

  pub dispatch-Announces :
      (req : Request) (w : World)
      → Announces w (dispatch r m state parse_device parse_payload forwarded req w)
  unfolding dispatch
  dispatch-Announces req w = elim (Bool-cases (contains_key header_health req)) [
    | inl a ↦ rw a (inl refl)
    | inr a ↦ elim (Bool-cases (contains_key header_init req)) [
      | inl b ↦ rw a (rw b (device-Announces req w))
      | inr b ↦ elim (Bool-cases (contains_key header_register req)) [
        | inl c ↦ rw a (rw b (rw c (client-Announces req w)))
        | inr c ↦ rw a (rw b (rw c (inl refl)))
      ]
    ]
  ]
