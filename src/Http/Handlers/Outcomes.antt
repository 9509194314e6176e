-- ===== src/Http/Handlers/Outcomes.antt =====
-- internals/handlers.rs of services/beacon_management: what the handshake and the registration of a
-- client answer, and what they have changed by then.
use place_home.Prelude.{
  ℕ, ◌≡◌, ◌⊎◌, inl, inr, refl, ap, false, Option, none, some, List, [], ◌∷◌, ◌++◌, Result, ok, err,
  ◌>>=◌, ok_or, Result-cases, Bool-cases, subst, sym,
}
use place_home.Prelude.Text.{Str, str, str_eq}
use place_home.Ca.{Rcgen, Database, sign_csr, get_cert, is_revoked}
use place_home.Ca.Devices.{sign_csr-recorded}
use place_home.Broker.Identities.{Files}
use place_home.Http.Requests.{
  DeviceInfo, Request, Response, text_response, json_response, DeviceInitRequest, process_init,
  process_register, supported_version, check_version, collect, header, broker_host, header_init,
  proxy_body_limit,
}
use place_home.Http.Handlers.Announced.{
  listening, broadcasting, room, fitting, register_topics-sent,
}
use place_home.Http.Handlers.{
  AppState, World, Meets, register_topics, init_json, welcome, identity, after_identity, after_sign,
  init_with, handle_device_init,
}

-- A refusal of the request itself.
abbrev pub IsRefusal : Response → Type 0
IsRefusal response = (response.status ≡ 400) ⊎ (response.status ≡ 422)

-- Where the next step refuses, and where a missing part does.
required-refused :
    {A B : Type 0} (o : Option A) (response : Response) (f : A → Result Response B) (e : Response)
    → IsRefusal response
    → ((a : A) → f a ≡ err e → IsRefusal e)
    → (ok_or o response >>= f) ≡ err e
    → IsRefusal e
required-refused (some a) response f e h k p = k a p
required-refused none response f e h k p = let same : response ≡ e = cc in subst IsRefusal same h

ok_or-refused :
    {A : Type 0} (o : Option A) (response e : Response)
    → IsRefusal response
    → ok_or o response ≡ err e
    → IsRefusal e
ok_or-refused none response e h p = let same : response ≡ e = cc in subst IsRefusal same h
ok_or-refused (some a) response e h p = absurd cc

ok-refused : {A : Type 0} (a : A) (e : Response) → ok a ≡ err e → IsRefusal e
ok-refused a e p = absurd cc

check_version-refused :
    {A : Type 0} (version : Str) (f : Unit → Result Response A) (e : Response)
    → (f tt ≡ err e → IsRefusal e)
    → (check_version version >>= f) ≡ err e
    → IsRefusal e
unfolding check_version text_response
check_version-refused version f e k p = elim (Bool-cases (str_eq version supported_version)) [
  | inl h ↦ k (simp h at p)
  | inr h ↦
      let q = (simp h at p) in
      let same : text_response 400 (str "Unsupported version") ≡ e = cc in
      subst IsRefusal same (inl refl)
]

process_init-refused :
    (parse : List ℕ → Option DeviceInfo) (req : Request) (e : Response)
    → process_init parse req ≡ err e
    → IsRefusal e
unfolding process_init text_response
process_init-refused parse req e =
    required-refused (header header_init req)
      (text_response 400 (str "Invalid X-PlaceNet-Init header")) _ e (inl refl)
      λ version. check_version-refused version _ e (
        required-refused (collect proxy_body_limit req.body)
          (text_response 400 (str "Failed to read request body")) _ e (inl refl)
          λ bytes.
            required-refused (parse bytes) (text_response 422 (str "Invalid JSON body")) _ e
              (inr refl) λ device. ok-refused _ e)

pub process_register-refused :
    (parse : List ℕ → Option Str) (req : Request) (e : Response)
    → process_register parse req ≡ err e
    → IsRefusal e
unfolding process_register text_response
process_register-refused parse req e =
    required-refused (collect proxy_body_limit req.body)
      (text_response 400 (str "Failed to read request body")) _ e (inl refl)
      λ bytes.
        ok_or-refused (parse bytes) (text_response 422 (str "Invalid JSON body")) e (inr refl)

bind-ok :
    {A B G : Type 0} (r : Result Response A) (f : A → Result Response B) (b : B)
    → ((a : A) → f a ≡ ok b → G)
    → (r >>= f) ≡ ok b
    → G
bind-ok (ok a) f b k p = k a p
bind-ok (err e) f b k p = absurd cc

host_by : Result Response DeviceInitRequest → Str
host_by (ok request) = request.broker_host
host_by (err e) = []

process_init-host :
    (parse : List ℕ → Option DeviceInfo) (req : Request) (request : DeviceInitRequest)
    → process_init parse req ≡ ok request
    → request.broker_host ≡ broker_host (header (str "host") req)
unfolding process_init host_by
process_init-host parse req request =
    bind-ok (ok_or (header header_init req) _) _ request λ version.
      bind-ok (check_version version) _ request λ _.
        bind-ok (ok_or (collect proxy_body_limit req.body) _) _ request
          λ bytes. bind-ok (ok_or (parse bytes) _) _ request λ device e. sym (ap host_by e)

module _ {K P Q C : Type 0} (r : Rcgen K P Q C) (m : Meets K) (state : AppState K C) where
  -- What stands behind a handshake that is answered with a certificate.
  pub record IsWelcome (request : DeviceInitRequest) (w w' : World) (response : Response)
      : Type 0 where
    pub cert_pem : Str
    pub answered :
        response
        ≡ json_response 200 (
            init_json cert_pem
              (record state.brokerage_info { address = request.broker_host })
              m.uuid)
    pub known : get_cert (ok tt) request.device.mdns.hostname w'.db ≡ ok (some cert_pem)
    pub valid : is_revoked (ok tt) request.device.mdns.hostname w'.db ≡ ok false
    pub identified :
        (ok tt, w'.files) ≡ identity m state.brokerage request.device.mdns.hostname cert_pem w.files
    -- the first of the two topics, or both, as there is room for them
    pub sent :
        w'.topics.sent
        ≡ w.topics.sent
          ++ fitting
              (listening m.uuid ∷ broadcasting m.uuid ∷ [])
              (room state.has_topic_tx w.topics)
    pub announced : w'.topics ≡ register_topics state.has_topic_tx m.uuid w.topics

  -- A failure of the node itself: nothing is announced.
  abbrev pub IsFailure : World → World → Response → Type 0
  IsFailure w w' response = (response.status ≡ 500) × (w'.topics ≡ w.topics)

  after_identity-outcome :
      (request : DeviceInitRequest) (pem : Str) (db : Database) (w : World)
      (i : Result Str Unit × Files)
      → i ≡ identity m state.brokerage request.device.mdns.hostname pem w.files
      → get_cert (ok tt) request.device.mdns.hostname db ≡ ok (some pem)
      → is_revoked (ok tt) request.device.mdns.hostname db ≡ ok false
      → let out = after_identity r m state request pem (record w { db = db }) i in
        IsWelcome request w out.1 out.0 ⊎ IsFailure w out.1 out.0
  unfolding after_identity welcome text_response
  after_identity-outcome request pem db w (err e, files) h k v = inr (refl, refl)
  after_identity-outcome request pem db w (ok _, files) h k v = inl (record {
    cert_pem = pem;
    answered = refl;
    known = k;
    valid = v;
    identified = h;
    sent = register_topics-sent state.has_topic_tx m.uuid w.topics;
    announced = refl;
  })

  after_sign-outcome :
      (request : DeviceInitRequest) (w : World) (signed : Result Str Str × Database)
      → sign_csr r m.outside state.ca request.device.mdns.hostname request.device.csr_pem w.db
        ≡ signed
      → let out = after_sign r m state request signed w in
        IsWelcome request w out.1 out.0 ⊎ IsFailure w out.1 out.0
  unfolding after_sign text_response
  after_sign-outcome request w (err e, db) h = inr (refl, refl)
  after_sign-outcome request w (ok pem, db) h =
      let id = request.device.mdns.hostname in
      let recorded =
        sign_csr-recorded r state.ca m.outside id request.device.csr_pem pem w.db
          (ap (λ s. s.0) h) in
      let same = ap (λ s. s.1) h in
      after_identity-outcome request pem db w _ refl
        (subst (λ db. get_cert (ok tt) id db ≡ ok (some pem)) same recorded.0)
        (subst (λ db. is_revoked (ok tt) id db ≡ ok false) same recorded.1)

  -- A handshake is answered in one of three ways. Refused with 400 or 422, it has changed nothing;
  -- failed with 500, it has announced no topic; and otherwise the answer, 200, has a certificate
  -- that the database now has for the device's hostname, not revoked, the broker's address with the
  -- host that the request names, or localhost, and an identifier. Of that beacon's topics, the one
  -- for its messages and then the one for its broadcasts, as many are added to the queue to the
  -- message loop as it has free places, and none if there is no queue or it is closed.
  pub handle_device_init-outcome :
      (parse : List ℕ → Option DeviceInfo) (req : Request) (w : World)
      → let out = handle_device_init r m state parse req w in
        (IsRefusal out.0 × (out.1 ≡ w))
        ⊎ ((request : DeviceInitRequest) × (process_init parse req ≡ ok request)
            × (request.broker_host ≡ broker_host (header (str "host") req))
            × (IsWelcome request w out.1 out.0 ⊎ IsFailure w out.1 out.0))
  unfolding handle_device_init init_with
  handle_device_init-outcome parse req w = elim (Result-cases (process_init parse req)) [
    | inr (e, k) ↦ rw k (inl (process_init-refused parse req e k, refl))
    | inl (request, k) ↦ rw k (
        inr (
          request,
          refl,
          process_init-host parse req request k,
          after_sign-outcome request w _ refl,
        ))
  ]
