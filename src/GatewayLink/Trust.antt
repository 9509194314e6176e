-- ===== src/GatewayLink/Trust.antt =====
-- services/gateway_mqtt/login.rs and services/mqtt_client/mqtt_client_service.rs: whom the login and
-- the connection to the broker trust, and what the outcomes of a login mean.
use place_home.Prelude.{
  ℕ, Bool, true, false, ◌≡◌, ◌≤◌, ◌<◌, inl, inr, refl, sym, subst, Option, none, some, List, [],
  ◌∷◌, Result, ok, err, ◌>>=◌, map_err, Bool-cases, Result-cases, if◌then◌else◌, arith,
}
use place_home.Prelude.Text.{Str}
use place_home.Mqtt.Options.{Tls, build_server_tls, add_all}
use place_home.GatewayLink.Protocol.{LoginRequest, LoginResponse}
use place_home.GatewayLink.Url.{Url, parse}
use place_home.GatewayLink.Login.{
  LoginError, unauthorized, transient, Response, Stream, plain, secured, Network, add_roots,
  tls_connector, classify, send_request, secure, secure_tls, login_path, login,
}

-- The value of a success.
abbrev pub value {ℓ} : {E A : Type ℓ} → Result E A → Option A
value (ok a) = some a
value (err e) = none

module _ {Cert Roots : Type 0} (t : Tls Cert Roots) where
  add_roots-same :
      (certs : List (Result Str Cert)) (roots : Roots)
      → value (add_roots t certs roots) ≡ value (add_all t certs roots)
  unfolding add_roots add_all
  add_roots-same [] roots = refl
  add_roots-same (err e ∷ certs) roots = refl
  add_roots-same (ok c ∷ certs) roots = elim (Result-cases (t.add c roots)) [
    | inl (more, e) ↦ rw e (add_roots-same certs more)
    | inr (m, e) ↦ rw e refl
  ]

  -- The login over HTTPS and the connection to the broker verify their server by the same roots:
  -- with the same CA file, or with none, both have them or neither, whatever the file holds.
  pub tls_connector-build_server_tls :
      (cafile : Option Str) → value (tls_connector t cafile) ≡ value (build_server_tls t cafile)
  unfolding tls_connector build_server_tls
  tls_connector-build_server_tls none = refl
  tls_connector-build_server_tls (some cafile) = elim (Result-cases (t.read cafile)) [
    | inl (pem, e) ↦ rw e (add_roots-same (t.certs pem) t.empty)
    | inr (m, e) ↦ rw e refl
  ]

-- Neither a success nor a rejection.
abbrev pub IsTransient : Result LoginError LoginResponse → Type 0
IsTransient r = (m : Str) × (r ≡ err (transient m))

-- What may fail only for a while has not failed.
passed :
    {A : Type 0} (m : Str → Str) (x : Result Str A) (f : A → Result LoginError LoginResponse)
    (r : Result LoginError LoginResponse)
    → (map_err (λ e. transient (m e)) x >>= f) ≡ r
    → ¬ IsTransient r
    → (a : A) × (x ≡ ok a) × (f a ≡ r)
passed m (ok a) f r e h = (a, refl, e)
passed m (err x) f r e h = absurd (h (m x, sym e))

passed_in :
    {A B : Type 0} (m : Str → Str) (x : Result Str A) (g : A → Result LoginError B)
    (f : B → Result LoginError LoginResponse) (r : Result LoginError LoginResponse)
    → ((map_err (λ e. transient (m e)) x >>= g) >>= f) ≡ r
    → ¬ IsTransient r
    → (a : A) × (x ≡ ok a) × ((g a >>= f) ≡ r)
passed_in m (ok a) g f r e h = (a, refl, e)
passed_in m (err x) g f r e h = absurd (h (m x, sym e))

-- The exchange behind a success or a rejection.
module _ {Cert Roots : Type 0} (t : Tls Cert Roots) (n : Network Roots) where
  -- With TLS, the server's name was verified by the roots of the CA file.
  abbrev pub IsSecured : Url → Option Str → Stream Roots → Type 0
  IsSecured url cafile plain = (url.tls ≡ false)
  IsSecured url cafile (secured roots name) =
      (url.tls ≡ true)
      × (name ≡ url.host)
      × (tls_connector t cafile ≡ ok roots)
      × (n.tls_handshake roots url.host ≡ ok tt)

  -- A rejection is status 401, a success another status of the two hundreds.
  abbrev pub Means : ℕ → List ℕ → Result LoginError LoginResponse → Type 0
  Means status bytes (err unauthorized) = (status ≡ 401)
  Means status bytes (err (transient m)) = ⊥
  Means status bytes (ok response) =
      (200 ≤ status) × (status < 300) × (n.deserialise bytes ≡ ok response)

  pub record IsAnswered (base_url : Str) (req : LoginRequest) (cafile : Option Str)
      (r : Result LoginError LoginResponse) : Type 0 where
    pub url : Url
    pub body : List ℕ
    pub stream : Stream Roots
    pub response : Response
    pub bytes : List ℕ
    pub parsed : parse base_url ≡ ok url
    pub serialised : n.serialise req ≡ ok body
    pub connected : n.connect url.host url.port ≡ ok tt
    pub secure : IsSecured url cafile stream
    pub sent :
        n.send stream (record { uri = login_path url; host = url.host; body = body }) ≡ ok response
    pub received : response.body ≡ ok bytes
    pub means : Means response.status bytes r

  secure_tls-passed :
      (url : Url) (cafile : Option Str) (f : Stream Roots → Result LoginError LoginResponse)
      (r : Result LoginError LoginResponse)
      → url.tls ≡ true
      → (secure_tls t n url cafile >>= f) ≡ r
      → ¬ IsTransient r
      → (stream : Stream Roots) × IsSecured url cafile stream × (f stream ≡ r)
  unfolding secure_tls
  secure_tls-passed url cafile f r p e h =
      let (roots, p1, e1) = passed_in (λ m. m) (tls_connector t cafile) _ f r e h in
      let (_, p2, e2) = passed_in _ (n.server_name url.host) _ f r e1 h in
      let (_, p3, e3) = passed_in _ (n.tls_handshake roots url.host) _ f r e2 h in
      (secured roots url.host, (p, refl, p1, p3), e3)

  secure-passed :
      (url : Url) (cafile : Option Str) (f : Stream Roots → Result LoginError LoginResponse)
      (r : Result LoginError LoginResponse)
      → (secure t n url cafile >>= f) ≡ r
      → ¬ IsTransient r
      → (stream : Stream Roots) × IsSecured url cafile stream × (f stream ≡ r)
  unfolding secure
  secure-passed url cafile f r e h =
      let by_tls : Bool → Type 0 =
        λ b. ((if b then secure_tls t n url cafile else ok plain) >>= f) ≡ r in
      elim (Bool-cases url.tls) [
        | inr p ↦ (plain, p, subst by_tls p e)
        | inl p ↦ secure_tls-passed url cafile f r p (subst by_tls p e) h
      ]

  classify-Means :
      (status : ℕ) (bytes : List ℕ) (r : Result LoginError LoginResponse)
      → classify n status bytes ≡ r
      → ¬ IsTransient r
      → Means status bytes r
  unfolding classify
  classify-Means status bytes (err (transient m)) e h = absurd (h (m, refl))
  classify-Means status bytes (err unauthorized) e h = elim (Result-cases (n.deserialise bytes)) [
    | inl (a, k) ↦ ground arith
    | inr (m, k) ↦ ground arith
  ]
  classify-Means status bytes (ok response) e h = elim (Result-cases (n.deserialise bytes)) [
    | inl (a, k) ↦ ground arith
    | inr (m, k) ↦ absurd (ground arith)
  ]

  -- A login that succeeds, or that is rejected, had an answer: the URL was understood, the request
  -- went to its host, port and path, over TLS to a server verified by the roots of the CA file if
  -- the scheme is https, and the status was 401 for a rejection, and for a success one of the two
  -- hundreds, with the body that was returned.
  pub login-IsAnswered :
      (base_url : Str) (req : LoginRequest) (cafile : Option Str)
      (r : Result LoginError LoginResponse)
      → login t n base_url req cafile ≡ r
      → ¬ IsTransient r
      → IsAnswered base_url req cafile r
  unfolding login send_request
  login-IsAnswered base_url req cafile r e h =
      let (url, p1, e1) = passed (λ m. m) (parse base_url) _ r e h in
      let (body, p2, e2) = passed _ (n.serialise req) _ r e1 h in
      let (_, p3, e3) = passed _ (n.connect url.host url.port) _ r e2 h in
      let (stream, p4, e4) = secure-passed url cafile _ r e3 h in
      let (_, p5, e5) = passed _ n.http_handshake _ r e4 h in
      let (_, p6, e6) = passed _ (n.build_request _) _ r e5 h in
      let (response, p7, e7) = passed _ (n.send stream _) _ r e6 h in
      let (bytes, p8, e8) = passed _ response.body _ r e7 h in
      record {
        url = url;
        body = body;
        stream = stream;
        response = response;
        bytes = bytes;
        parsed = p1;
        serialised = p2;
        connected = p3;
        secure = p4;
        sent = p7;
        received = p8;
        means = classify-Means response.status bytes r e8 h;
      }
