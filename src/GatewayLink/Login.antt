-- ===== src/GatewayLink/Login.antt =====
-- `login` of services/gateway_mqtt/login.rs. How the network and the gateway answer is a
-- `Network`; what the request is refused with comes before anything is sent.
use place_home.Prelude.{
  ℕ, Bool, not, ◌&&◌, Option, none, some, List, [], ◌∷◌, ◌++◌, Result, ok, err, ◌>>=◌, map_err,
  if◌then◌else◌, eqb, leb,
}
use place_home.Prelude.Text.{Str, str, trim_end_matches}
use place_home.Config.Parsing.{to_string}
use place_home.Config.File.{format}
use place_home.Mqtt.Options.{Tls}
use place_home.GatewayLink.Protocol.{LoginRequest, LoginResponse}
use place_home.GatewayLink.Url.{Url, parse}

pub data LoginError : Type 0 where
  unauthorized : LoginError
  transient : Str → LoginError

-- The request, with the header "Host"; the method is POST and the body JSON.
pub record Request : Type 0 where
  pub uri : Str
  pub host : Str
  pub body : List ℕ

pub record Response : Type 0 where
  pub status : ℕ
  -- `collect` of the body
  pub body : Result Str (List ℕ)

-- The stream that a request is sent on: with TLS, the root store that the server was verified by,
-- and its name.
pub data Stream (Roots : Type 0) : Type 0 where
  plain : Stream Roots
  secured : (roots : Roots) → (server_name : Str) → Stream Roots

pub record Network (Roots : Type 0) : Type 0 where
  -- `serde_json`, `TcpStream::connect` and `ServerName::try_from`
  pub serialise : LoginRequest → Result Str (List ℕ)
  pub connect : (host : Str) → (port : ℕ) → Result Str Unit
  pub server_name : Str → Result Str Unit
  pub tls_handshake : Roots → Str → Result Str Unit
  pub http_handshake : Result Str Unit
  pub build_request : Request → Result Str Unit
  pub send : Stream Roots → Request → Result Str Response
  -- the text of a `StatusCode`, and of the body
  pub show_status : ℕ → Str
  pub from_utf8_lossy : List ℕ → Str
  pub deserialise : List ℕ → Result Str LoginResponse

abbrev failing : {A : Type 0} → Str → Result Str A → Result LoginError A
failing what r = map_err (λ e. transient (what ++ e)) r

-- `StatusCode::is_success`
abbrev pub is_success : ℕ → Bool
is_success status = leb 200 status && leb status 299

module _ {Cert Roots : Type 0} (t : Tls Cert Roots) where
  unfoldable pub add_roots : List (Result Str Cert) → Roots → Result Str Roots
  add_roots [] roots = ok roots
  add_roots (err e ∷ certs) roots = err (str "parse gateway CA: " ++ e)
  add_roots (ok c ∷ certs) roots =
      map_err (λ e. str "add gateway CA: " ++ e) (t.add c roots) >>= λ more. add_roots certs more

  -- The root store of the connector.
  unfoldable pub tls_connector : Option Str → Result Str Roots
  unfolding add_roots
  tls_connector none = ok (t.extend_webpki t.empty)
  tls_connector (some cafile) =
      map_err (λ e. format (str "read gateway CA '" ∷ cafile ∷ str "': " ∷ e ∷ [])) (t.read cafile)
      >>= λ pem. add_roots (t.certs pem) t.empty

module _ {Roots : Type 0} (n : Network Roots) where
  unfoldable pub classify : (status : ℕ) → List ℕ → Result LoginError LoginResponse
  classify status bytes =
      if eqb status 401
      then err unauthorized
      else if not (is_success status)
      then err (
          transient (
            format (
              str "login returned "
              ∷ n.show_status status
              ∷ str ": "
              ∷ n.from_utf8_lossy bytes
              ∷ [])))
      else failing (str "parse login response: ") (n.deserialise bytes)

  unfoldable pub send_request :
      Stream Roots → (host path : Str) → List ℕ → Result LoginError LoginResponse
  unfolding classify
  send_request stream host path body =
      let request : Request = record { uri = path; host = host; body = body } in
      failing (str "http handshake: ") n.http_handshake >>= λ _.
      failing (str "build request: ") (n.build_request request) >>= λ _.
      failing (str "send request: ") (n.send stream request) >>= λ response.
      failing (str "read body: ") response.body >>= λ bytes. classify response.status bytes

-- The TLS handshake on the TCP connection.
unfoldable pub secure_tls :
    {Cert Roots : Type 0}
    → Tls Cert Roots
    → Network Roots
    → Url
    → Option Str
    → Result LoginError (Stream Roots)
unfolding tls_connector
secure_tls t n url cafile = map_err transient (tls_connector t cafile) >>= λ roots.
    failing (str "invalid server name: ") (n.server_name url.host) >>= λ _.
    failing (str "tls handshake: ") (n.tls_handshake roots url.host) >>= λ _.
    ok (secured roots url.host)

-- The stream over the TCP connection.
unfoldable pub secure :
    {Cert Roots : Type 0}
    → Tls Cert Roots
    → Network Roots
    → Url
    → Option Str
    → Result LoginError (Stream Roots)
unfolding secure_tls
secure t n url cafile = if url.tls then secure_tls t n url cafile else ok plain

unfoldable pub login_path : Url → Str
unfolding trim_end_matches
login_path url = trim_end_matches b'/' url.path ++ str "/api/login"

unfoldable pub login :
    {Cert Roots : Type 0}
    → Tls Cert Roots
    → Network Roots
    → (base_url : Str) → LoginRequest
    → (cafile : Option Str) → Result LoginError LoginResponse
unfolding secure login_path send_request parse
login t n base_url req cafile = map_err transient (parse base_url) >>= λ url.
    failing (str "serialise login: ") (n.serialise req) >>= λ body.
    failing (format (str "connect " ∷ url.host ∷ str ":" ∷ to_string url.port ∷ str ": " ∷ []))
      (n.connect url.host url.port)
    >>= λ _.
        secure t n url cafile >>= λ stream. send_request n stream url.host (login_path url) body
