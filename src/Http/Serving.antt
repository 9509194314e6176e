-- ===== src/Http/Serving.antt =====
-- tasks.rs and internals/proxy.rs, tls.rs of services/beacon_management: the accept loop of the
-- gateway, its connections, and what is forwarded to the upstream server.
pub mod Stopped
use place_home.Prelude.{
  ℕ, suc, Bool, true, false, Option, none, some, List, [], ◌∷◌, ◌++◌, Result, ok, err, ◌>>=◌,
  map_err, ok_or, if◌then◌else◌, nat_eq,
}
use place_home.Prelude.Text.{Str, str}
use place_home.Prelude.Map.{lookup, insert, remove}
use place_home.Ca.{Rcgen, CaState}
use place_home.Http.Requests.{DeviceInfo, Request, Response}
use place_home.Http.Handlers.{AppState, World, Meets, dispatch}

-- How the upstream server answers to the three steps of a request.
pub record Upstream : Type 0 where
  pub connect : Result Str Unit
  pub handshake : Result Str Unit
  pub send_request : Request → Result Str Response

unfoldable pub try_forward : Upstream → Request → Result Str Response
try_forward up req = up.connect >>= λ _. up.handshake >>= λ _. up.send_request req

-- rustls and rustls_pemfile, with the chain and the keys that texts have.
pub record Rustls (Certificate Key Config : Type 0) : Type 0 where
  pub certs : Str → Result Str (List Certificate)
  pub pkcs8_private_keys : Str → Result Str (List Key)
  pub with_single_cert : List Certificate → Key → Result Str Config

abbrev first : {A : Type 0} → List A → Option A
first [] = none
first (a ∷ l) = some a

-- `build_tls_config`
unfoldable pub build_tls_config :
    {K P Q C Der Key Config : Type 0}
    → Rcgen K P Q C
    → Rustls Der Key Config
    → Option (CaState K C)
    → Result Str Config
build_tls_config r tls state = ok_or state (str "CA not initialised") >>= λ ca.
    map_err (λ e. str "Failed to parse CA cert PEM: " ++ e) (tls.certs (r.pem ca.cert)) >>= λ chain.
    map_err (λ e. str "Failed to parse CA private key PEM: " ++ e)
      (tls.pkcs8_private_keys (r.serialize_pem ca.key_pair))
    >>= λ keys. ok_or (first keys) (str "No PKCS8 private key found in CA PEM") >>= λ key.
        map_err (λ e. str "Failed to build TLS server config: " ++ e)
          (tls.with_single_cert chain key)

pub data Connection : Type 0 where
  handshaking serving : Connection

pub record Gateway : Type 0 where
  pub tls : Bool
  -- the accept loop runs
  pub accepting : Bool
  pub connections : List (ℕ × Connection)
  pub next : ℕ
  pub world : World
  pub answers : List (ℕ × Response)

pub data Event (K : Type 0) : Type 0 where
  accepted : Event K
  accept_failed : Event K
  -- the signal on `shutdown_rx`
  shutdown : Event K
  handshake : ℕ → Result Str Unit → Event K
  request : ℕ → Meets K → Request → Event K
  -- by the client or by an error
  closed : ℕ → Event K

accept : Bool → Gateway → Gateway
accept false g = g
accept true g = record g {
  connections = insert g.next (if g.tls then handshaking else serving) g.connections;
  next = suc g.next;
}

-- A connection whose handshake fails is given up.
after_handshake : ℕ → Option Connection → Result Str Unit → Gateway → Gateway
after_handshake c (some handshaking) (ok _) g = record g {
  connections = insert c serving g.connections;
}
after_handshake c (some handshaking) (err e) g = record g { connections = remove c g.connections }
after_handshake c _ result g = g

module _ {K P Q C : Type 0} (r : Rcgen K P Q C) (state : AppState K C)
    (parse_device : List ℕ → Option DeviceInfo) (parse_payload : List ℕ → Option Str)
    (up : Upstream) where
  serve : ℕ → Option Connection → Meets K → Request → Gateway → Gateway
  unfolding dispatch
  serve c (some serving) m req g =
      let (response, world) =
        dispatch r m state parse_device parse_payload (try_forward up) req g.world in
      record g { world = world; answers = (c, response) ∷ g.answers }
  serve c _ m req g = g

  unfoldable pub step : Event K → Gateway → Gateway
  unfolding accept after_handshake serve
  step accepted g = accept g.accepting g
  step accept_failed g = g
  step shutdown g = record g { accepting = false }
  step (handshake c result) g = after_handshake c (lookup c g.connections) result g
  step (request c m req) g = serve c (lookup c g.connections) m req g
  step (closed c) g = record g { connections = remove c g.connections }

  unfoldable pub run : List (Event K) → Gateway → Gateway
  run [] g = g
  run (e ∷ events) g = run events (step e g)
