-- ===== src/Peer.antt =====
-- `send_message` of services/peer/peer_service.rs: a text posted to another node. hyper's `Uri` and
-- its client, and the TCP connection, are parameters.

mod Once
mod Examples
use place_home.Prelude.{
  ℕ, ◌++◌, Option, none, some, List, [], ◌∷◌, Result, ok, err, map_err, ok_or, Exec, ◌>>=◌, ◌>>>=◌,
  lift, if◌then◌else◌,
}
use place_home.Prelude.Text.{Str, str}
use place_home.Config.Parsing.{to_string}
use place_home.Config.File.{format}
use place_home.GatewayLink.Login.{Response, is_success}

-- The method is POST, and the content type "text/plain".
pub record Request : Type 0 where
  pub uri : Str
  pub host : Str
  pub body : Str

-- `hyper::Uri`
pub record Uris (Uri : Type 0) : Type 0 where
  pub parse : Str → Result Str Uri
  pub host : Uri → Option Str
  pub port_u16 : Uri → Option ℕ
  pub path_and_query : Uri → Option Str

pub record Network : Type 0 where
  pub connect : (addr : Str) → Result Str Unit
  pub handshake : Result Str Unit
  pub build_request : Request → Result Str Unit
  pub send_request : Request → Result Str Response
  -- the texts of a `StatusCode` and of a body
  pub show_status : ℕ → Str
  pub from_utf8_lossy : List ℕ → Str

-- The requests sent, the last one first, each with the address it was sent to.
abbrev pub Sent : Type 0
Sent = List (Str × Request)

abbrev or : {A : Type 0} → Option A → A → A
or none d = d
or (some a) d = a

module _ {Uri : Type 0} (u : Uris Uri) (n : Network) where
  unfoldable pub address : Uri → (host : Str) → Str
  address url host = format (host ∷ str ":" ∷ to_string (or (u.port_u16 url) 80) ∷ [])

  unfoldable pub message_request : Uri → (addr message : Str) → Request
  message_request url addr message = record {
    uri = or (u.path_and_query url) (str "/peer/message");
    host = addr;
    body = message;
  }

  unfoldable pub acknowledged : ℕ → List ℕ → Result Str Unit
  acknowledged status bytes =
      if is_success status
      then ok tt
      else err (
          format (
            str "Peer returned " ∷ n.show_status status ∷ str " — " ∷ n.from_utf8_lossy bytes ∷ []))

  -- The request is sent, whatever comes back.
  unfoldable pub send_request : (addr : Str) → Request → Exec Sent Str Response
  send_request addr request sent = (
    map_err (λ e. str "Failed to send request to peer: " ++ e) (n.send_request request),
    (addr, request) ∷ sent,
  )

  unfoldable pub receive : Response → Result Str Unit
  unfolding acknowledged
  receive response =
      map_err (λ e. str "Failed to read peer response body: " ++ e) response.body >>= λ bytes.
      acknowledged response.status bytes

  -- On the connection to the peer.
  abbrev pub connect : (addr : Str) → Result Str Unit
  connect addr =
      map_err (λ e. format (str "Failed to connect to peer " ∷ addr ∷ str ": " ∷ e ∷ []))
        (n.connect addr)

  abbrev pub handshake : Result Str Unit
  handshake = map_err (λ e. str "HTTP handshake failed: " ++ e) n.handshake

  abbrev pub build : Request → Result Str Unit
  build request = map_err (λ e. str "Failed to build request: " ++ e) (n.build_request request)

  unfoldable pub exchange : (addr : Str) → Request → Exec Sent Str Unit
  unfolding send_request receive
  exchange addr request = send_request addr request >>>= λ response. lift (receive response)

  -- On a connection to the peer.
  unfoldable pub post : Uri → (addr message : Str) → Exec Sent Str Unit
  unfolding message_request exchange
  post url addr message =
      let request = message_request url addr message in
      lift (connect addr) >>>= λ _.
      lift handshake >>>= λ _. lift (build request) >>>= λ _. exchange addr request

  abbrev pub peer_url : (base_url : Str) → Result Str Uri
  peer_url base_url =
      map_err (λ e. str "Invalid peer URL: " ++ e)
        (u.parse (format (base_url ∷ str "/peer/message" ∷ [])))

  unfoldable pub send_message : (base_url message : Str) → Exec Sent Str Unit
  unfolding post address
  send_message base_url message = lift (peer_url base_url) >>>= λ url.
      lift (ok_or (u.host url) (str "Peer URL has no host")) >>>= λ host.
      post url (address url host) message
