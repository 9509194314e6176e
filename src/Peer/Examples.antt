-- ===== src/Peer/Examples.antt =====
-- Tests of `send_message`.
use place_home.Prelude.{ℕ, ◌≡◌, refl, none, some, [], ◌∷◌, ok, err}
use place_home.Prelude.Text.{str}
use place_home.Config.Parsing.{to_string}
use place_home.Peer.{Uris, Network, Sent, send_message}

-- A URL that has the host "node", and no port.
abbrev uris : Uris Unit
uris = record {
  parse = λ s. ok tt;
  host = λ url. some (str "node");
  port_u16 = λ url. none;
  path_and_query = λ url. some (str "/peer/message");
}

abbrev answering : ℕ → Network
answering status = record {
  connect = λ addr. ok tt;
  handshake = ok tt;
  build_request = λ request. ok tt;
  send_request = λ request. ok (record { status = status; body = ok [] });
  show_status = λ s. str "500 Internal Server Error";
  from_utf8_lossy = λ bytes. str "down";
}

abbrev posted : Sent
posted =
    (str "node:80", record { uri = str "/peer/message"; host = str "node:80"; body = str "hi" })
    ∷ []

delivered : send_message uris (answering 204) (str "http://node") (str "hi") [] ≡ (ok tt, posted)
unfolding send_message to_string
delivered = refl

refused :
    send_message uris (answering 500) (str "http://node") (str "hi") []
    ≡ (err (str "Peer returned 500 Internal Server Error — down"), posted)
unfolding send_message to_string
refused = refl

no_host :
    send_message (record uris { host = λ url. none }) (answering 204) (str "/x") (str "hi") []
    ≡ (err (str "Peer URL has no host"), [])
unfolding send_message to_string
no_host = refl
