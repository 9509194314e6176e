-- ===== src/Peer/Once.antt =====
-- What `send_message` of services/peer/peer_service.rs has sent when it returns.
use place_home.Prelude.{
  ℕ, ◌≡◌, ◌⊎◌, inl, inr, refl, true, Option, none, some, List, [], ◌∷◌, ◌++◌, Result, ok, err,
  Result-cases, map_err, ok_or, Exec, ◌>>>=◌, lift, arith,
}
use place_home.Prelude.Text.{Str, str}
use place_home.Config.File.{format}
use place_home.GatewayLink.Login.{Response, is_success}
use place_home.Peer.{
  Request, Uris, Network, Sent, address, message_request, acknowledged, connect, handshake, build,
  receive, exchange, send_request, post, send_message,
}

module _ {Uri : Type 0} (u : Uris Uri) (n : Network) where
  -- An answer with a status of success.
  IsAnswered : Request → Type 0
  IsAnswered request =
      (response : Response) × (n.send_request request ≡ ok response)
      × (is_success response.status ≡ true)

  -- The one request that was sent, and what stands behind a success.
  record IsPosted (url : Uri) (addr message : Str) (sent : Sent) (r : Result Str Unit)
      (sent' : Sent) : Type 0 where
    pub once : sent' ≡ (addr, message_request u n url addr message) ∷ sent
    pub answered : r ≡ ok tt → IsAnswered (message_request u n url addr message)

  -- An error is returned before anything is sent; or `P` holds.
  Outcome : (Result Str Unit × Sent → Type 0) → Sent → Result Str Unit × Sent → Type 0
  Outcome P sent out = ((e : Str) × (out ≡ (err e, sent))) ⊎ P out

  -- Three steps before the request is sent.
  steps-Outcome :
      (P : Result Str Unit × Sent → Type 0) (sent : Sent) (a b c : Result Str Unit)
      (k : Exec Sent Str Unit)
      → P (k sent)
      → Outcome P sent ((lift a >>>= λ _. lift b >>>= λ _. lift c >>>= λ _. k) sent)
  unfolding Outcome
  steps-Outcome P sent (err e) b c k p = inl (e, refl)
  steps-Outcome P sent (ok _) (err e) c k p = inl (e, refl)
  steps-Outcome P sent (ok _) (ok _) (err e) k p = inl (e, refl)
  steps-Outcome P sent (ok _) (ok _) (ok _) k p = inr p

  acknowledged_lem :
      (status : ℕ) (bytes : List ℕ)
      → acknowledged u n status bytes ≡ ok tt
      → is_success status ≡ true
  unfolding acknowledged
  acknowledged_lem status bytes e = ground arith

  read_lem :
      (status : ℕ) (body : Result Str (List ℕ))
      → receive u n (record { status = status; body = body }) ≡ ok tt
      → is_success status ≡ true
  unfolding receive
  read_lem status (ok bytes) e = acknowledged_lem status bytes e
  read_lem status (err d) e = absurd (ground arith)

  received-IsPosted :
      (url : Uri) (addr message : Str) (sent : Sent) (r : Result Str Response)
      → n.send_request (message_request u n url addr message) ≡ r
      → let out =
          (lift (map_err (λ e. str "Failed to send request to peer: " ++ e) r) >>>= λ response.
          lift (receive u n response))
            ((addr, message_request u n url addr message) ∷ sent) in
        IsPosted url addr message sent out.0 out.1
  unfolding IsAnswered
  received-IsPosted url addr message sent (err e) h = record {
    once = refl;
    answered = λ k. absurd (ground arith);
  }
  received-IsPosted url addr message sent (ok response) h = record {
    once = refl;
    answered = λ k. (response, h, read_lem response.status response.body k);
  }

  post-Outcome :
      (url : Uri) (addr message : Str) (sent : Sent)
      → Outcome
          (λ out. IsPosted url addr message sent out.0 out.1)
          sent
          (post u n url addr message sent)
  unfolding post exchange send_request
  post-Outcome url addr message sent =
      let request = message_request u n url addr message in
      steps-Outcome (λ out. IsPosted url addr message sent out.0 out.1) sent (connect u n addr)
        (handshake u n) (build u n request) (exchange u n addr request)
        (received-IsPosted url addr message sent (n.send_request request) refl)

  -- The request of a message, once there is an address for it.
  record IsSent (base_url message : Str) (sent : Sent) (out : Result Str Unit × Sent) : Type 0 where
    pub url : Uri
    pub host : Str
    pub parsed : u.parse (format (base_url ∷ str "/peer/message" ∷ [])) ≡ ok url
    pub has_host : u.host url ≡ some host
    pub posted : IsPosted url (address u n url host) message sent out.0 out.1

  hosted-Outcome :
      (base_url message : Str) (sent : Sent) (url : Uri)
      → u.parse (format (base_url ∷ str "/peer/message" ∷ [])) ≡ ok url
      → (host : Option Str) → u.host url ≡ host
      → Outcome (IsSent base_url message sent) sent (
          (lift (ok_or host (str "Peer URL has no host")) >>>= λ h.
          post u n url (address u n url h) message)
            sent)
  unfolding Outcome
  hosted-Outcome base_url message sent url p none h = inl (_, refl)
  hosted-Outcome base_url message sent url p (some host) h =
      elim (post-Outcome url (address u n url host) message sent) [
        | inl e ↦ inl e
        | inr posted ↦
            inr (record { url = url; host = host; parsed = p; has_host = h; posted = posted })
      ]

  -- A message is sent at most once. Either an error is returned and nothing was sent; or the
  -- one request of the message was, to the address in the URL, and `Ok` is returned only when it
  -- was answered with a status of success.
  send_message-Outcome :
      (base_url message : Str) (sent : Sent)
      → Outcome (IsSent base_url message sent) sent (send_message u n base_url message sent)
  unfolding send_message Outcome
  send_message-Outcome base_url message sent =
      let text = format (base_url ∷ str "/peer/message" ∷ []) in
      elim (Result-cases (u.parse text)) [
        | inr (e, p) ↦ rw p (inl (_, refl))
        | inl (url, p) ↦ rw p (hosted-Outcome base_url message sent url p (u.host url) refl)
      ]
