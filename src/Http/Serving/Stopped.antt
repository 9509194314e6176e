-- ===== src/Http/Serving/Stopped.antt =====
-- tasks.rs and internals/proxy.rs of services/beacon_management: connections over TLS, and a gateway
-- that has been stopped.
use place_home.Prelude.{
  ℕ, Bool, true, false, ◌≡◌, ◌≢◌, refl, ap, subst, ◌∙◌, Option, none, some, List, [], ◌∷◌, Result,
  ok, err, if◌then◌else◌, nat_eq, eqb, Bool-cases, inl, inr, arith, ◌||◌, eqb_iff,
}
use place_home.Prelude.Text.{Str}
use place_home.Prelude.Map.{lookup, lookup-insert, lookup-remove}
use place_home.Ca.{Rcgen}
use place_home.Http.Requests.{DeviceInfo, Request, Response}
use place_home.Http.Handlers.{AppState, Meets}
use place_home.Http.Serving.{
  Upstream, Connection, handshaking, serving, Gateway, Event, accepted, accept_failed, shutdown,
  handshake, request, closed, accept, after_handshake, serve, step, run,
}

-- The answers on a connection.
abbrev pub answers_to : ℕ → List (ℕ × Response) → List Response
answers_to c [] = []
answers_to c ((i, response) ∷ answers) =
    let rest = answers_to c answers in if eqb i c then response ∷ rest else rest

-- Whether the client of a connection is verified to speak TLS.
abbrev pub shook : {K : Type 0} → ℕ → List (Event K) → Bool
shook c [] = false
shook c (handshake i (ok _) ∷ events) = eqb i c || shook c events
shook c (_ ∷ events) = shook c events

-- The events without the connections that arrive.
abbrev pub not_accepted : {K : Type 0} → List (Event K) → List (Event K)
not_accepted [] = []
not_accepted (accepted ∷ events) = not_accepted events
not_accepted (e ∷ events) = e ∷ not_accepted events

abbrev pub stopped : Gateway → Gateway
stopped g = record g { accepting = false }

after_handshake-stopped :
    (c : ℕ) (o : Option Connection) (result : Result Str Unit) (g : Gateway)
    → after_handshake c o result (stopped g) ≡ stopped (after_handshake c o result g)
unfolding after_handshake
after_handshake-stopped c (some handshaking) (ok _) g = refl
after_handshake-stopped c (some handshaking) (err e) g = refl
after_handshake-stopped c (some serving) result g = refl
after_handshake-stopped c none result g = refl

-- Neither serves nor will, unless it shakes hands: what is said of a connection over TLS.
abbrev pub IsSilent : ℕ → Gateway → Type 0
IsSilent c g = (g.tls ≡ true) × (lookup c g.connections ≢ some serving)

accept-IsSilent :
    (c : ℕ) (b : Bool) (g : Gateway)
    → IsSilent c g
    → IsSilent c (accept b g) × ((accept b g).answers ≡ g.answers)
unfolding accept
accept-IsSilent c false g h = (h, refl)
accept-IsSilent c true g (t, n) =
    ((t, ground (arith, t, n, lookup-insert g.next c handshaking g.connections)), refl)

after_handshake-IsSilent :
    (K : Type 0) (c i : ℕ) (o : Option Connection) (result : Result Str Unit) (g : Gateway)
    → shook {K = K} c (handshake i result ∷ []) ≡ false
    → IsSilent c g
    → IsSilent c (after_handshake i o result g)
      × ((after_handshake i o result g).answers ≡ g.answers)
unfolding after_handshake
after_handshake-IsSilent K c i (some handshaking) (ok _) g e (t, n) =
    ((t, ground (arith, e, n, lookup-insert i c serving g.connections)), refl)
after_handshake-IsSilent K c i (some handshaking) (err _) g e (t, n) =
    ((t, ground (arith, n, lookup-remove i c g.connections)), refl)
after_handshake-IsSilent K c i (some serving) result g e h = (h, refl)
after_handshake-IsSilent K c i none result g e h = (h, refl)

module _ {K P Q C : Type 0} (r : Rcgen K P Q C) (state : AppState K C)
    (parse_device : List ℕ → Option DeviceInfo) (parse_payload : List ℕ → Option Str)
    (up : Upstream) where
  serve-stopped :
      (c : ℕ) (o : Option Connection) (m : Meets K) (req : Request) (g : Gateway)
      → serve r state parse_device parse_payload up c o m req (stopped g)
        ≡ stopped (serve r state parse_device parse_payload up c o m req g)
  unfolding serve
  serve-stopped c (some serving) m req g = refl
  serve-stopped c (some handshaking) m req g = refl
  serve-stopped c none m req g = refl

  -- A gateway that is stopped goes on as if it had not been, on the connections that it has:
  -- whatever follows leads to the same answers, connections and stored certificates as for a
  -- gateway that is not stopped and to which no further connection comes.
  pub run-stopped :
      (events : List (Event K)) (g : Gateway)
      → run r state parse_device parse_payload up events
          (step r state parse_device parse_payload up shutdown g)
        ≡ stopped (run r state parse_device parse_payload up (not_accepted events) g)
  unfolding run step
  run-stopped [] g = refl
  run-stopped (accepted ∷ events) g = run-stopped events g
  run-stopped (accept_failed ∷ events) g = run-stopped events g
  run-stopped (shutdown ∷ events) g = run-stopped events (stopped g)
  run-stopped (handshake c result ∷ events) g =
      let o = lookup c g.connections in
      ap (run r state parse_device parse_payload up events) (after_handshake-stopped c o result g)
      ∙ run-stopped events (after_handshake c o result g)
  run-stopped (request c m req ∷ events) g =
      let o = lookup c g.connections in
      ap (run r state parse_device parse_payload up events) (serve-stopped c o m req g)
      ∙ run-stopped events (serve r state parse_device parse_payload up c o m req g)
  run-stopped (closed c ∷ events) g = run-stopped events (record g { connections = _ })

  serve-IsSilent :
      (c i : ℕ) (o : Option Connection) (m : Meets K) (req : Request) (g : Gateway)
      → lookup i g.connections ≡ o
      → IsSilent c g
      → let g' = serve r state parse_device parse_payload up i o m req g in
        IsSilent c g' × (answers_to c g'.answers ≡ answers_to c g.answers)
  unfolding serve
  serve-IsSilent c i none m req g e h = (h, refl)
  serve-IsSilent c i (some handshaking) m req g e h = (h, refl)
  serve-IsSilent c i (some serving) m req g e (t, n) = (
    (t, n),
    elim (Bool-cases (eqb i c)) [
      | inl y ↦
          absurd (n (subst (λ k. lookup k g.connections ≡ some serving) ((eqb_iff i c).0 y) e))
      | inr y ↦ rw y refl
    ],
  )

  step-IsSilent :
      (c : ℕ) (e : Event K) (g : Gateway)
      → shook c (e ∷ []) ≡ false
      → IsSilent c g
      → let g' = step r state parse_device parse_payload up e g in
        IsSilent c g' × (answers_to c g'.answers ≡ answers_to c g.answers)
  unfolding step
  step-IsSilent c accepted g s h =
      let (q, a) = accept-IsSilent c g.accepting g h in (q, ap (answers_to c) a)
  step-IsSilent c accept_failed g s h = (h, refl)
  step-IsSilent c shutdown g s h = (h, refl)
  step-IsSilent c (handshake i result) g s h =
      let (q, a) = after_handshake-IsSilent K c i (lookup i g.connections) result g s h in
      (q, ap (answers_to c) a)
  step-IsSilent c (request i m req) g s h =
      serve-IsSilent c i (lookup i g.connections) m req g refl h
  step-IsSilent c (closed i) g s (t, n) =
      ((t, ground (arith, n, lookup-remove i c g.connections)), refl)

  shook-split :
      (c : ℕ) (e : Event K) (events : List (Event K))
      → shook c (e ∷ events) ≡ false
      → (shook c (e ∷ []) ≡ false) × (shook c events ≡ false)
  shook-split c accepted events s = (refl, s)
  shook-split c accept_failed events s = (refl, s)
  shook-split c shutdown events s = (refl, s)
  shook-split c (handshake i (ok _)) events s = ground (arith, s)
  shook-split c (handshake i (err e)) events s = (refl, s)
  shook-split c (request i m req) events s = (refl, s)
  shook-split c (closed i) events s = (refl, s)

  -- Over TLS, a connection that is not served yet gets no answer through any events that have no
  -- success of its handshake, whatever requests come on it and whatever happens on the others.
  pub run-IsSilent :
      (c : ℕ) (events : List (Event K)) (g : Gateway)
      → shook c events ≡ false
      → IsSilent c g
      → answers_to c (run r state parse_device parse_payload up events g).answers
        ≡ answers_to c g.answers
  unfolding run
  run-IsSilent c [] g s h = refl
  run-IsSilent c (e ∷ events) g s h =
      let (first, later) = shook-split c e events s in
      let (q, a) = step-IsSilent c e g first h in
      run-IsSilent c events (step r state parse_device parse_payload up e g) later q ∙ a
