-- ===== src/GatewayLink/Task/Trusted.antt =====
-- services/gateway_mqtt/tasks.rs: whom the connection task trusts, and how it ends.
use mathlib.Core.List.{Mem, mem-cons_self, mem-append_left, mem-append_right}
use place_home.Prelude.{
  ℕ, true, ◌≡◌, refl, sym, ap, Option, none, some, List, [], ◌∷◌, ◌++◌, Result, ok, err, All,
  All-append, Result-cases, inl, inr,
}
use place_home.Prelude.Text.{Str}
use place_home.Mqtt.Options.{
  Tls, MqttOptions, Transport, tls_server, add_all, build_mqtt_opts, apply_mode, build_server_tls,
}
use place_home.GatewayLink.Protocol.{LoginResponse, Envelope}
use place_home.GatewayLink.Login.{LoginError}
use place_home.GatewayLink.Task.{
  GatewayMqttConfig, Phase, logging_in, connected, backing_off, stopped, Link, Poll, conn_ack,
  publish, other, connection_refused, connection_error, Event, shutdown, answered, slept, outbound,
  polled, Action, new_client, disconnect, doubled, client_config, connect_by, announce,
  on_connected, on_poll, connect, reconnect_by, reconnect, logged_in, step_in, step, run,
}

abbrev transport_of : {Roots : Type 0} → Result Str (MqttOptions Roots) → Transport Roots
transport_of (ok opts) = opts.transport
transport_of (err e) = Transport.tcp

module _ {Cert Roots : Type 0} where
  -- A root store to which certificates were added, every one of which could be parsed.
  abbrev pub Adds : Tls Cert Roots → List (Result Str Cert) → Roots → Roots → Type 0
  Adds t [] before after = before ≡ after
  Adds t (err e ∷ certs) before after = ⊥
  Adds t (ok c ∷ certs) before after =
      (more : Roots) × (t.add c before ≡ ok more) × Adds t certs more after

  -- The roots that a CA file gives: all certificates of the file as it is read, and no others.
  abbrev pub AreRoots : Tls Cert Roots → Option Str → Roots → Type 0
  AreRoots t none roots = roots ≡ t.extend_webpki t.empty
  AreRoots t (some cafile) roots =
      (pem : List ℕ) × (t.read cafile ≡ ok pem) × Adds t (t.certs pem) t.empty roots

  -- What an event brings to read files and certificates with.
  abbrev pub brought : Event Cert Roots → List (Tls Cert Roots)
  brought (answered t n) = t ∷ []
  brought (slept t) = t ∷ []
  brought _ = []

  abbrev pub all_brought : List (Event Cert Roots) → List (Tls Cert Roots)
  all_brought [] = []
  all_brought (e ∷ events) = brought e ++ all_brought events

  add_all-Adds :
      (t : Tls Cert Roots) (certs : List (Result Str Cert)) (before after : Roots)
      → add_all t certs before ≡ ok after
      → Adds t certs before after
  unfolding add_all
  add_all-Adds t [] before after h = cc
  add_all-Adds t (err e ∷ certs) before after h = absurd cc
  add_all-Adds t (ok c ∷ certs) before after h = elim (Result-cases (t.add c before)) [
    | inl (more, k) ↦ (more, k, add_all-Adds t certs more after (simp k at h))
    | inr (m, k) ↦ absurd (let h' = (simp k at h) in cc)
  ]

  build_server_tls-AreRoots :
      (t : Tls Cert Roots) (cafile : Option Str) (roots : Roots)
      → build_server_tls t cafile ≡ ok roots
      → AreRoots t cafile roots
  unfolding build_server_tls
  build_server_tls-AreRoots t none roots h = cc
  build_server_tls-AreRoots t (some cafile) roots h = elim (Result-cases (t.read cafile)) [
    | inl (pem, k) ↦ (pem, k, add_all-Adds t (t.certs pem) t.empty roots (simp k at h))
    | inr (m, k) ↦ absurd (let h' = (simp k at h) in cc)
  ]

module _ {Cert Roots : Type 0} (ts : List (Tls Cert Roots)) (config : GatewayMqttConfig) where
  -- A connection verifies the broker by the roots of the CA file, as one of `ts` reads it.
  abbrev pub Verifies : Action Roots → Type 0
  Verifies (new_client opts) =
      (t : Tls Cert Roots) × (roots : Roots) × Mem t ts
      × AreRoots t config.broker_cafile roots
      × (opts.transport ≡ tls_server roots)
  Verifies _ = Unit

  server_only-Verifies :
      (t : Tls Cert Roots) (creds : LoginResponse) (opts : MqttOptions Roots)
      → Mem t ts
      → config.broker_tls ≡ true
      → build_mqtt_opts t (client_config config creds) ≡ ok opts
      → Verifies (new_client opts)
  unfolding build_mqtt_opts apply_mode
  server_only-Verifies t creds opts i e h =
      elim (Result-cases (build_server_tls t config.broker_cafile)) [
        | inl (roots, k) ↦ (
          t,
          roots,
          i,
          build_server_tls-AreRoots t config.broker_cafile roots k,
          sym (ap transport_of (simp (e, k) at h)),
        )
        | inr (m, k) ↦ absurd (let h' = (simp (e, k) at h) in cc)
      ]

  connect-Verifies :
      (t : Tls Cert Roots) (creds : LoginResponse) (s : Link)
      → Mem t ts
      → config.broker_tls ≡ true
      → All Verifies (connect config t creds s).0
  unfolding connect connect_by
  connect-Verifies t creds s i h =
      elim (Result-cases (build_mqtt_opts t (client_config config creds))) [
        | inl (opts, k) ↦ rw k (server_only-Verifies t creds opts i h k, tt)
        | inr (m, k) ↦ rw k (tt, tt)
      ]

  reconnect_by-Verifies :
      (t : Tls Cert Roots) (o : Option LoginResponse) (s : Link)
      → Mem t ts
      → config.broker_tls ≡ true
      → All Verifies (reconnect_by config t o s).0
  unfolding reconnect_by
  reconnect_by-Verifies t none s i h = (tt, tt)
  reconnect_by-Verifies t (some creds) s i h = connect-Verifies t creds s i h

  logged_in-Verifies :
      (t : Tls Cert Roots) (r : Result LoginError LoginResponse) (s : Link)
      → Mem t ts
      → config.broker_tls ≡ true
      → All Verifies (logged_in config t r s).0
  unfolding logged_in
  logged_in-Verifies t (err e) s i h = (tt, tt)
  logged_in-Verifies t (ok creds) s i h =
      connect-Verifies t creds (record s { cached = some creds }) i h

  announce-Verifies : (c : LoginResponse) (o : Result Str (List ℕ)) → All Verifies (announce c o)
  unfolding announce
  announce-Verifies c (ok payload) = (tt, tt)
  announce-Verifies c (err e) = tt

  on_poll-Verifies :
      (to_vec : Envelope → Result Str (List ℕ)) (c : LoginResponse) (p : Poll) (s : Link)
      → All Verifies (on_poll to_vec c p s).0
  unfolding on_poll on_connected
  on_poll-Verifies to_vec c conn_ack s = (tt, (tt, announce-Verifies c _))
  on_poll-Verifies to_vec c (publish topic payload) s = tt
  on_poll-Verifies to_vec c other s = tt
  on_poll-Verifies to_vec c connection_refused s = (tt, tt)
  on_poll-Verifies to_vec c connection_error s = (tt, tt)

  step_in-Verifies :
      (to_vec : Envelope → Result Str (List ℕ)) (p : Phase) (e : Event Cert Roots) (s : Link)
      → ((t : Tls Cert Roots) → Mem t (brought e) → Mem t ts)
      → config.broker_tls ≡ true
      → All Verifies (step_in config to_vec p e s).0
  unfolding step_in reconnect
  step_in-Verifies to_vec logging_in (answered t n) s i h =
      logged_in-Verifies t _ s (i t mem-cons_self) h
  step_in-Verifies to_vec backing_off (slept t) s i h =
      reconnect_by-Verifies t s.cached (record s { delay = doubled s.delay }) (i t mem-cons_self) h
  step_in-Verifies to_vec (connected c) shutdown s i h = (tt, tt)
  step_in-Verifies to_vec (connected c) (outbound _ _) s i h = (tt, tt)
  step_in-Verifies to_vec (connected c) (polled p) s i h = on_poll-Verifies to_vec c p s
  step_in-Verifies to_vec (connected c) (answered _ _) s i h = tt
  step_in-Verifies to_vec (connected c) (slept _) s i h = tt
  step_in-Verifies to_vec logging_in shutdown s i h = tt
  step_in-Verifies to_vec logging_in (slept _) s i h = tt
  step_in-Verifies to_vec logging_in (outbound _ _) s i h = tt
  step_in-Verifies to_vec logging_in (polled _) s i h = tt
  step_in-Verifies to_vec backing_off shutdown s i h = tt
  step_in-Verifies to_vec backing_off (answered _ _) s i h = tt
  step_in-Verifies to_vec backing_off (outbound _ _) s i h = tt
  step_in-Verifies to_vec backing_off (polled _) s i h = tt
  step_in-Verifies to_vec stopped e s i h = tt

  steps-Verifies :
      (to_vec : Envelope → Result Str (List ℕ)) (events : List (Event Cert Roots)) (s : Link)
      → ((t : Tls Cert Roots) → Mem t (all_brought events) → Mem t ts)
      → config.broker_tls ≡ true
      → All Verifies (run config to_vec events s).0
  unfolding run step
  steps-Verifies to_vec [] s i h = tt
  steps-Verifies to_vec (e ∷ events) s i h =
      All-append Verifies (step config to_vec e s).0 _
        (step_in-Verifies to_vec s.phase e s (λ t m. i t (mem-append_left (all_brought events) m))
          h)
        (steps-Verifies to_vec events (step config to_vec e s).1
          (λ t m. i t (mem-append_right (brought e) m)) h)

-- What the shutdown signal still does: the connection, if there is one, is closed.
abbrev pub farewell : {Roots : Type 0} → Phase → List (Action Roots)
farewell (connected creds) = disconnect ∷ []
farewell _ = []

module _ {Cert Roots : Type 0} (config : GatewayMqttConfig)
    (to_vec : Envelope → Result Str (List ℕ)) where
  -- With TLS configured for the broker, the task never connects to one in plaintext: every
  -- connection verifies the broker by the certificates of the CA file, as it is read in the run,
  -- all of them and no others, or by webpki's with no file.
  pub run-Verifies :
      (events : List (Event Cert Roots)) (s : Link)
      → config.broker_tls ≡ true
      → All (Verifies (all_brought events) config) (run config to_vec events s).0
  run-Verifies events s h = steps-Verifies (all_brought events) config to_vec events s (λ t m. m) h

  stopped-run :
      (events : List (Event Cert Roots)) (s : Link)
      → s.phase ≡ stopped
      → run config to_vec events s ≡ ([], s)
  unfolding run step step_in
  stopped-run [] s h = refl
  stopped-run (e ∷ events) s h = simp h (stopped-run events s h)

  shutdown_in :
      (p : Phase) (events : List (Event Cert Roots)) (s : Link)
      → s.phase ≡ p
      → let r = step_in {Cert = Cert} config to_vec p shutdown s in
        let later = run config to_vec events r.1 in
        (r.0 ++ later.0 ≡ farewell p) × (later.1.phase ≡ stopped)
  unfolding step_in
  shutdown_in logging_in events s h =
      rw (stopped-run events (record s { phase = stopped }) refl) (refl, refl)
  shutdown_in backing_off events s h =
      rw (stopped-run events (record s { phase = stopped; delay = doubled s.delay }) refl)
        (refl, refl)
  shutdown_in (connected creds) events s h =
      rw (stopped-run events (record s { phase = stopped }) refl) (refl, refl)
  shutdown_in stopped events s h = rw (stopped-run events s h) (refl, h)

  -- Wherever the task waits, a shutdown ends it for good: whatever happens afterwards it closes its
  -- connection, if it has one, and does nothing else.
  pub shutdown-ends :
      (events : List (Event Cert Roots)) (s : Link)
      → let r = run config to_vec (shutdown ∷ events) s in
        (r.0 ≡ farewell s.phase) × (r.1.phase ≡ stopped)
  unfolding run step
  shutdown-ends events s = shutdown_in s.phase events s refl
