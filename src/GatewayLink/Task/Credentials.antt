-- ===== src/GatewayLink/Task/Credentials.antt =====
-- services/gateway_mqtt/tasks.rs: the credentials with which the connection task connects.
use place_home.Prelude.{
  ℕ, ◌≡◌, refl, sym, ◌∙◌, subst, Option, none, some, List, [], ◌∷◌, Result, ok, err, All,
  All-append, Result-cases, inl, inr,
}
use place_home.Prelude.Text.{Str}
use place_home.Mqtt.Options.{Tls, build_mqtt_opts}
use place_home.GatewayLink.Protocol.{LoginResponse, Envelope}
use place_home.GatewayLink.Task.{
  GatewayMqttConfig, Phase, logging_in, connected, backing_off, stopped, Link, Poll, conn_ack,
  publish, other, connection_refused, connection_error, Event, shutdown, answered, slept, outbound,
  polled, Action, post_login, new_client, doubled, client_config, connect_by, announce,
  on_connected, on_poll, connect, reconnect_by, reconnect, step_in, step, run,
}
use place_home.GatewayLink.Task.Backoff.{Matches}

abbrev pub NoRefusal : {Cert Roots : Type 0} → Event Cert Roots → Type 0
NoRefusal (polled connection_refused) = ⊥
NoRefusal _ = Unit

module _ {Roots : Type 0} (Cert : Type 0) (config : GatewayMqttConfig) where
  -- No login, and every connection is made with the credentials.
  abbrev pub Reuses : LoginResponse → Action Roots → Type 0
  Reuses creds (post_login url req cafile) = ⊥
  Reuses creds (new_client opts) =
      (t : Tls Cert Roots) × (build_mqtt_opts t (client_config config creds) ≡ ok opts)
  Reuses creds _ = Unit

-- What a step does and leaves while the credentials are in use.
abbrev pub IsReused :
    {Roots : Type 0}
    → Type 0
    → GatewayMqttConfig
    → LoginResponse
    → List (Action Roots) × Link
    → Type 0
IsReused Cert config creds r =
    All (Reuses Cert config creds) r.0 × (r.1.cached ≡ some creds) × Matches r.1.phase r.1.cached

-- What changes nothing but the actions.
unchanged : (p : Phase) (s : Link) → s.phase ≡ p → Matches p s.cached → Matches s.phase s.cached
unchanged p s q m = subst (λ p. Matches p s.cached) (sym q) m

announce-Reuses :
    (Cert Roots : Type 0) (config : GatewayMqttConfig) (creds c : LoginResponse)
    (o : Result Str (List ℕ))
    → All (Reuses {Roots = Roots} Cert config creds) (announce c o)
unfolding announce
announce-Reuses Cert Roots config creds c (ok payload) = (tt, tt)
announce-Reuses Cert Roots config creds c (err e) = tt

on_poll-IsReused :
    (Cert Roots : Type 0) (config : GatewayMqttConfig) (creds : LoginResponse)
    (to_vec : Envelope → Result Str (List ℕ)) (c : LoginResponse) (p : Poll) (s : Link)
    → NoRefusal {Cert = Cert} {Roots = Roots} (polled p)
    → s.phase ≡ connected c
    → s.cached ≡ some creds
    → s.cached ≡ some c
    → IsReused {Roots = Roots} Cert config creds (on_poll to_vec c p s)
unfolding on_poll on_connected
on_poll-IsReused Cert Roots config creds to_vec c conn_ack s n q e m =
    ((tt, (tt, announce-Reuses Cert Roots config creds c _)), e, unchanged _ s q m)
on_poll-IsReused Cert Roots config creds to_vec c (publish topic payload) s n q e m =
    (tt, e, unchanged _ s q m)
on_poll-IsReused Cert Roots config creds to_vec c other s n q e m = (tt, e, unchanged _ s q m)
on_poll-IsReused Cert Roots config creds to_vec c connection_error s n q e m = ((tt, tt), e, tt)
on_poll-IsReused Cert Roots config creds to_vec c connection_refused s n q e m = absurd n

module _ {Cert Roots : Type 0} (config : GatewayMqttConfig) (creds : LoginResponse) where
  connect-IsReused :
      (t : Tls Cert Roots) (s : Link)
      → s.cached ≡ some creds
      → IsReused Cert config creds (connect config t creds s)
  unfolding connect connect_by
  connect-IsReused t s e = elim (Result-cases (build_mqtt_opts t (client_config config creds))) [
    | inl (opts, k) ↦ rw k (((t, k), tt), e, e)
    | inr (m, k) ↦ rw k ((tt, tt), e, tt)
  ]

  reconnect_by-IsReused :
      (t : Tls Cert Roots) (o : Option LoginResponse) (s : Link)
      → o ≡ some creds
      → s.cached ≡ o
      → IsReused Cert config creds (reconnect_by config t o s)
  unfolding reconnect_by
  reconnect_by-IsReused t none s h e = absurd cc
  reconnect_by-IsReused t (some c) s h e =
      let same : c ≡ creds = cc in
      subst (λ c. IsReused Cert config creds (connect config t c s)) (sym same)
        (connect-IsReused t s (e ∙ h))

  module _ (to_vec : Envelope → Result Str (List ℕ)) where
    step_in-IsReused :
        (p : Phase) (e : Event Cert Roots) (s : Link)
        → NoRefusal e
        → s.phase ≡ p
        → s.cached ≡ some creds
        → Matches p s.cached
        → IsReused Cert config creds (step_in config to_vec p e s)
    unfolding step_in reconnect
    step_in-IsReused logging_in e s n q h m = absurd cc
    step_in-IsReused backing_off shutdown s n q h m = (tt, h, tt)
    step_in-IsReused backing_off (slept t) s n q h m =
        reconnect_by-IsReused t s.cached (record s { delay = doubled s.delay }) h refl
    step_in-IsReused (connected c) shutdown s n q h m = ((tt, tt), h, tt)
    step_in-IsReused (connected c) (polled p) s n q h m =
        on_poll-IsReused Cert Roots config creds to_vec c p s n q h m
    step_in-IsReused (connected c) (outbound _ _) s n q h m = ((tt, tt), h, unchanged _ s q m)
    step_in-IsReused (connected c) (answered _ _) s n q h m = (tt, h, unchanged _ s q m)
    step_in-IsReused (connected c) (slept _) s n q h m = (tt, h, unchanged _ s q m)
    step_in-IsReused backing_off (answered _ _) s n q h m = (tt, h, unchanged _ s q m)
    step_in-IsReused backing_off (outbound _ _) s n q h m = (tt, h, unchanged _ s q m)
    step_in-IsReused backing_off (polled _) s n q h m = (tt, h, unchanged _ s q m)
    step_in-IsReused stopped e s n q h m = (tt, h, unchanged _ s q m)

    -- Once credentials are cached, no login follows for as long as the broker does not refuse a
    -- connection, through any errors and waits, and every connection is made with the same ones.
    pub run-IsReused :
        (events : List (Event Cert Roots)) (s : Link)
        → All NoRefusal events
        → s.cached ≡ some creds
        → Matches s.phase s.cached
        → IsReused Cert config creds (run config to_vec events s)
    unfolding run step
    run-IsReused [] s n h m = (tt, h, m)
    run-IsReused (e ∷ events) s (n, ns) h m =
        let (a, h', m') = step_in-IsReused s.phase e s n refl h m in
        let r = run-IsReused events (step config to_vec e s).1 ns h' m' in
        (All-append _ (step config to_vec e s).0 _ a r.0, r.1, r.2)
