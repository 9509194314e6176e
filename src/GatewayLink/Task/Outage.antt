-- ===== src/GatewayLink/Task/Outage.antt =====
-- services/gateway_mqtt/tasks.rs: the attempts of the connection task while every login fails.
use place_home.Prelude.{
  ℕ, suc, ◌+◌, ◌≡◌, refl, ap, ◌∙◌, none, List, [], ◌∷◌, Result, err, All, length, arith,
}
use place_home.Prelude.Text.{Str}
use place_home.Mqtt.Options.{Tls}
use place_home.GatewayLink.Protocol.{Envelope}
use place_home.GatewayLink.Login.{LoginError, Network, login}
use place_home.GatewayLink.Task.{
  GatewayMqttConfig, logging_in, Link, Event, answered, slept, Action, doubled, post_login, sleep,
  login_request, logged_in, reconnect, reconnect_by, step_in, step, run, spawn_connection_task,
}
use place_home.GatewayLink.Task.Backoff.{wait, doubled-wait}

-- What the system is at an attempt to log in, and at the end of the wait that follows.
pub record Attempt (Cert Roots : Type 0) : Type 0 where
  pub tls : Tls Cert Roots
  pub network : Network Roots
  pub later : Tls Cert Roots

module _ {Cert Roots : Type 0} (config : GatewayMqttConfig) where
  abbrev pub Fails : Attempt Cert Roots → Type 0
  Fails a =
      (e : LoginError) × (login a.tls a.network config.gateway_url (login_request config)
          config.broker_cafile
        ≡ err e)

  -- The waits and the attempts after `k` failures.
  abbrev pub retries : ℕ → List (Attempt Cert Roots) → List (Action Roots)
  retries k [] = []
  retries k (a ∷ attempts) =
      sleep (wait k)
      ∷ post_login config.gateway_url (login_request config) config.broker_cafile
      ∷ retries (suc k) attempts

abbrev pub events_of : {Cert Roots : Type 0} → List (Attempt Cert Roots) → List (Event Cert Roots)
events_of [] = []
events_of (a ∷ attempts) = answered a.tls a.network ∷ slept a.later ∷ events_of attempts

-- The task in a login, with the delay of its next wait.
abbrev pub attempting : ℕ → Link
attempting delay = record { delay = delay; cached = none; phase = logging_in }

module _ {Cert Roots : Type 0} (config : GatewayMqttConfig)
    (to_vec : Envelope → Result Str (List ℕ)) where
  -- A failed attempt with the wait that follows, and the run from there.
  retry-run :
      (delay : ℕ) (a : Attempt Cert Roots) (events : List (Event Cert Roots))
      → Fails config a
      → let rest = run config to_vec events (attempting (doubled delay)) in
        run config to_vec (answered a.tls a.network ∷ slept a.later ∷ events) (attempting delay) ≡ (
          sleep delay
              ∷ post_login config.gateway_url (login_request config) config.broker_cafile
              ∷ rest.0,
          rest.1,
        )
  unfolding run step step_in reconnect reconnect_by logged_in
  retry-run delay a events (e, h) = rw h refl

  run-retries :
      (k : ℕ) (attempts : List (Attempt Cert Roots))
      → All (Fails config) attempts
      → run config to_vec (events_of attempts) (attempting (wait k))
        ≡ (retries config k attempts, attempting (wait (k + length attempts)))
  unfolding run
  run-retries k [] h =
      let same : k ≡ k + 0 = omega arith in ap (λ i. ([], attempting (wait i))) same
  run-retries k (a ∷ attempts) (h, hs) =
      let same : suc k + length attempts ≡ k + suc (length attempts) = omega arith in
      retry-run (wait k) a (events_of attempts) h
      ∙ ap
          (λ d. (
            sleep (wait k)
                ∷ post_login config.gateway_url (login_request config) config.broker_cafile
                ∷ (run config to_vec (events_of attempts) (attempting d)).0,
            (run config to_vec (events_of attempts) (attempting d)).1,
          ))
          (doubled-wait k)
      ∙ ap
          (λ r. (
            sleep (wait k)
                ∷ post_login config.gateway_url (login_request config) config.broker_cafile
                ∷ r.0,
            r.1,
          ))
          (run-retries (suc k) attempts hs)
      ∙ ap (λ i. (retries config k (a ∷ attempts), attempting (wait i))) same

  -- While every login fails, by a rejection of the credentials or otherwise, the task posts the
  -- same request again and again, after waits of 2, 4, 8, 16 and 32 seconds and then always 60.
  pub outage-retries :
      (attempts : List (Attempt Cert Roots))
      → All (Fails config) attempts
      → run config to_vec (events_of attempts) (spawn_connection_task {Roots = Roots} config).1
        ≡ (retries config 0 attempts, attempting (wait (length attempts)))
  unfolding spawn_connection_task run
  outage-retries attempts h =
      let same : 0 + length attempts ≡ length attempts = omega arith in
      run-retries 0 attempts h ∙ ap (λ i. (retries config 0 attempts, attempting (wait i))) same
