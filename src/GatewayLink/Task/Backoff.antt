-- ===== src/GatewayLink/Task/Backoff.antt =====
-- services/gateway_mqtt/tasks.rs: how long the connection task waits between its attempts.
use place_home.Prelude.{
  ℕ, zero, suc, ◌^◌, ◌≤◌, ◌≡◌, refl, sym, ap, ◌∙◌, subst, Option, none, some, List, [], ◌∷◌, Result,
  ok, err, if◌then◌else◌, leb, All, All-append, arith,
}
use place_home.Prelude.Text.{Str}
use place_home.Mqtt.Options.{Tls, MqttOptions, build_mqtt_opts}
use place_home.GatewayLink.Protocol.{LoginResponse, Envelope}
use place_home.GatewayLink.Login.{LoginError}
use place_home.GatewayLink.Task.{
  GatewayMqttConfig, Phase, logging_in, connected, backing_off, stopped, Link, Poll, conn_ack,
  publish, other, connection_refused, connection_error, Event, shutdown, answered, slept, outbound,
  polled, Action, sleep, doubled, client_config, back_off, connect_by, announce, on_connected,
  on_poll, connect, reconnect_by, reconnect, logged_in, step_in, step, run, spawn_connection_task,
}

-- The wait after `k` attempts that failed, in seconds.
abbrev pub wait : ℕ → ℕ
wait k = if leb (2 ^ suc k) 60 then 2 ^ suc k else 60

pub doubled-wait : (k : ℕ) → doubled (wait k) ≡ wait (suc k)
doubled-wait k = ground arith

two_pow-pos : (k : ℕ) → 1 ≤ 2 ^ k
two_pow-pos zero = omega arith
two_pow-pos (suc k) = omega (arith, two_pow-pos k)

wait-le : (k : ℕ) → (2 ≤ wait k) × (wait k ≤ 60)
wait-le k = (ground (arith, two_pow-pos k), ground arith)

-- A wait between two and sixty seconds.
abbrev pub SleepsWithin : {Roots : Type 0} → Action Roots → Type 0
SleepsWithin (sleep secs) = (2 ≤ secs) × (secs ≤ 60)
SleepsWithin _ = Unit

-- The credentials of a connection are the cached ones, and a login is only waited for without any.
abbrev pub Matches : Phase → Option LoginResponse → Type 0
Matches (connected creds) cached = cached ≡ some creds
Matches logging_in cached = cached ≡ none
Matches backing_off cached = Unit
Matches stopped cached = Unit

abbrev pub IsWait : ℕ → Type 0
IsWait delay = (failures : ℕ) × (delay ≡ wait failures)

pub record IsSound (s : Link) : Type 0 where
  pub waits : IsWait s.delay
  pub matching : Matches s.phase s.cached

-- What a step of the task may do, and where it leads.
abbrev pub IsGood : {Roots : Type 0} → List (Action Roots) × Link → Type 0
IsGood r = All SleepsWithin r.0 × IsSound r.1

back_off-IsGood : (Roots : Type 0) (s : Link) → IsWait s.delay → IsGood (back_off {Roots = Roots} s)
back_off-IsGood Roots s (k, e) = (
  (subst (λ d. (2 ≤ d) × (d ≤ 60)) (sym e) (wait-le k), tt),
  record { waits = (k, e); matching = tt },
)

connect_by-IsGood :
    (Roots : Type 0) (creds : LoginResponse) (o : Result Str (MqttOptions Roots)) (s : Link)
    → IsWait s.delay
    → s.cached ≡ some creds
    → IsGood (connect_by creds o s)
unfolding connect_by
connect_by-IsGood Roots creds (ok opts) s h e = ((tt, tt), record { waits = h; matching = e })
connect_by-IsGood Roots creds (err m) s h e = back_off-IsGood Roots s h

announce-SleepsWithin :
    (Roots : Type 0) (creds : LoginResponse) (o : Result Str (List ℕ))
    → All SleepsWithin (announce {Roots = Roots} creds o)
unfolding announce
announce-SleepsWithin Roots creds (ok payload) = (tt, tt)
announce-SleepsWithin Roots creds (err e) = tt

on_poll-IsGood :
    (Roots : Type 0) (to_vec : Envelope → Result Str (List ℕ)) (creds : LoginResponse) (p : Poll)
    (s : Link)
    → IsSound s
    → IsGood (on_poll {Roots = Roots} to_vec creds p s)
unfolding on_poll on_connected
on_poll-IsGood Roots to_vec creds conn_ack s h = (
  (tt, (tt, announce-SleepsWithin Roots creds _)),
  record { waits = (0, refl); matching = h.matching },
)
on_poll-IsGood Roots to_vec creds (publish topic payload) s h = (tt, h)
on_poll-IsGood Roots to_vec creds other s h = (tt, h)
on_poll-IsGood Roots to_vec creds connection_refused s h =
    back_off-IsGood Roots (record s { cached = none }) h.waits
on_poll-IsGood Roots to_vec creds connection_error s h = back_off-IsGood Roots s h.waits

IsWait-doubled : (delay : ℕ) → IsWait delay → IsWait (doubled delay)
IsWait-doubled delay (k, e) = (suc k, ap doubled e ∙ doubled-wait k)

module _ {Cert Roots : Type 0} (config : GatewayMqttConfig) where
  reconnect_by-IsGood :
      (t : Tls Cert Roots) (o : Option LoginResponse) (s : Link)
      → IsWait s.delay
      → s.cached ≡ o
      → IsGood (reconnect_by config t o s)
  unfolding reconnect_by connect
  reconnect_by-IsGood t none s h e = ((tt, tt), record { waits = h; matching = e })
  reconnect_by-IsGood t (some creds) s h e =
      connect_by-IsGood Roots creds (build_mqtt_opts t (client_config config creds)) s h e

  logged_in-IsGood :
      (t : Tls Cert Roots) (r : Result LoginError LoginResponse) (s : Link)
      → IsWait s.delay
      → IsGood (logged_in config t r s)
  unfolding logged_in connect
  logged_in-IsGood t (err e) s h = back_off-IsGood Roots s h
  logged_in-IsGood t (ok creds) s h =
      connect_by-IsGood Roots creds (build_mqtt_opts t (client_config config creds))
        (record s { cached = some creds }) h refl

  module _ (to_vec : Envelope → Result Str (List ℕ)) where
    step_in-IsGood :
        (p : Phase) (e : Event Cert Roots) (s : Link)
        → IsSound s
        → s.phase ≡ p
        → IsGood (step_in config to_vec p e s)
    unfolding step_in reconnect
    step_in-IsGood logging_in shutdown s h e = (tt, record { waits = h.waits; matching = tt })
    step_in-IsGood logging_in (answered t n) s h e = logged_in-IsGood t _ s h.waits
    step_in-IsGood logging_in (slept _) s h e = (tt, h)
    step_in-IsGood logging_in (outbound _ _) s h e = (tt, h)
    step_in-IsGood logging_in (polled _) s h e = (tt, h)
    step_in-IsGood backing_off shutdown s h e =
        (tt, record { waits = IsWait-doubled s.delay h.waits; matching = tt })
    step_in-IsGood backing_off (slept t) s h e =
        reconnect_by-IsGood t s.cached (record s { delay = doubled s.delay })
          (IsWait-doubled s.delay h.waits) refl
    step_in-IsGood backing_off (answered _ _) s h e = (tt, h)
    step_in-IsGood backing_off (outbound _ _) s h e = (tt, h)
    step_in-IsGood backing_off (polled _) s h e = (tt, h)
    step_in-IsGood (connected creds) shutdown s h e =
        ((tt, tt), record { waits = h.waits; matching = tt })
    step_in-IsGood (connected creds) (outbound _ _) s h e = ((tt, tt), h)
    step_in-IsGood (connected creds) (polled p) s h e = on_poll-IsGood Roots to_vec creds p s h
    step_in-IsGood (connected creds) (answered _ _) s h e = (tt, h)
    step_in-IsGood (connected creds) (slept _) s h e = (tt, h)
    step_in-IsGood stopped e s h _ = (tt, h)

    run-IsGood :
        (events : List (Event Cert Roots)) (s : Link)
        → IsSound s
        → IsGood (run config to_vec events s)
    unfolding run step
    run-IsGood [] s h = (tt, h)
    run-IsGood (e ∷ events) s h =
        let (a, k) = step_in-IsGood s.phase e s h refl in
        let (b, l) = run-IsGood events (step config to_vec e s).1 k in
        (All-append _ (step config to_vec e s).0 _ a b, l)

    -- Whatever happens to the task from its start, every wait takes between two and sixty seconds,
    -- the connection uses the cached credentials, and a login is only waited for while none are
    -- cached.
    pub link_run-IsSound :
        (events : List (Event Cert Roots))
        → IsGood (run config to_vec events (spawn_connection_task {Roots = Roots} config).1)
    unfolding spawn_connection_task
    link_run-IsSound events =
        run-IsGood events (spawn_connection_task {Roots = Roots} config).1
          (record { waits = (0, refl); matching = refl })
