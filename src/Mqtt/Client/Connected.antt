-- ===== src/Mqtt/Client/Connected.antt =====
-- The event loop of services/mqtt_client/tasks.rs: what it passes on, and the signal that the client
-- is connected.
use place_home.Prelude.{
  ℕ, ◌+◌, ◌≡◌, refl, ap, ◌∙◌, Bool, true, false, List, [], ◌∷◌, ok, err, arith, if◌then◌else◌,
}
use place_home.Mqtt.Client.{
  MqttMessage, published, conn_ack, disconnected, other, poll_error, LoopEvent, shutdown, outbound,
  polled, EventLoop, signal_connected, on_poll, loop_step_in, loop_step, loop_run, spawned_loop,
}

-- What the events up to the shutdown bring: the messages to publish and those to deliver, the last
-- first after the earlier ones, and whether the broker has acknowledged a connection.
abbrev pub to_publish : List LoopEvent → List MqttMessage → List MqttMessage
to_publish [] earlier = earlier
to_publish (shutdown ∷ events) earlier = earlier
to_publish (outbound msg ∷ events) earlier = to_publish events (msg ∷ earlier)
to_publish (polled p ∷ events) earlier = to_publish events earlier

abbrev pub to_deliver : List LoopEvent → List MqttMessage → List MqttMessage
to_deliver [] earlier = earlier
to_deliver (shutdown ∷ events) earlier = earlier
to_deliver (outbound msg ∷ events) earlier = to_deliver events earlier
to_deliver (polled (published (ok _) msg) ∷ events) earlier = to_deliver events (msg ∷ earlier)
to_deliver (polled _ ∷ events) earlier = to_deliver events earlier

abbrev pub acknowledged : List LoopEvent → ℕ
acknowledged [] = 0
acknowledged (shutdown ∷ events) = 0
acknowledged (polled conn_ack ∷ events) = 1
acknowledged (_ ∷ events) = acknowledged events

-- A loop that has stopped, whatever it has done.
stopped-run :
    (events : List LoopEvent) (s : EventLoop) → s.is_running ≡ false → loop_run events s ≡ s
unfolding loop_run loop_step loop_step_in
stopped-run [] s h = refl
stopped-run (e ∷ events) s h = simp h (stopped-run events s h)

module _ (published_out delivered : List MqttMessage) (slept : ℕ) where
  -- A loop that runs, before the first acknowledgement and after it.
  abbrev running : Bool → ℕ → EventLoop
  running tx signals = record {
    is_running = true;
    connected_tx = tx;
    signals = signals;
    published_out = published_out;
    delivered = delivered;
    slept = slept;
  }

-- What a loop has to have done in the end.
abbrev Passes : List LoopEvent → List MqttMessage → List MqttMessage → EventLoop → Type 0
Passes events out delivered s =
    (s.published_out ≡ to_publish events out) × (s.delivered ≡ to_deliver events delivered)

run-Passes :
    (events : List LoopEvent) (out delivered : List MqttMessage) (tx : Bool) (slept signals : ℕ)
    → Passes events out delivered (loop_run events (running out delivered slept tx signals))
unfolding loop_run loop_step loop_step_in on_poll signal_connected
run-Passes [] out del tx sl si = (refl, refl)
run-Passes (shutdown ∷ events) out del tx sl si =
    let stopped = record (running out del sl tx si) { is_running = false } in
    let e = stopped-run events stopped refl in
    (ap (λ s. s.published_out) e, ap (λ s. s.delivered) e)
run-Passes (outbound msg ∷ events) out del tx sl si = run-Passes events (msg ∷ out) del tx sl si
run-Passes (polled (published (ok _) msg) ∷ events) out del tx sl si =
    run-Passes events out (msg ∷ del) tx sl si
run-Passes (polled (published (err e) msg) ∷ events) out del tx sl si =
    run-Passes events out del tx sl si
run-Passes (polled conn_ack ∷ events) out del true sl si =
    run-Passes events out del false sl (si + 1)
run-Passes (polled conn_ack ∷ events) out del false sl si = run-Passes events out del false sl si
run-Passes (polled disconnected ∷ events) out del tx sl si = run-Passes events out del tx sl si
run-Passes (polled other ∷ events) out del tx sl si = run-Passes events out del tx sl si
run-Passes (polled poll_error ∷ events) out del tx sl si = run-Passes events out del tx (sl + 5) si

run-signals :
    (events : List LoopEvent) (out delivered : List MqttMessage) (tx : Bool) (slept signals : ℕ)
    → (loop_run events (running out delivered slept tx signals)).signals
      ≡ signals + (if tx then acknowledged events else 0)
unfolding loop_run loop_step loop_step_in on_poll signal_connected
run-signals [] out del true sl si = omega arith
run-signals [] out del false sl si = omega arith
run-signals (shutdown ∷ events) out del tx sl si =
    let stopped = record (running out del sl tx si) { is_running = false } in
    ap (λ s. s.signals) (stopped-run events stopped refl) ∙ ground arith
run-signals (outbound msg ∷ events) out del tx sl si = run-signals events (msg ∷ out) del tx sl si
run-signals (polled (published (ok _) msg) ∷ events) out del tx sl si =
    run-signals events out (msg ∷ del) tx sl si
run-signals (polled (published (err e) msg) ∷ events) out del tx sl si =
    run-signals events out del tx sl si
run-signals (polled conn_ack ∷ events) out del true sl si =
    run-signals events out del false sl (si + 1) ∙ omega arith
run-signals (polled conn_ack ∷ events) out del false sl si = run-signals events out del false sl si
run-signals (polled disconnected ∷ events) out del tx sl si = run-signals events out del tx sl si
run-signals (polled other ∷ events) out del tx sl si = run-signals events out del tx sl si
run-signals (polled poll_error ∷ events) out del tx sl si =
    run-signals events out del tx (sl + 5) si

-- Until its shutdown, and not after it, the event loop asks for every queued message to be
-- published and hands on every message that arrives, once each and in order, through any errors and
-- reconnections, but for those whose handing on fails, which are lost; and it signals that it is
-- connected at the first acknowledgement and never again.
pub event_loop-passes :
    (events : List LoopEvent)
    → let s = loop_run events spawned_loop in
      (s.published_out ≡ to_publish events [])
      × (s.delivered ≡ to_deliver events [])
      × (s.signals ≡ acknowledged events)
event_loop-passes events =
    let p = run-Passes events [] [] true 0 0 in
    (p.0, p.1, run-signals events [] [] true 0 0 ∙ omega arith)
