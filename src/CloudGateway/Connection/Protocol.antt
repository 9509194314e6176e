-- ===== src/CloudGateway/Connection/Protocol.antt =====
-- services/cloud_gateway/cloud_gateway_service.rs: what is sent on a connection, in order.
use place_home.Prelude.{
  Bool, true, false, ◌≡◌, refl, sym, subst, List, [], ◌∷◌, ◌++◌, Result, ok, err,
}
use place_home.Prelude.Text.{Str}
use place_home.Beacons.Types.{GatewayMessage, register}
use place_home.CloudGateway.Connection.{
  Phase, connecting, open_stream, sleeping, stopped, Socket, Inbound, text, ping, close, ended,
  broken, other, Event, shutdown, refused, established, outbound, received, slept, Action, dial,
  send_text, send_pong, send_close, sleep, initial_reconnect_delay, introduce, on_outbound,
  on_inbound, step_in, step, run, spawn_connection_task,
}

module _ (to_string : GatewayMessage → Result Str Str) (server_url ws_url : Str) where
  -- A sequence of actions, by whether the node has introduced itself on its connection: the first
  -- frame on every connection is the Register frame.
  abbrev pub WellSpoken : Bool → List Action → Type 0
  WellSpoken known [] = Unit
  WellSpoken known (dial url ∷ actions) = (url ≡ ws_url) × WellSpoken false actions
  WellSpoken known (sleep secs ∷ actions) = WellSpoken known actions
  WellSpoken true (send_text frame ∷ actions) = WellSpoken true actions
  WellSpoken true (send_pong payload ∷ actions) = WellSpoken true actions
  WellSpoken true (send_close ∷ actions) = WellSpoken true actions
  WellSpoken false (send_text frame ∷ actions) =
      (to_string (register server_url) ≡ ok frame) × WellSpoken true actions
  WellSpoken false (send_pong payload ∷ actions) = ⊥
  WellSpoken false (send_close ∷ actions) = ⊥

abbrev Knows : Phase → Bool → Type 0
Knows open_stream known = known ≡ true
Knows connecting known = known ≡ false
Knows sleeping known = Unit
Knows stopped known = Unit

stays : (p : Phase) (s : Socket) (b : Bool) → s.phase ≡ p → Knows p b → Knows s.phase b
stays p s b e k = subst (λ p. Knows p b) (sym e) k

module _ (to_string : GatewayMessage → Result Str Str) (server_url ws_url : Str) where
  -- What goes on well, if the rest does.
  abbrev Continues : Bool → List Action × Socket → Type 0
  Continues known r =
      (rest : List Action)
      → ((b : Bool) → Knows r.1.phase b → WellSpoken to_string server_url ws_url b rest)
      → WellSpoken to_string server_url ws_url known (r.0 ++ rest)

  introduce-Continues :
      (sent : Bool) (o : Result Str Str) (s : Socket)
      → to_string (register server_url) ≡ o
      → Continues false (introduce ws_url sent o s)
  unfolding introduce
  introduce-Continues sent (err e) s h rest k = (refl, k false refl)
  introduce-Continues true (ok frame) s h rest k = (h, k true refl)
  introduce-Continues false (ok frame) s h rest k = (h, (refl, k false refl))

  on_outbound-Continues :
      (sent : Bool) (o : Result Str Str) (s : Socket)
      → s.phase ≡ open_stream
      → Continues true (on_outbound sent o s)
  unfolding on_outbound
  on_outbound-Continues sent (err e) s h rest k = k true (stays open_stream s true h refl)
  on_outbound-Continues true (ok frame) s h rest k = k true (stays open_stream s true h refl)
  on_outbound-Continues false (ok frame) s h rest k = k true tt

  on_inbound-Continues :
      (frame : Inbound) (s : Socket) → s.phase ≡ open_stream → Continues true (on_inbound frame s)
  unfolding on_inbound
  on_inbound-Continues (text frame) s h rest k = k true (stays open_stream s true h refl)
  on_inbound-Continues (ping payload) s h rest k = k true (stays open_stream s true h refl)
  on_inbound-Continues close s h rest k = k true tt
  on_inbound-Continues ended s h rest k = k true tt
  on_inbound-Continues broken s h rest k = k true tt
  on_inbound-Continues other s h rest k = k true (stays open_stream s true h refl)

  connecting-Continues :
      (e : Event) (s : Socket)
      → s.phase ≡ connecting
      → Continues false (step_in to_string server_url ws_url connecting e s)
  unfolding step_in
  connecting-Continues shutdown s h rest k = k false tt
  connecting-Continues refused s h rest k = k false tt
  connecting-Continues (established sent) s h rest k =
      introduce-Continues sent (to_string (register server_url))
        (record s { delay = initial_reconnect_delay }) refl rest k
  connecting-Continues (outbound _ _) s h rest k = k false (stays connecting s false h refl)
  connecting-Continues (received _) s h rest k = k false (stays connecting s false h refl)
  connecting-Continues slept s h rest k = k false (stays connecting s false h refl)

  open-Continues :
      (e : Event) (s : Socket)
      → s.phase ≡ open_stream
      → Continues true (step_in to_string server_url ws_url open_stream e s)
  unfolding step_in
  open-Continues shutdown s h rest k = k true tt
  open-Continues (outbound msg sent) s h rest k =
      on_outbound-Continues sent (to_string msg) s h rest k
  open-Continues (received frame) s h rest k = on_inbound-Continues frame s h rest k
  open-Continues refused s h rest k = k true (stays open_stream s true h refl)
  open-Continues (established _) s h rest k = k true (stays open_stream s true h refl)
  open-Continues slept s h rest k = k true (stays open_stream s true h refl)

  sleeping-Continues :
      (e : Event) (s : Socket) (b : Bool)
      → s.phase ≡ sleeping
      → Continues b (step_in to_string server_url ws_url sleeping e s)
  unfolding step_in
  sleeping-Continues slept s b h rest k = (refl, k false refl)
  sleeping-Continues shutdown s b h rest k = k b (stays sleeping s b h tt)
  sleeping-Continues refused s b h rest k = k b (stays sleeping s b h tt)
  sleeping-Continues (established _) s b h rest k = k b (stays sleeping s b h tt)
  sleeping-Continues (outbound _ _) s b h rest k = k b (stays sleeping s b h tt)
  sleeping-Continues (received _) s b h rest k = k b (stays sleeping s b h tt)

  step_in-Continues :
      (p : Phase) (e : Event) (s : Socket) (b : Bool)
      → s.phase ≡ p
      → Knows p b
      → Continues b (step_in to_string server_url ws_url p e s)
  unfolding step_in
  step_in-Continues connecting e s b h k =
      subst (λ b. Continues b (step_in to_string server_url ws_url connecting e s)) (sym k)
        (connecting-Continues e s h)
  step_in-Continues open_stream e s b h k =
      subst (λ b. Continues b (step_in to_string server_url ws_url open_stream e s)) (sym k)
        (open-Continues e s h)
  step_in-Continues sleeping e s b h k = sleeping-Continues e s b h
  step_in-Continues stopped e s b h _ = λ rest k. k b (stays stopped s b h tt)

  run-WellSpoken :
      (events : List Event) (s : Socket) (b : Bool)
      → Knows s.phase b
      → WellSpoken to_string server_url ws_url b (run to_string server_url ws_url events s).0
  unfolding run step
  run-WellSpoken [] s b k = tt
  run-WellSpoken (e ∷ events) s b k =
      step_in-Continues s.phase e s b refl k _
        (run-WellSpoken events (step to_string server_url ws_url e s).1)

  -- On every connection that the task makes, the first frame is the Register frame with the node's
  -- URL, whatever is queued or received, and every connection is made to the gateway's URL.
  pub connection-registers :
      (events : List Event)
      → let (first, s) = spawn_connection_task ws_url in
        WellSpoken to_string server_url ws_url true
          (first ++ (run to_string server_url ws_url events s).0)
  unfolding spawn_connection_task
  connection-registers events =
      (refl, run-WellSpoken events (spawn_connection_task ws_url).1 false refl)
