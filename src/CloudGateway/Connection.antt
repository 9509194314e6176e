-- ===== src/CloudGateway/Connection.antt =====
-- `spawn_connection_task` of services/cloud_gateway/cloud_gateway_service.rs, from one thing it waits
-- for to the next. An event that the task does not wait for where it stands changes nothing; asleep
-- it waits for the end of the sleep alone.
pub mod Protocol
use place_home.Prelude.{
  ℕ, ◌*◌, Bool, true, false, Option, none, some, List, [], ◌∷◌, ◌++◌, Result, ok, err, leb,
  if◌then◌else◌,
}
use place_home.Prelude.Text.{Str}
use place_home.Beacons.Types.{GatewayMessage, register}

abbrev pub initial_reconnect_delay : ℕ
initial_reconnect_delay = 2

abbrev pub max_reconnect_delay : ℕ
max_reconnect_delay = 60

pub data Phase : Type 0 where
  connecting open_stream sleeping stopped : Phase

pub record Socket : Type 0 where
  pub delay : ℕ
  pub phase : Phase

-- What `stream.next()` yields.
pub data Inbound : Type 0 where
  text : Str → Inbound
  ping : List ℕ → Inbound
  close : Inbound
  ended : Inbound
  broken : Inbound
  other : Inbound

-- `sent` is whether the sink takes the frame.
pub data Event : Type 0 where
  shutdown : Event
  refused : Event
  established : (sent : Bool) → Event
  outbound : GatewayMessage → (sent : Bool) → Event
  received : Inbound → Event
  slept : Event

pub data Action : Type 0 where
  dial : (url : Str) → Action
  send_text : Str → Action
  send_pong : List ℕ → Action
  send_close : Action
  sleep : (secs : ℕ) → Action

abbrev pub doubled : ℕ → ℕ
doubled delay = if leb (delay * 2) max_reconnect_delay then delay * 2 else max_reconnect_delay

abbrev fall_asleep : Socket → List Action × Socket
fall_asleep s = (sleep s.delay ∷ [], record s { phase = sleeping })

-- The Register frame: without it the next round begins at once.
introduce : (ws_url : Str) → Bool → Result Str Str → Socket → List Action × Socket
introduce ws_url sent (err e) s = (dial ws_url ∷ [], record s { phase = connecting })
introduce ws_url true (ok frame) s = (send_text frame ∷ [], record s { phase = open_stream })
introduce ws_url false (ok frame) s =
    (send_text frame ∷ dial ws_url ∷ [], record s { phase = connecting })

on_outbound : Bool → Result Str Str → Socket → List Action × Socket
on_outbound sent (err e) s = ([], s)
on_outbound true (ok frame) s = (send_text frame ∷ [], s)
on_outbound false (ok frame) s = let (a, s') = fall_asleep s in (send_text frame ∷ a, s')

-- The match on `stream.next()`; a text is only logged.
unfoldable pub on_inbound : Inbound → Socket → List Action × Socket
on_inbound (text frame) s = ([], s)
on_inbound (ping payload) s = (send_pong payload ∷ [], s)
on_inbound close s = fall_asleep s
on_inbound ended s = fall_asleep s
on_inbound broken s = fall_asleep s
on_inbound other s = ([], s)

module _ (to_string : GatewayMessage → Result Str Str) (server_url ws_url : Str) where
  step_in : Phase → Event → Socket → List Action × Socket
  unfolding introduce on_outbound on_inbound
  step_in connecting shutdown s = ([], record s { phase = stopped })
  step_in connecting refused s = fall_asleep s
  step_in connecting (established sent) s =
      introduce ws_url sent (to_string (register server_url))
        (record s { delay = initial_reconnect_delay })
  step_in open_stream shutdown s = (send_close ∷ [], record s { phase = stopped })
  step_in open_stream (outbound msg sent) s = on_outbound sent (to_string msg) s
  step_in open_stream (received frame) s = on_inbound frame s
  step_in sleeping slept s =
      (dial ws_url ∷ [], record s { delay = doubled s.delay; phase = connecting })
  step_in _ _ s = ([], s)

  unfoldable pub step : Event → Socket → List Action × Socket
  unfolding step_in
  step e s = step_in s.phase e s

  unfoldable pub run : List Event → Socket → List Action × Socket
  unfolding step
  run [] s = ([], s)
  run (e ∷ events) s =
      let (now, s') = step e s in let (later, s'') = run events s' in (now ++ later, s'')

-- The task up to its first wait.
unfoldable pub spawn_connection_task : Str → List Action × Socket
spawn_connection_task ws_url =
    (dial ws_url ∷ [], record { delay = initial_reconnect_delay; phase = connecting })
