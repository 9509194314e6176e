-- ===== src/Mqtt/Client.antt =====
-- `MqttClientHandle` of services/mqtt_client/mqtt_client_service.rs, the command task and the event
-- loop of services/mqtt_client/tasks.rs, and `required_subscriptions` of its manager.rs.
pub mod Orders
pub mod Connected
use place_home.Prelude.{
  ℕ, ◌+◌, Bool, true, false, Option, none, some, List, [], ◌∷◌, ◌++◌, Result, ok, err, map_err,
  if◌then◌else◌, Exec, ◌>>>=◌, lift,
}
use place_home.Prelude.Text.{Str, str}
use place_home.Beacons.Types.{QoS, at_least_once}

pub record TopicSubscription : Type 0 where
  pub topic : Str
  pub qos : QoS

pub record MqttMessage : Type 0 where
  pub topic : Str
  pub payload : List ℕ

-- A command without its reply sender.
pub data MqttCommand : Type 0 where
  subscribe : (topic : Str) → QoS → MqttCommand
  unsubscribe : (topic : Str) → MqttCommand
  publish : (topic : Str) → QoS → (payload : List ℕ) → MqttCommand

abbrev failure : MqttCommand → Str
failure (subscribe topic qos) = str "subscribe failed: "
failure (unsubscribe topic) = str "unsubscribe failed: "
failure (publish topic qos payload) = str "publish failed: "

-- The state of the command task: whether it still runs, and what it has asked of the client, the
-- first first.
pub record CommandTask : Type 0 where
  pub is_running : Bool
  pub asked : List MqttCommand

-- A round of the task: the command, with the client's answer to it, and the reply.
unfoldable pub execute : Result Str Unit → MqttCommand → CommandTask → Result Str Unit × CommandTask
execute answer cmd t =
    (map_err (λ e. failure cmd ++ e) answer, record t { asked = t.asked ++ cmd ∷ [] })

-- `shutdown_rx` fires, or the command channel is closed.
unfoldable pub shut_down : CommandTask → CommandTask
shut_down t = record t { is_running = false }

-- What happens to a command between the handle and the reply: the task takes it up and the client
-- answers, or the task ends before that.
pub data Fate : Type 0 where
  answered : Result Str Unit → Fate
  dropped : Fate

-- `MqttClientHandle::subscribe`, `unsubscribe` and `publish`: send the command, await the reply.
unfoldable pub call : Fate → MqttCommand → Exec CommandTask Str Unit
unfolding execute shut_down
call fate cmd t =
    if t.is_running
    then elim fate [
      | answered answer ↦ execute answer cmd t
      | dropped ↦ (err (str "mqtt client dropped reply"), shut_down t)
    ]
    else (err (str "mqtt client channel closed"), t)

-- Each subscription with its fate.
unfoldable pub subscribe_all : List (TopicSubscription × Fate) → Exec CommandTask Str Unit
unfolding call
subscribe_all [] t = (ok tt, t)
subscribe_all ((sub, fate) ∷ subs) t =
    (call fate (subscribe sub.topic sub.qos) >>>= λ _. subscribe_all subs) t

unfoldable pub required_subscriptions : List TopicSubscription
required_subscriptions =
    record { topic = str "registration"; qos = at_least_once }
    ∷ record { topic = str "key-bridge"; qos = at_least_once }
    ∷ []

-- What `eventloop.poll()` yields.
pub data Poll : Type 0 where
  -- a message, with the answer of `msg_tx.send`
  published : (handed : Result Str Unit) → MqttMessage → Poll
  conn_ack : Poll
  disconnected : Poll
  other : Poll
  poll_error : Poll

pub data LoopEvent : Type 0 where
  shutdown : LoopEvent
  outbound : MqttMessage → LoopEvent
  polled : Poll → LoopEvent

-- The event loop: whether it runs, whether it still holds `connected_tx`, what it has published and
-- handed to the receiver of inbound messages, the last first, how often it has signalled that it is
-- connected, and the seconds that it has slept.
pub record EventLoop : Type 0 where
  pub is_running : Bool
  pub connected_tx : Bool
  pub signals : ℕ
  pub published_out : List MqttMessage
  pub delivered : List MqttMessage
  pub slept : ℕ

-- `connected_tx.take()`, and the signal.
signal_connected : Bool → EventLoop → EventLoop
signal_connected false s = s
signal_connected true s = record s { connected_tx = false; signals = s.signals + 1 }

on_poll : Poll → EventLoop → EventLoop
unfolding signal_connected
on_poll (published (ok _) msg) s = record s { delivered = msg ∷ s.delivered }
on_poll (published (err e) msg) s = s
on_poll conn_ack s = signal_connected s.connected_tx s
on_poll disconnected s = s
on_poll other s = s
on_poll poll_error s = record s { slept = s.slept + 5 }

loop_step_in : Bool → LoopEvent → EventLoop → EventLoop
unfolding on_poll
loop_step_in false e s = s
loop_step_in true shutdown s = record s { is_running = false }
loop_step_in true (outbound msg) s = record s { published_out = msg ∷ s.published_out }
loop_step_in true (polled p) s = on_poll p s

unfoldable pub loop_step : LoopEvent → EventLoop → EventLoop
unfolding loop_step_in
loop_step e s = loop_step_in s.is_running e s

unfoldable pub loop_run : List LoopEvent → EventLoop → EventLoop
unfolding loop_step
loop_run [] s = s
loop_run (e ∷ events) s = loop_run events (loop_step e s)

-- The loop as `spawn_eventloop_task` starts it, with the sender that signals the connection.
abbrev pub spawned_loop : EventLoop
spawned_loop = record {
  is_running = true;
  connected_tx = true;
  signals = 0;
  published_out = [];
  delivered = [];
  slept = 0;
}
