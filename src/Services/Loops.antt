-- ===== src/Services/Loops.antt =====
-- services/*/: the tasks that a service has spawned, and those that it can end.
use place_home.Prelude.{Bool, ◌≡◌, refl, Option, none, some, List, [], ◌∷◌, arith, ◌⊎◌, inl}
use place_home.Prelude.Text.{Str}
use place_home.Services.Types.{Answers, Channel, Tasks, signal}
use place_home.Services.Gateway
use place_home.Services.Gateway.{GatewayService}
use place_home.Services.MqttClient
use place_home.Services.MqttClient.{MqttClientService}

-- A call through the trait, with the answers that it meets.
pub data Call : Type 0 where
  start stop is_running : Answers → Call

abbrev pub gateway_call : Call → GatewayService → GatewayService
gateway_call (start e) s = (Gateway.start e s).1
gateway_call (stop e) s = (Gateway.stop e s).1
gateway_call (is_running e) s = (Gateway.is_running e s).1

abbrev pub mqtt_client_call : Call → MqttClientService → MqttClientService
mqtt_client_call (start e) s = (MqttClient.start e s).1
mqtt_client_call (stop e) s = (MqttClient.stop e s).1
mqtt_client_call (is_running e) s = (MqttClient.is_running e s).1

abbrev pub after {ℓ} : {S : Type ℓ} → (Call → S → S) → List Call → S → S
after call [] s = s
after call (c ∷ cs) s = after call cs (call c s)

-- The accept loop that a stored sender ends.
abbrev loop_of : Option Channel → Tasks
loop_of none = []
loop_of (some c) = c ∷ []

-- No accept loop runs, or one does and its sender is the one that is stored.
abbrev GatewayOwns : GatewayService → Type 0
GatewayOwns s = (s.tasks ≡ []) ⊎ (s.tasks ≡ loop_of s.shutdown_tx)

gateway_call-Owns : (c : Call) (s : GatewayService) → GatewayOwns s → GatewayOwns (gateway_call c s)
unfolding Gateway.start Gateway.stop Gateway.is_running signal
gateway_call-Owns (start e) s h = ground arith
gateway_call-Owns (stop e) s h = ground arith
gateway_call-Owns (is_running e) s h = h

after-GatewayOwns :
    (cs : List Call) (s : GatewayService) → GatewayOwns s → GatewayOwns (after gateway_call cs s)
after-GatewayOwns [] s h = h
after-GatewayOwns (c ∷ cs) s h = after-GatewayOwns cs (gateway_call c s) (gateway_call-Owns c s h)

gateway_stop-Owns :
    (e : Answers) (s : GatewayService) → GatewayOwns s → (Gateway.stop e s).1.tasks ≡ []
unfolding Gateway.stop signal
gateway_stop-Owns e s h = ground arith

-- After any calls on a new HTTP gateway, failed starts included, at most one accept loop runs, and
-- a stop ends it.
pub gateway_stop-ends :
    (addr : Str) (tls : Bool) (cs : List Call) (e : Answers)
    → let s = after gateway_call cs (Gateway.new addr tls) in
      ((s.tasks ≡ []) ⊎ (s.tasks ≡ loop_of s.shutdown_tx)) × ((Gateway.stop e s).1.tasks ≡ [])
unfolding Gateway.new
gateway_stop-ends addr tls cs e =
    let owns = after-GatewayOwns cs (Gateway.new addr tls) (inl refl) in
    (owns, gateway_stop-Owns e (after gateway_call cs (Gateway.new addr tls)) owns)

-- The event loop and the command task that two stored senders end.
abbrev pair_of : Option Channel → Option Channel → Tasks
pair_of (some c) (some d) = d ∷ c ∷ []
pair_of _ _ = []

-- The tasks of the MQTT client are the two that the stored senders end.
abbrev MqttOwns : MqttClientService → Type 0
MqttOwns s = s.tasks ≡ pair_of s.shutdown_tx s.cmd_shutdown_tx

mqtt_client_call-Owns :
    (c : Call) (s : MqttClientService) → MqttOwns s → MqttOwns (mqtt_client_call c s)
unfolding MqttClient.start MqttClient.stop MqttClient.is_running signal
mqtt_client_call-Owns (start e) s h = ground arith
mqtt_client_call-Owns (stop e) s h = ground arith
mqtt_client_call-Owns (is_running e) s h = h

after-MqttOwns :
    (cs : List Call) (s : MqttClientService) → MqttOwns s → MqttOwns (after mqtt_client_call cs s)
after-MqttOwns [] s h = h
after-MqttOwns (c ∷ cs) s h = after-MqttOwns cs (mqtt_client_call c s) (mqtt_client_call-Owns c s h)

mqtt_client_stop-Owns :
    (e : Answers) (s : MqttClientService) → MqttOwns s → (MqttClient.stop e s).1.tasks ≡ []
unfolding MqttClient.stop signal
mqtt_client_stop-Owns e s h = ground arith

-- After any calls on a new MQTT client, failed starts included, its event loop and its command task
-- run together or not at all, and a stop ends both.
pub mqtt_client_stop-ends :
    (cmd msg out connected : Channel) (cs : List Call) (e : Answers)
    → let s = after mqtt_client_call cs (MqttClient.new cmd msg out connected) in
      (s.tasks ≡ pair_of s.shutdown_tx s.cmd_shutdown_tx) × ((MqttClient.stop e s).1.tasks ≡ [])
unfolding MqttClient.new
mqtt_client_stop-ends cmd msg out connected cs e =
    let s = MqttClient.new cmd msg out connected in
    let owns = after-MqttOwns cs s refl in
    (owns, mqtt_client_stop-Owns e (after mqtt_client_call cs s) owns)
