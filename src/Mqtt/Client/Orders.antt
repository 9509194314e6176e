-- ===== src/Mqtt/Client/Orders.antt =====
-- services/mqtt_client: what a sequence of subscriptions has asked of the broker.
use place_home.Prelude.{◌≡◌, refl, ap, ◌∙◌, true, List, [], ◌∷◌, ◌++◌, Result, ok, err}
use place_home.Prelude.Text.{Str, str}
use place_home.Mqtt.Client.{
  TopicSubscription, MqttCommand, subscribe, execute, shut_down, Fate, answered, dropped, call,
  subscribe_all,
}

-- The commands of the first subscriptions, up to the first that fails, that one included.
abbrev pub reached : List (TopicSubscription × Fate) → List MqttCommand
reached [] = []
reached ((sub, answered (ok _)) ∷ subs) = subscribe sub.topic sub.qos ∷ reached subs
reached ((sub, answered (err e)) ∷ subs) = subscribe sub.topic sub.qos ∷ []
reached ((sub, dropped) ∷ subs) = []

-- The first failure.
abbrev pub outcome : List (TopicSubscription × Fate) → Result Str Unit
outcome [] = ok tt
outcome ((sub, answered (ok _)) ∷ subs) = outcome subs
outcome ((sub, answered (err e)) ∷ subs) = err (str "subscribe failed: " ++ e)
outcome ((sub, dropped) ∷ subs) = err (str "mqtt client dropped reply")

append_assoc : {A : Type 0} (xs ys zs : List A) → (xs ++ ys) ++ zs ≡ xs ++ (ys ++ zs)
append_assoc [] ys zs = refl
append_assoc (x ∷ xs) ys zs = ap (λ t. x ∷ t) (append_assoc xs ys zs)

append_nil : {A : Type 0} (xs : List A) → xs ≡ xs ++ []
append_nil [] = refl
append_nil (x ∷ xs) = ap (λ t. x ∷ t) (append_nil xs)

-- While the command task runs, `subscribe_all` asks the broker for the topics in order, once each,
-- and ends at the first failure, which it returns; none is asked for after that.
pub subscribe_all-reached :
    (subs : List (TopicSubscription × Fate)) (asked : List MqttCommand)
    → let r = subscribe_all subs (record { is_running = true; asked = asked }) in
      (r.0 ≡ outcome subs) × (r.1.asked ≡ asked ++ reached subs)
unfolding subscribe_all call execute shut_down
subscribe_all-reached [] asked = (refl, append_nil asked)
subscribe_all-reached ((sub, answered (err e)) ∷ subs) asked = (refl, refl)
subscribe_all-reached ((sub, dropped) ∷ subs) asked = (refl, append_nil asked)
subscribe_all-reached ((sub, answered (ok x)) ∷ subs) asked =
    let first = subscribe sub.topic sub.qos ∷ [] in
    let r = subscribe_all-reached subs (asked ++ first) in
    (r.0, r.1 ∙ append_assoc asked first (reached subs))
