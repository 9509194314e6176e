-- ===== src/Broadcast.antt =====
-- `run_broadcast_loop` of app.rs: what a cycle publishes, how long it sleeps, and what becomes of the
-- table of keys.
pub mod Cycles
pub mod Examples
use place_home.Prelude.{
  ℕ, zero, suc, ◌+◌, ◌-◌, ◌*◌, ◌%◌, Bool, true, false, Option, none, some, List, [], ◌∷◌, ◌++◌,
  Result, ok, err, if◌then◌else◌,
}
use place_home.Prelude.Text.{Str, str}
use place_home.BroadcastKeys.{
  BroadcastKey, BroadcastKeyManagement, get_or_rotate_key, sweep_expired,
}
use place_home.BroadcastKeys
use place_home.BroadcastKeys.Rows.{Table}
use place_home.BroadcastKeys.Token.{Hmac, ota_fields}
use place_home.Beacons.Registry.{second}
use place_home.Beacons.Types.{Json, Fields, string, object, QoS, at_least_once}

pub record BroadcastState : Type 0 where
  pub server_url : Str
  pub use_jitter : Bool
  pub broadcast_interval : ℕ
  pub key_management : BroadcastKeyManagement

-- What a cycle meets: the two calls on the keys, the clock of the token, the topics as they are
-- read, the random number before each topic, and the nanoseconds that have passed at the end.
pub record Cycle : Type 0 where
  pub get : BroadcastKeys.Outside
  pub sweep : BroadcastKeys.Outside
  pub token_now : ℕ
  pub topics : List Str
  pub random : List ℕ
  pub elapsed : ℕ

-- What a cycle does. A publish that fails is only logged.
pub data Action : Type 0 where
  publish : (topic : Str) → QoS → (payload : Json) → Action
  sleep : (nanoseconds : ℕ) → Action

-- An object of `json!` has its keys in their order.
unfoldable pub payload : Hmac → BroadcastState → ℕ → BroadcastKey → Json
payload h st now key =
    let (kid, tok) = ota_fields h st.key_management now key in
    object (
      Fields.field (str "kid") (string kid) (
        Fields.field (str "tok") (string tok)
          (Fields.field (str "url") (string st.server_url) Fields.end)))

-- `rand::random::<u64>() % 10 + 1`
abbrev pub jitter_secs : List ℕ → ℕ
jitter_secs [] = 1
jitter_secs (r ∷ _) = r % 10 + 1

abbrev tail : List ℕ → List ℕ
tail [] = []
tail (r ∷ rs) = rs

pub publish_all : Bool → Json → List ℕ → List Str → List Action
publish_all use_jitter p rs [] = []
publish_all true p rs (t ∷ topics) =
    sleep (jitter_secs rs * second)
    ∷ publish t at_least_once p
    ∷ publish_all true p (tail rs) topics
publish_all false p rs (t ∷ topics) =
    publish t at_least_once p ∷ publish_all false p (tail rs) topics

pub sleep_some : ℕ → List Action
sleep_some zero = []
sleep_some (suc n) = sleep (suc n) ∷ []

-- `base_interval.saturating_sub(elapsed)`, with jitter only.
pub sleep_rest : Bool → ℕ → ℕ → List Action
unfolding sleep_some
sleep_rest false interval elapsed = []
sleep_rest true interval elapsed = sleep_some (interval * second - elapsed)

pub cycle_with :
    Hmac → BroadcastState → Cycle → Result Str BroadcastKey × Table → List Action × Table
cycle_with h st c (err e, rows) = ([], rows)
cycle_with h st c (ok key, rows) = (
  publish_all st.use_jitter (payload h st c.token_now key) c.random c.topics
      ++ sleep_rest st.use_jitter st.broadcast_interval c.elapsed,
  (sweep_expired c.sweep rows).1,
)

-- One round of the loop, after its tick.
unfoldable pub cycle : Hmac → BroadcastState → Cycle → Table → List Action × Table
unfolding publish_all sleep_rest cycle_with
cycle h st c rows = cycle_with h st c (get_or_rotate_key st.key_management c.get rows)

-- The table after some rounds.
unfoldable pub run : Hmac → BroadcastState → List Cycle → Table → Table
run h st [] rows = rows
run h st (c ∷ cycles) rows = run h st cycles (cycle h st c rows).1
