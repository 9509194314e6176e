-- ===== src/Services/Mosquitto.antt =====
-- services/mqtt_brokerage/mosquitto_brokerage_service.rs: the broker's child process as a managed
-- service.
use place_home.Prelude.{
  ℕ, Bool, true, false, Option, none, some, List, [], ◌∷◌, ◌++◌, Result, ok, err, not,
  if◌then◌else◌,
}
use place_home.Prelude.Text.{Str, str}
use place_home.Services.Types.{
  Answers, Wait, exited, wait_error, timed_out, TryWait, finished, still_running, try_error,
}

-- What is done to a child process.
pub data Signal : Type 0 where
  -- `libc::kill(pid, SIGTERM)`
  terminate : (pid : ℕ) → Signal
  -- `child.kill()`
  kill : Signal
  -- the drop of a `Child` made with `kill_on_drop(true)`
  kill_on_drop : Signal

pub record MosquittoBrokerageService : Type 0 where
  pub config_file : Str
  -- the `Child`, by its process number
  pub child : Option ℕ
  -- what was done to child processes, the last first
  pub signals : List Signal

unfoldable pub new : Str → MosquittoBrokerageService
new config_file = record { config_file = config_file; child = none; signals = [] }

abbrev is_some : Option ℕ → Bool
is_some none = false
is_some (some _) = true

abbrev Started : Type 0
Started = Result Str ℕ × MosquittoBrokerageService

after_spawn : Result Str (Option ℕ) → MosquittoBrokerageService → Started
after_spawn (err m) s = (err (str "Failed to spawn mosquitto: " ++ m), s)
after_spawn (ok none) s =
    (err (str "Failed to get mosquitto PID"), record s { signals = kill_on_drop ∷ s.signals })
after_spawn (ok (some pid)) s = (ok pid, record s { child = some pid })

unfoldable pub start : Answers → MosquittoBrokerageService → Started
unfolding after_spawn
start e s =
    if is_some s.child
    then (err (str "Mosquitto is already running"), s)
    else if not e.config_exists
    then (
      err (
          str "Config file not found at " ++ (s.config_file ++ str ". Call write_config() first.")),
      s,
    )
    else after_spawn e.spawned s

-- The match on the wait; a child that has not been waited for is killed as it is dropped.
after_wait : Wait → List Signal → List Signal
after_wait exited signals = signals
after_wait wait_error signals = kill_on_drop ∷ signals
after_wait timed_out signals = kill ∷ signals

stop_by :
    Answers → Option ℕ → MosquittoBrokerageService → Result Str Unit × MosquittoBrokerageService
stop_by e none s = (err (str "Mosquitto is not running"), s)
stop_by e (some pid) s =
    (ok tt, record s { child = none; signals = after_wait e.wait (terminate pid ∷ s.signals) })

unfoldable pub stop :
    Answers → MosquittoBrokerageService → Result Str Unit × MosquittoBrokerageService
unfolding stop_by after_wait
stop e s = stop_by e s.child s

is_running_by : TryWait → Option ℕ → MosquittoBrokerageService → Bool × MosquittoBrokerageService
is_running_by answer none s = (false, s)
is_running_by finished (some pid) s = (false, record s { child = none })
is_running_by still_running (some pid) s = (true, s)
is_running_by try_error (some pid) s = (false, s)

unfoldable pub is_running : Answers → MosquittoBrokerageService → Bool × MosquittoBrokerageService
unfolding is_running_by
is_running e s = is_running_by e.try_wait s.child s
