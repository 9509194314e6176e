-- ===== src/Services/Types.antt =====
-- What the implementations of `ManagedService` share: channels, spawned tasks, and the answers of
-- the outside to one call of `start`, `stop` or `is_running`.
use place_home.Prelude.{ℕ, Bool, Option, List, ◌∷◌, Result, retain, not, eqb}
use place_home.Prelude.Text.{Str}

-- A channel goes by a number. A `oneshot::Sender`, an `mpsc::Sender` and their receivers are the
-- number of their channel.
abbrev pub Channel : Type 0
Channel = ℕ

-- How `Child::wait` under the timeout of five seconds ends, and what `Child::try_wait` says.
pub data Wait : Type 0 where
  exited wait_error timed_out : Wait

pub data TryWait : Type 0 where
  finished still_running try_error : TryWait

pub record Answers : Type 0 where
  -- the number of the next channel, and of one more
  pub channel : Channel
  pub second_channel : Channel
  -- `TcpListener::bind`, `local_addr` and `build_tls_config`
  pub bound : Result Str Unit
  pub local_addr : Result Str Unit
  pub tls_config : Result Str Unit
  -- `build_mqtt_opts`
  pub mqtt_opts : Result Str Unit
  -- `config_file.exists()`, and `cmd.spawn()` with the process number that `id()` gives
  pub config_exists : Bool
  pub spawned : Result Str (Option ℕ)
  pub wait : Wait
  pub try_wait : TryWait

-- The spawned tasks that run, each by the channel whose signal ends it.
abbrev pub Tasks : Type 0
Tasks = List Channel

-- `tokio::spawn` of a task that ends by a signal on `c`.
abbrev pub spawn : Channel → Tasks → Tasks
spawn c tasks = c ∷ tasks

-- `tx.send(())`: the task that waits on `c` ends.
unfoldable pub signal : Channel → Tasks → Tasks
unfolding retain
signal c tasks = retain (λ d. not (eqb d c)) tasks
