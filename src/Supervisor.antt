-- ===== src/Supervisor.antt =====
-- supervisor.rs: the supervisor owns the managed services and runs commands one after the other.
-- A service is reached through the trait `ManagedService`; what the operating system and the
-- network answer during a call is the call's argument of type `E`.
pub mod View
pub mod Spec
pub mod Invariant
pub mod Runs
pub mod Machine
pub mod Handles
use place_home.Prelude.{
  ℕ, Bool, true, false, Option, none, some, List, [], ◌∷◌, ◌++◌, Result, ok, err, if◌then◌else◌,
}
use place_home.Prelude.Text.{Str, str}
use place_home.Prelude.Map.{lookup, insert}
use place_home.ServiceId.{ServiceId, debug, service_id_eq}

pub data ServiceStatus : Type 0 where
  unavailable stopped starting : ServiceStatus
  running : (pid : ℕ) → ServiceStatus
  failed : (reason : Str) → ServiceStatus

-- The trait of a managed child process.
pub record ManagedService (E S : Type 0) : Type 0 where
  pub start : E → S → Result Str ℕ × S
  pub stop : E → S → Result Str Unit × S
  pub is_running : E → S → Bool × S

pub record Supervisor (S : Type 0) : Type 0 where
  pub services : List (ServiceId × S)
  pub statuses : List (ServiceId × ServiceStatus)
  pub channel_buffer : ℕ

pub data SupervisorCommand : Type 0 where
  start stop restart : ServiceId → SupervisorCommand
  status : SupervisorCommand

-- What the `reply` sender of a command delivers.
pub data Reply : Type 0 where
  done : Result Str Unit → Reply
  statuses : List (ServiceId × ServiceStatus) → Reply

module _ {S : Type 0} where
  unfoldable pub new : Supervisor S
  new = record { services = []; statuses = []; channel_buffer = 32 }

  unfoldable pub register : ServiceId → S → Bool → Supervisor S → Supervisor S
  register id service available sup = record sup {
    statuses = insert id (if available then stopped else unavailable) sup.statuses;
    services = insert id service sup.services;
  }

  set_status : ServiceId → ServiceStatus → Supervisor S → Supervisor S
  set_status id s sup = record sup { statuses = insert id s sup.statuses }

  -- `get_mut` hands out a place: the service is written back after its call.
  set_service : ServiceId → S → Supervisor S → Supervisor S
  set_service id svc sup = record sup { services = insert id svc sup.services }

abbrev Handled : Type 0 → Type 0
Handled S = Result Str Unit × Supervisor S

module _ {S : Type 0} where
  -- The match on `svc.start().await`.
  after_start : ServiceId → Result Str ℕ × S → Supervisor S → Handled S
  after_start id (ok pid, svc) sup = (ok tt, set_status id (running pid) (set_service id svc sup))
  after_start id (err e, svc) sup = (err e, set_status id (failed e) (set_service id svc sup))

  -- The match on `svc.stop().await`.
  after_stop : ServiceId → Result Str Unit × S → Supervisor S → Handled S
  after_stop id (ok _, svc) sup = (ok tt, set_status id stopped (set_service id svc sup))
  after_stop id (err e, svc) sup = (err e, set_service id svc sup)

  abbrev reply_with : Handled S → Reply × Supervisor S
  reply_with (r, sup) = (done r, sup)

-- The first match of `handle_start`: the early returns.
start_guard : ServiceId → Option ServiceStatus → Result Str Unit
start_guard id (some unavailable) = err (debug id ++ str " is not installed on this system")
start_guard id (some (running pid)) = err (debug id ++ str " is already running")
start_guard id (some starting) = err (debug id ++ str " is already starting")
start_guard id none = err (debug id ++ str " is not registered")
start_guard id _ = ok tt

-- The first match of `handle_stop`.
stop_guard : ServiceId → Option ServiceStatus → Result Str Unit
stop_guard id (some stopped) = err (debug id ++ str " is already stopped")
stop_guard id (some unavailable) = err (debug id ++ str " is not available")
stop_guard id _ = ok tt

abbrev is_running_status : Option ServiceStatus → Bool
is_running_status (some (running pid)) = true
is_running_status _ = false

module _ {E S : Type 0} ⦃m : ManagedService E S⦄ where
  start_service : E → ServiceId → Option S → Supervisor S → Handled S
  start_service e id none sup = (err (debug id ++ str " not registered"), sup)
  start_service e id (some svc) sup = after_start id (m.start e svc) sup

  start_after_guard : E → ServiceId → Result Str Unit → Supervisor S → Handled S
  start_after_guard e id (err msg) sup = (err msg, sup)
  start_after_guard e id (ok _) sup =
      start_service e id (lookup id sup.services) (set_status id starting sup)

  unfoldable pub handle_start : E → ServiceId → Supervisor S → Handled S
  unfolding start_guard start_after_guard start_service after_start set_status set_service
  handle_start e id sup = start_after_guard e id (start_guard id (lookup id sup.statuses)) sup

  stop_service : E → ServiceId → Option S → Supervisor S → Handled S
  stop_service e id none sup = (err (debug id ++ str " not registered"), sup)
  stop_service e id (some svc) sup = after_stop id (m.stop e svc) sup

  stop_after_guard : E → ServiceId → Result Str Unit → Supervisor S → Handled S
  stop_after_guard e id (err msg) sup = (err msg, sup)
  stop_after_guard e id (ok _) sup = stop_service e id (lookup id sup.services) sup

  unfoldable pub handle_stop : E → ServiceId → Supervisor S → Handled S
  unfolding stop_guard stop_after_guard stop_service after_stop set_status set_service
  handle_stop e id sup = stop_after_guard e id (stop_guard id (lookup id sup.statuses)) sup

  -- `before` answers the stop, `after` the start.
  unfoldable pub handle_restart : E → E → ServiceId → Supervisor S → Handled S
  handle_restart before after id sup =
      if is_running_status (lookup id sup.statuses)
      then handle_start after id (handle_stop before id sup).1
      else handle_start after id sup

  -- One round of the loop of `spawn`.
  unfoldable pub execute : E → E → SupervisorCommand → Supervisor S → Reply × Supervisor S
  execute before after (start id) sup = reply_with (handle_start after id sup)
  execute before after (stop id) sup = reply_with (handle_stop before id sup)
  execute before after (restart id) sup = reply_with (handle_restart before after id sup)
  execute before after status sup = (statuses sup.statuses, sup)

  -- The loop of `spawn` over the commands that are received until every handle is dropped.
  unfoldable pub run : List (E × E × SupervisorCommand) → Supervisor S → Supervisor S
  run [] sup = sup
  run ((before, after, cmd) ∷ cmds) sup = run cmds (execute before after cmd sup).1

  stop_all : (ServiceId → E) → List (ServiceId × S) → List (ServiceId × S)
  stop_all answer [] = []
  stop_all answer ((id, svc) ∷ services) =
      (id, (m.stop (answer id) svc).1) ∷ stop_all answer services

  -- What the task does once the channel is closed; a failed stop is only logged.
  unfoldable pub shutdown : (ServiceId → E) → Supervisor S → Supervisor S
  unfolding stop_all
  shutdown answer sup = record sup { services = stop_all answer sup.services }
