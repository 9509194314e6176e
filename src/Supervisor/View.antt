-- ===== src/Supervisor/View.antt =====
-- supervisor.rs, seen through one service: the abstract state that the supervisor keeps for it, and
-- what each handler promises about that state.
use place_home.Prelude.{ℕ, Option, none, some, Result, ok, err, ◌++◌}
use place_home.Prelude.Text.{Str, str}
use place_home.Prelude.Map.{lookup}
use place_home.ServiceId.{ServiceId, debug, service_id_eq}
use place_home.Supervisor.{
  ServiceStatus, unavailable, stopped, starting, running, failed, ManagedService, Supervisor,
}

-- A registered service: its status and its own state.
abbrev pub Managed : Type 0 → Type 0
Managed S = Option (ServiceStatus × S)

abbrev pub both {ℓ κ} : {A : Type ℓ} {B : Type κ} → Option A → Option B → Option (A × B)
both (some a) (some b) = some (a, b)
both _ _ = none

abbrev pub view : {S : Type 0} → Supervisor S → ServiceId → Managed S
view sup id = both (lookup id sup.statuses) (lookup id sup.services)

module _ {S : Type 0} where
  abbrev pub launched : Result Str ℕ × S → Result Str Unit × Managed S
  launched (ok pid, svc) = (ok tt, some (running pid, svc))
  launched (err e, svc) = (err e, some (failed e, svc))

  abbrev pub halted : ServiceStatus → Result Str Unit × S → Result Str Unit × Managed S
  halted s (ok _, svc) = (ok tt, some (stopped, svc))
  halted s (err e, svc) = (err e, some (s, svc))

module _ {E S : Type 0} ⦃m : ManagedService E S⦄ where
  -- Starting is refused unless the service is stopped or failed.
  abbrev pub spec_start : E → ServiceId → Managed S → Result Str Unit × Managed S
  spec_start e id none = (err (debug id ++ str " is not registered"), none)
  spec_start e id (some (unavailable, svc)) =
      (err (debug id ++ str " is not installed on this system"), some (unavailable, svc))
  spec_start e id (some (running pid, svc)) =
      (err (debug id ++ str " is already running"), some (running pid, svc))
  spec_start e id (some (starting, svc)) =
      (err (debug id ++ str " is already starting"), some (starting, svc))
  spec_start e id (some (stopped, svc)) = launched (m.start e svc)
  spec_start e id (some (failed r, svc)) = launched (m.start e svc)

  -- Stopping is refused if the service is stopped, unavailable or unknown; a failure to stop
  -- leaves the status.
  abbrev pub spec_stop : E → ServiceId → Managed S → Result Str Unit × Managed S
  spec_stop e id none = (err (debug id ++ str " not registered"), none)
  spec_stop e id (some (stopped, svc)) =
      (err (debug id ++ str " is already stopped"), some (stopped, svc))
  spec_stop e id (some (unavailable, svc)) =
      (err (debug id ++ str " is not available"), some (unavailable, svc))
  spec_stop e id (some (s, svc)) = halted s (m.stop e svc)

  -- Restarting stops a running service first, and starts whatever is then there.
  abbrev pub spec_restart : E → E → ServiceId → Managed S → Result Str Unit × Managed S
  spec_restart before after id (some (running pid, svc)) =
      spec_start after id (spec_stop before id (some (running pid, svc))).1
  spec_restart before after id v = spec_start after id v
