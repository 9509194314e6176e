-- ===== src/Supervisor/Machine.antt =====
-- supervisor.rs: the abstract machine of all services, and the commands on it.
use mathlib.Core.Path.{fun_ext}
use place_home.Prelude.{
  ◌≡◌, ◌≢◌, refl, subst, Bool-cases, inl, inr, if◌then◌else◌, ◌==◌, eq_iff, Option, none, some,
  Result, arith,
}
use place_home.Prelude.Text.{Str}
use place_home.Prelude.Map.{lookup}
use place_home.ServiceId.{ServiceId, service_id_eq}
use place_home.Supervisor.{
  ServiceStatus, ManagedService, Supervisor, SupervisorCommand, start, stop, restart, status, Reply,
  done, statuses, handle_start, handle_stop, handle_restart, execute,
}
use place_home.Supervisor.View.{Managed, both, view, spec_start, spec_stop, spec_restart}
use place_home.Supervisor.Spec.{IsConsistent, is_some, handle_start-refines, handle_stop-refines}
use place_home.Supervisor.Invariant.{handle_start-frame, handle_stop-frame, handle_restart-frame}
use place_home.Supervisor.Runs.{handle_restart-refines}

-- What is known of each service.
abbrev pub Machine : Type 0 → Type 0
Machine S = ServiceId → Managed S

-- What a reply says.
pub data Answer : Type 0 where
  result : Result Str Unit → Answer
  all : (ServiceId → Option ServiceStatus) → Answer

abbrev pub seen : Reply → Answer
seen (done r) = result r
seen (statuses m) = all (λ id. lookup id m)

abbrev status_of : {S : Type 0} → Managed S → Option ServiceStatus
status_of none = none
status_of (some (s, svc)) = some s

abbrev put : {S : Type 0} → ServiceId → Managed S → Machine S → Machine S
put id v mach j = if id == j then v else mach j

abbrev answered :
    {S : Type 0} → ServiceId → Machine S → Result Str Unit × Managed S → Answer × Machine S
answered id mach (r, v) = (result r, put id v mach)

status_by :
    {S : Type 0} (st : Option ServiceStatus) (sv : Option S)
    → is_some st ≡ is_some sv
    → st ≡ status_of (both st sv)
status_by none sv h = refl
status_by (some st) (some svc) h = refl
status_by (some st) none h = cc

module _ {S : Type 0} where
  -- A handler that changes its own service only.
  handled :
      (id : ServiceId) (r : Result Str Unit × Supervisor S) (sup : Supervisor S)
      (spec : Result Str Unit × Managed S)
      → (r.0 ≡ spec.0) × (view r.1 id ≡ spec.1)
      → ((j : ServiceId) → id ≢ j → view r.1 j ≡ view sup j)
      → (result r.0, view r.1) ≡ answered id (view sup) spec
  handled id r sup spec (p, q) frame =
      let here : (j : ServiceId) → view r.1 j ≡ put id spec.1 (view sup) j = λ j.
        elim (Bool-cases (id == j)) [
          | inl e ↦ rw e (subst (λ k. view r.1 k ≡ spec.1) ((eq_iff id j).0 e) q)
          | inr e ↦ rw e (frame j (λ same. ground (arith, e, (eq_iff id j).1 same)))
        ] in
      λ i. (result (p i), fun_ext here i)

  status-seen :
      (sup : Supervisor S) (j : ServiceId)
      → IsConsistent sup
      → lookup j sup.statuses ≡ status_of (view sup j)
  status-seen sup j h = status_by (lookup j sup.statuses) (lookup j sup.services) (h.paired j)

module _ {E S : Type 0} ⦃m : ManagedService E S⦄ where
  -- A command acts on the service that it names, and the status is that of every service.
  abbrev pub spec_execute : E → E → SupervisorCommand → Machine S → Answer × Machine S
  spec_execute before after (start id) mach = answered id mach (spec_start after id (mach id))
  spec_execute before after (stop id) mach = answered id mach (spec_stop before id (mach id))
  spec_execute before after (restart id) mach =
      answered id mach (spec_restart before after id (mach id))
  spec_execute before after status mach = (all (λ id. status_of (mach id)), mach)

  -- From a consistent supervisor every command gives the reply, and leaves every service in the
  -- state, that an abstract machine says: a command acts only on the service that it names, is
  -- refused as the state of that service demands, a restart stops a running service first and does
  -- not report a failure of that stop, and the status is that of every service.
  pub execute-refines :
      (before after : E) (cmd : SupervisorCommand) (sup : Supervisor S)
      → IsConsistent sup
      → let (r, sup') = execute before after cmd sup in
        (seen r, view sup') ≡ spec_execute before after cmd (view sup)
  unfolding execute
  execute-refines before after (start id) sup h =
      handled id (handle_start after id sup) sup _ (handle_start-refines after id sup h)
        (λ j n. handle_start-frame after id j sup n)
  execute-refines before after (stop id) sup h =
      handled id (handle_stop before id sup) sup _ (handle_stop-refines before id sup h)
        (λ j n. handle_stop-frame before id j sup n)
  execute-refines before after (restart id) sup h =
      handled id (handle_restart before after id sup) sup _
        (handle_restart-refines before after id sup h)
        (λ j n. handle_restart-frame before after id j sup n)
  execute-refines before after status sup h =
      λ i. (all (fun_ext (λ j. status-seen sup j h) i), view sup)
