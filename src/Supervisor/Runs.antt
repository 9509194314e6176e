-- ===== src/Supervisor/Runs.antt =====
-- supervisor.rs: restarts, and whole runs of the command loop.
use place_home.Prelude.{◌≡◌, refl, Option, none, some, ◌≢◌, List, [], ◌∷◌, ◌∙◌, All, ap}
use place_home.Prelude.Map.{lookup}
use place_home.ServiceId.{ServiceId, service_id_eq}
use place_home.Supervisor.{
  ServiceStatus, unavailable, running, ManagedService, Supervisor, SupervisorCommand, start, stop,
  restart, status, handle_stop, handle_restart, execute, run,
}
use place_home.Supervisor.View.{Managed, view, spec_start, spec_stop, spec_restart}
use place_home.Supervisor.Spec.{IsConsistent, is_some, handle_start-refines, handle_stop-refines}
use place_home.Supervisor.Invariant.{
  execute-IsConsistent, handle_start-frame, handle_stop-frame, handle_restart-frame,
  handle_stop-IsConsistent,
}

optional_id : Discrete (Option ServiceId)
optional_id = hlevel

-- The service that a command names.
abbrev pub target : SupervisorCommand → Option ServiceId
target (start id) = some id
target (stop id) = some id
target (restart id) = some id
target status = none

dec_target : (cmd : SupervisorCommand) (id : ServiceId) → Dec (target cmd ≡ some id)
dec_target cmd id = optional_id (target cmd) (some id)

module _ {E S : Type 0} ⦃m : ManagedService E S⦄ where
  restart_by :
      (before after : E) (id : ServiceId) (sup : Supervisor S) (st : Option ServiceStatus)
      (sv : Option S)
      → lookup id sup.statuses ≡ st
      → lookup id sup.services ≡ sv
      → is_some st ≡ is_some sv
      → IsConsistent sup
      → ((handle_restart before after id sup).0 ≡ (spec_restart before after id (view sup id)).0)
        × (view (handle_restart before after id sup).1 id
            ≡ (spec_restart before after id (view sup id)).1)
  unfolding handle_restart
  restart_by before after id sup (some (running pid)) (some svc) p q e h =
      let sup' = (handle_stop before id sup).1 in
      let r = handle_start-refines after id sup' (handle_stop-IsConsistent before id sup h) in
      let s = simp (p, q) at ((handle_stop-refines before id sup h).1) in
      simp (p, q)
        (r.0 ∙ ap (λ v. (spec_start after id v).0) s, r.1 ∙ ap (λ v. (spec_start after id v).1) s)
  restart_by before after id sup none sv p q e h =
      simp (p, q) (simp (p, q) at (handle_start-refines after id sup h))
  restart_by before after id sup (some st) none p q e h = cc
  restart_by before after id sup (some st) (some svc) p q e h =
      simp (p, q) (simp (p, q) at (handle_start-refines after id sup h))

  -- `handle_restart` gives the reply, and leaves the service in the state, that the abstract
  -- machine of one service says, from every consistent supervisor: a running service is stopped
  -- first, and a failure of that stop is not reported.
  pub handle_restart-refines :
      (before after : E) (id : ServiceId) (sup : Supervisor S)
      → IsConsistent sup
      → ((handle_restart before after id sup).0 ≡ (spec_restart before after id (view sup id)).0)
        × (view (handle_restart before after id sup).1 id
            ≡ (spec_restart before after id (view sup id)).1)
  handle_restart-refines before after id sup h =
      restart_by before after id sup (lookup id sup.statuses) (lookup id sup.services) refl refl
        (h.paired id) h

  -- A consistent supervisor stays consistent through any sequence of commands, whatever the
  -- services answer: in particular no service is ever left in `Starting`.
  pub run-IsConsistent :
      (cmds : List (E × E × SupervisorCommand)) (sup : Supervisor S)
      → IsConsistent sup
      → IsConsistent (run cmds sup)
  unfolding run
  run-IsConsistent [] sup h = h
  run-IsConsistent ((before, after, cmd) ∷ cmds) sup h =
      run-IsConsistent cmds (execute before after cmd sup).1
        (execute-IsConsistent before after cmd sup h)

  execute-frame :
      (before after : E) (cmd : SupervisorCommand) (id : ServiceId) (sup : Supervisor S)
      → target cmd ≢ some id
      → view (execute before after cmd sup).1 id ≡ view sup id
  unfolding execute
  execute-frame before after (start k) id sup n =
      handle_start-frame after k id sup (λ p. n (ap some p))
  execute-frame before after (stop k) id sup n =
      handle_stop-frame before k id sup (λ p. n (ap some p))
  execute-frame before after (restart k) id sup n =
      handle_restart-frame before after k id sup (λ p. n (ap some p))
  execute-frame before after status id sup n = refl

  -- Commands that name other services leave a service's status and state as they were.
  pub run-frame :
      (cmds : List (E × E × SupervisorCommand)) (id : ServiceId) (sup : Supervisor S)
      → All (λ c. target c.2 ≢ some id) cmds
      → view (run cmds sup) id ≡ view sup id
  unfolding run
  run-frame [] id sup h = refl
  run-frame ((before, after, cmd) ∷ cmds) id sup (n, h) =
      run-frame cmds id (execute before after cmd sup).1 h ∙ execute-frame before after cmd id sup n

  same_target :
      (before after : E) (cmd : SupervisorCommand) (id : ServiceId) (sup : Supervisor S) (svc : S)
      → target cmd ≡ some id
      → IsConsistent sup
      → view sup id ≡ some (unavailable, svc)
      → view (execute before after cmd sup).1 id ≡ some (unavailable, svc)
  unfolding execute
  same_target before after (start k) id sup svc e h u =
      let p : k ≡ id = cc in
      rw p (
        (handle_start-refines after id sup h).1
        ∙ ap (λ (v : Managed S). (spec_start after id v).1) u)
  same_target before after (stop k) id sup svc e h u =
      let p : k ≡ id = cc in
      rw p (
        (handle_stop-refines before id sup h).1
        ∙ ap (λ (v : Managed S). (spec_stop before id v).1) u)
  same_target before after (restart k) id sup svc e h u =
      let p : k ≡ id = cc in
      rw p (
        (handle_restart-refines before after id sup h).1
        ∙ ap (λ (v : Managed S). (spec_restart before after id v).1) u)
  same_target before after status id sup svc e h u = u

  -- A service registered with a consistent supervisor as not installed stays so, and is neither
  -- started nor stopped, whatever commands are run.
  pub run-unavailable :
      (cmds : List (E × E × SupervisorCommand)) (id : ServiceId) (sup : Supervisor S) (svc : S)
      → IsConsistent sup
      → view sup id ≡ some (unavailable, svc)
      → view (run cmds sup) id ≡ some (unavailable, svc)
  unfolding run
  run-unavailable [] id sup svc h u = u
  run-unavailable ((before, after, cmd) ∷ cmds) id sup svc h u =
      run-unavailable cmds id (execute before after cmd sup).1 svc
        (execute-IsConsistent before after cmd sup h)
        (elim (dec_target cmd id) [
          | yes e ↦ same_target before after cmd id sup svc e h u
          | no n ↦ execute-frame before after cmd id sup n ∙ u
        ])
