-- ===== src/Supervisor/Spec.antt =====
-- supervisor.rs: the handlers against the abstract machine of one service.
use place_home.Prelude.{ℕ, refl, ok, err, ◌≡◌, Option, none, some, Result, Bool, true, false, ◌≢◌}
use place_home.Prelude.Text.{Str}
use place_home.Prelude.Map.{lookup, lookup-insert_self}
use place_home.ServiceId.{ServiceId, service_id_eq}
use place_home.Supervisor.{
  ServiceStatus, unavailable, stopped, starting, failed, ManagedService, Supervisor, set_status,
  set_service, start_guard, start_service, start_after_guard, after_start, after_stop, handle_start,
  handle_stop,
}
use place_home.Supervisor.View.{view, launched, halted, spec_start, spec_stop}

abbrev pub is_some : {A : Type 0} → Option A → Bool
is_some none = false
is_some (some _) = true

-- Between two commands every status has its service and every service its status, and no service
-- is left in `Starting`.
pub record IsConsistent {S : Type 0} (sup : Supervisor S) : Type 0 where
  pub paired :
      (id : ServiceId) → is_some (lookup id sup.statuses) ≡ is_some (lookup id sup.services)
  pub settled : (id : ServiceId) → lookup id sup.statuses ≢ some starting

module _ {S : Type 0} where
  after_start-view :
      (id : ServiceId) (r : Result Str ℕ × S) (sup : Supervisor S)
      → ((after_start id r sup).0 ≡ (launched r).0)
        × (view (after_start id r sup).1 id ≡ (launched r).1)
  unfolding after_start set_status set_service
  after_start-view id (ok pid, svc) sup = simp lookup-insert_self (refl, refl)
  after_start-view id (err e, svc) sup = simp lookup-insert_self (refl, refl)

  after_stop-view :
      (id : ServiceId) (r : Result Str Unit × S) (sup : Supervisor S) (st : ServiceStatus)
      → lookup id sup.statuses ≡ some st
      → ((after_stop id r sup).0 ≡ (halted st r).0)
        × (view (after_stop id r sup).1 id ≡ (halted st r).1)
  unfolding after_stop set_status set_service
  after_stop-view id (ok _, svc) sup st p = simp lookup-insert_self (refl, refl)
  after_stop-view id (err e, svc) sup st p = simp (p, lookup-insert_self) (refl, refl)

module _ {E S : Type 0} ⦃m : ManagedService E S⦄ where
  start_by :
      (e : E) (id : ServiceId) (sup : Supervisor S) (st : Option ServiceStatus) (sv : Option S)
      → lookup id sup.statuses ≡ st
      → lookup id sup.services ≡ sv
      → is_some st ≡ is_some sv
      → ((handle_start e id sup).0 ≡ (spec_start e id (view sup id)).0)
        × (view (handle_start e id sup).1 id ≡ (spec_start e id (view sup id)).1)
  unfolding start_guard start_after_guard start_service handle_start
  start_by e id sup none none p q h = simp (p, q) (refl, refl)
  start_by e id sup none (some svc) p q h = cc
  start_by e id sup (some st) none p q h = cc
  start_by e id sup (some stopped) (some svc) p q h =
      simp (p, q) (after_start-view id (m.start e svc) (set_status id starting sup))
  start_by e id sup (some (failed r)) (some svc) p q h =
      simp (p, q) (after_start-view id (m.start e svc) (set_status id starting sup))
  start_by e id sup (some _) (some svc) p q h = simp (p, q) (refl, refl)

  stop_by :
      (e : E) (id : ServiceId) (sup : Supervisor S) (st : Option ServiceStatus) (sv : Option S)
      → lookup id sup.statuses ≡ st
      → lookup id sup.services ≡ sv
      → is_some st ≡ is_some sv
      → ((handle_stop e id sup).0 ≡ (spec_stop e id (view sup id)).0)
        × (view (handle_stop e id sup).1 id ≡ (spec_stop e id (view sup id)).1)
  unfolding handle_stop
  stop_by e id sup none none p q h = simp (p, q) (refl, refl)
  stop_by e id sup none (some svc) p q h = cc
  stop_by e id sup (some st) none p q h = cc
  stop_by e id sup (some stopped) (some svc) p q h = simp (p, q) (refl, refl)
  stop_by e id sup (some unavailable) (some svc) p q h = simp (p, q) (refl, refl)
  stop_by e id sup (some st) (some svc) p q h =
      simp (p, q) (after_stop-view id (m.stop e svc) sup st p)

  -- `handle_start` gives the reply, and leaves the service in the state, that the abstract machine
  -- of one service says, from every consistent supervisor.
  pub handle_start-refines :
      (e : E) (id : ServiceId) (sup : Supervisor S)
      → IsConsistent sup
      → ((handle_start e id sup).0 ≡ (spec_start e id (view sup id)).0)
        × (view (handle_start e id sup).1 id ≡ (spec_start e id (view sup id)).1)
  handle_start-refines e id sup h =
      start_by e id sup (lookup id sup.statuses) (lookup id sup.services) refl refl (h.paired id)

  -- `handle_stop` gives the reply, and leaves the service in the state, that the abstract machine
  -- of one service says, from every consistent supervisor.
  pub handle_stop-refines :
      (e : E) (id : ServiceId) (sup : Supervisor S)
      → IsConsistent sup
      → ((handle_stop e id sup).0 ≡ (spec_stop e id (view sup id)).0)
        × (view (handle_stop e id sup).1 id ≡ (spec_stop e id (view sup id)).1)
  handle_stop-refines e id sup h =
      stop_by e id sup (lookup id sup.statuses) (lookup id sup.services) refl refl (h.paired id)
