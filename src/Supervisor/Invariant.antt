-- ===== src/Supervisor/Invariant.antt =====
-- supervisor.rs: what registration and every command keep.
use place_home.Prelude.{
  ℕ, ◌≡◌, refl, ok, err, Option, none, some, Result, arith, Bool, true, false, eq_iff, ◌≢◌,
  Bool-cases, inl, inr, ◌∙◌,
}
use place_home.Prelude.Text.{Str}
use place_home.Prelude.Map.{lookup, insert, lookup-insert, lookup-insert_ne}
use place_home.ServiceId.{ServiceId, service_id_eq}
use place_home.Supervisor.{
  ServiceStatus, unavailable, stopped, starting, running, failed, ManagedService, Supervisor, new,
  register, set_status, set_service, start_guard, start_service, start_after_guard, after_start,
  stop_guard, stop_service, stop_after_guard, after_stop, handle_start, handle_stop, handle_restart,
  is_running_status, execute, start, stop, restart, status, SupervisorCommand,
}
use place_home.Supervisor.View.{view}
use place_home.Supervisor.Spec.{IsConsistent}

module _ {S : Type 0} where
  pub new-IsConsistent : IsConsistent (new {S = S})
  unfolding new lookup
  new-IsConsistent = record { paired = λ id. refl; settled = λ id. cc }

  -- Writing a service together with a status other than `Starting` keeps consistency.
  put-IsConsistent :
      (id : ServiceId) (svc : S) (st : ServiceStatus) (sup : Supervisor S)
      → st ≢ starting
      → IsConsistent sup
      → IsConsistent (set_status id st (set_service id svc sup))
  unfolding set_status set_service
  put-IsConsistent id svc st sup n h = record {
    paired = λ j. ground (
      arith,
      lookup-insert id j st sup.statuses,
      lookup-insert id j svc sup.services,
      h.paired j,
    );
    settled = λ j x. ground (arith, lookup-insert id j st sup.statuses, h.settled j);
  }

  pub register-IsConsistent :
      (id : ServiceId) (svc : S) (available : Bool) (sup : Supervisor S)
      → IsConsistent sup
      → IsConsistent (register id svc available sup)
  unfolding register set_status set_service
  register-IsConsistent id svc true sup h = put-IsConsistent id svc stopped sup (cc) h
  register-IsConsistent id svc false sup h = put-IsConsistent id svc unavailable sup (cc) h

  -- The status `Starting` that stands while `start` runs is overwritten whatever it returns.
  after_start-IsConsistent :
      (id : ServiceId) (r : Result Str ℕ × S) (sup : Supervisor S)
      → IsConsistent sup
      → IsConsistent (after_start id r (set_status id starting sup)).1
  unfolding after_start set_status set_service
  after_start-IsConsistent id (ok pid, svc) sup h = record {
    paired = λ j. ground (
      arith,
      h.paired j,
      lookup-insert id j svc sup.services,
      lookup-insert id j (running pid) (insert id starting sup.statuses),
      lookup-insert id j starting sup.statuses,
    );
    settled = λ j x. ground (
      arith,
      h.settled j,
      lookup-insert id j (running pid) (insert id starting sup.statuses),
      lookup-insert id j starting sup.statuses,
    );
  }
  after_start-IsConsistent id (err e, svc) sup h = record {
    paired = λ j. ground (
      arith,
      h.paired j,
      lookup-insert id j svc sup.services,
      lookup-insert id j (failed e) (insert id starting sup.statuses),
      lookup-insert id j starting sup.statuses,
    );
    settled = λ j x. ground (
      arith,
      h.settled j,
      lookup-insert id j (failed e) (insert id starting sup.statuses),
      lookup-insert id j starting sup.statuses,
    );
  }

  after_stop-IsConsistent :
      (id : ServiceId) (r : Result Str Unit × S) (sup : Supervisor S) {svc : S}
      → lookup id sup.services ≡ some svc
      → IsConsistent sup
      → IsConsistent (after_stop id r sup).1
  unfolding after_stop set_service
  after_stop-IsConsistent id (ok _, svc) sup q h = put-IsConsistent id svc stopped sup (cc) h
  after_stop-IsConsistent id (err e, svc) sup q h = record {
    paired = λ j. ground (arith, h.paired j, lookup-insert id j svc sup.services, eq_iff id j);
    settled = h.settled;
  }

  after_start-frame :
      (id j : ServiceId) (r : Result Str ℕ × S) (sup : Supervisor S)
      → id ≢ j
      → view (after_start id r (set_status id starting sup)).1 j ≡ view sup j
  unfolding after_start set_status set_service
  after_start-frame id j (ok pid, svc) sup n = simp (lookup-insert_ne, n)
  after_start-frame id j (err e, svc) sup n = simp (lookup-insert_ne, n)

  after_stop-frame :
      (id j : ServiceId) (r : Result Str Unit × S) (sup : Supervisor S)
      → id ≢ j
      → view (after_stop id r sup).1 j ≡ view sup j
  unfolding after_stop set_status set_service
  after_stop-frame id j (ok _, svc) sup n = simp (lookup-insert_ne, n)
  after_stop-frame id j (err e, svc) sup n = simp (lookup-insert_ne, n)

module _ {E S : Type 0} ⦃m : ManagedService E S⦄ where
  start_by :
      (e : E) (id : ServiceId) (sup : Supervisor S) (st : Option ServiceStatus) (sv : Option S)
      → lookup id sup.statuses ≡ st
      → lookup id sup.services ≡ sv
      → IsConsistent sup
      → IsConsistent (handle_start e id sup).1
  unfolding handle_start
  start_by e id sup none sv p q h = simp p h
  start_by e id sup (some st) none p q h = absurd (ground (arith, h.paired id))
  start_by e id sup (some stopped) (some svc) p q h =
      simp (p, q) (after_start-IsConsistent id (m.start e svc) sup h)
  start_by e id sup (some (failed r)) (some svc) p q h =
      simp (p, q) (after_start-IsConsistent id (m.start e svc) sup h)
  start_by e id sup (some _) (some svc) p q h = simp p h

  stop_by :
      (e : E) (id : ServiceId) (sup : Supervisor S) (st : Option ServiceStatus) (sv : Option S)
      → lookup id sup.statuses ≡ st
      → lookup id sup.services ≡ sv
      → IsConsistent sup
      → IsConsistent (handle_stop e id sup).1
  unfolding handle_stop
  stop_by e id sup none none p q h = simp (p, q) h
  stop_by e id sup none (some svc) p q h = absurd (ground (arith, h.paired id))
  stop_by e id sup (some st) none p q h = absurd (ground (arith, h.paired id))
  stop_by e id sup (some stopped) (some svc) p q h = simp p h
  stop_by e id sup (some unavailable) (some svc) p q h = simp p h
  stop_by e id sup (some st) (some svc) p q h =
      simp (p, q) (after_stop-IsConsistent id (m.stop e svc) sup q h)

  pub handle_start-IsConsistent :
      (e : E) (id : ServiceId) (sup : Supervisor S)
      → IsConsistent sup
      → IsConsistent (handle_start e id sup).1
  handle_start-IsConsistent e id sup h =
      start_by e id sup (lookup id sup.statuses) (lookup id sup.services) refl refl h

  pub handle_stop-IsConsistent :
      (e : E) (id : ServiceId) (sup : Supervisor S)
      → IsConsistent sup
      → IsConsistent (handle_stop e id sup).1
  handle_stop-IsConsistent e id sup h =
      stop_by e id sup (lookup id sup.statuses) (lookup id sup.services) refl refl h

  pub handle_restart-IsConsistent :
      (before after : E) (id : ServiceId) (sup : Supervisor S)
      → IsConsistent sup
      → IsConsistent (handle_restart before after id sup).1
  unfolding handle_restart
  handle_restart-IsConsistent before after id sup h =
      elim (Bool-cases (is_running_status (lookup id sup.statuses))) [
        | inl e ↦ rw e (
            handle_start-IsConsistent after id (handle_stop before id sup).1
              (handle_stop-IsConsistent before id sup h))
        | inr e ↦ rw e (handle_start-IsConsistent after id sup h)
      ]

  -- Every command, whatever its reply, keeps the supervisor consistent.
  pub execute-IsConsistent :
      (before after : E) (cmd : SupervisorCommand) (sup : Supervisor S)
      → IsConsistent sup
      → IsConsistent (execute before after cmd sup).1
  unfolding execute
  execute-IsConsistent before after (start id) sup h = handle_start-IsConsistent after id sup h
  execute-IsConsistent before after (stop id) sup h = handle_stop-IsConsistent before id sup h
  execute-IsConsistent before after (restart id) sup h =
      handle_restart-IsConsistent before after id sup h
  execute-IsConsistent before after status sup h = h

  start_service-frame :
      (e : E) (id j : ServiceId) (sv : Option S) (sup : Supervisor S)
      → id ≢ j
      → view (start_service e id sv (set_status id starting sup)).1 j ≡ view sup j
  unfolding start_service
  start_service-frame e id j none sup n = unfold set_status in simp (lookup-insert_ne, n)
  start_service-frame e id j (some svc) sup n = after_start-frame id j (m.start e svc) sup n

  start_after_guard-frame :
      (e : E) (id j : ServiceId) (g : Result Str Unit) (sup : Supervisor S)
      → id ≢ j
      → view (start_after_guard e id g sup).1 j ≡ view sup j
  unfolding start_after_guard
  start_after_guard-frame e id j (ok _) sup n =
      start_service-frame e id j (lookup id sup.services) sup n
  start_after_guard-frame e id j (err msg) sup n = refl

  stop_service-frame :
      (e : E) (id j : ServiceId) (sv : Option S) (sup : Supervisor S)
      → id ≢ j
      → view (stop_service e id sv sup).1 j ≡ view sup j
  unfolding stop_service
  stop_service-frame e id j none sup n = refl
  stop_service-frame e id j (some svc) sup n = after_stop-frame id j (m.stop e svc) sup n

  stop_after_guard-frame :
      (e : E) (id j : ServiceId) (g : Result Str Unit) (sup : Supervisor S)
      → id ≢ j
      → view (stop_after_guard e id g sup).1 j ≡ view sup j
  unfolding stop_after_guard
  stop_after_guard-frame e id j (ok _) sup n =
      stop_service-frame e id j (lookup id sup.services) sup n
  stop_after_guard-frame e id j (err msg) sup n = refl

  pub handle_start-frame :
      (e : E) (id j : ServiceId) (sup : Supervisor S)
      → id ≢ j
      → view (handle_start e id sup).1 j ≡ view sup j
  unfolding handle_start
  handle_start-frame e id j sup n =
      start_after_guard-frame e id j (start_guard id (lookup id sup.statuses)) sup n

  pub handle_stop-frame :
      (e : E) (id j : ServiceId) (sup : Supervisor S)
      → id ≢ j
      → view (handle_stop e id sup).1 j ≡ view sup j
  unfolding handle_stop
  handle_stop-frame e id j sup n =
      stop_after_guard-frame e id j (stop_guard id (lookup id sup.statuses)) sup n

  pub handle_restart-frame :
      (before after : E) (id j : ServiceId) (sup : Supervisor S)
      → id ≢ j
      → view (handle_restart before after id sup).1 j ≡ view sup j
  unfolding handle_restart
  handle_restart-frame before after id j sup n =
      elim (Bool-cases (is_running_status (lookup id sup.statuses))) [
        | inl e ↦ rw e (
            handle_start-frame after id j (handle_stop before id sup).1 n
            ∙ handle_stop-frame before id j sup n)
        | inr e ↦ rw e (handle_start-frame after id j sup n)
      ]
