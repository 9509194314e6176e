-- ===== src/Services/Concurrent.antt =====
-- Tests of concurrent calls on a supervisor with the HTTPS gateway.
use place_home.Prelude.{ℕ, ◌≡◌, ◌<◌, refl, some, List, [], ◌∷◌, ok, true, arith}
use place_home.Prelude.Text.{str}
use place_home.ServiceId.{ServiceId}
use place_home.Supervisor.{Supervisor, SupervisorCommand, Reply, register, new, execute}
use place_home.Supervisor.Handles.{
  Spawned, spawn, Label, silent, sent, replied, request, send, receive, reply, Run, start, next,
  executing, after_reply,
}
use place_home.Supervisor.Handles.Drained.{TaskRun, requests-answered}
use place_home.Supervisor.Handles.Refined.{requests-refine}
use place_home.Supervisor.Machine.{seen, spec_execute, execute-refines}
use place_home.Supervisor.View.{view}
use place_home.Supervisor.Spec.{IsConsistent}
use place_home.Supervisor.Invariant.{new-IsConsistent, register-IsConsistent}
use place_home.Services.Types.{Answers, exited, still_running}
use place_home.Services.Gateway
use place_home.Services.Managed
use place_home.Services.Managed.{Service, dyn_service}

abbrev fine : Answers
fine = record {
  channel = 1;
  second_channel = 2;
  bound = ok tt;
  local_addr = ok tt;
  tls_config = ok tt;
  mqtt_opts = ok tt;
  config_exists = true;
  spawned = ok (some 4711);
  wait = exited;
  try_wait = still_running;
}

abbrev https : Service
https = Managed.gateway (Gateway.new (str "0.0.0.0:8080") true)

abbrev sup : Supervisor Service
sup = register ServiceId.gateway https true new

-- Two callers: the second sends its command before the first has its reply.
abbrev labels : List (Label Answers)
labels =
    sent (0, SupervisorCommand.start ServiceId.gateway)
    ∷ silent
    ∷ sent (1, SupervisorCommand.stop ServiceId.gateway)
    ∷ replied (0, SupervisorCommand.start ServiceId.gateway) fine fine
    ∷ []

abbrev first_sent : Spawned Service
first_sent = record (spawn sup) {
  queue = (0, SupervisorCommand.start ServiceId.gateway) ∷ [];
  next = 1;
}

abbrev both_sent : Spawned Service
both_sent = record first_sent {
  task = executing (0, SupervisorCommand.start ServiceId.gateway);
  queue = (1, SupervisorCommand.stop ServiceId.gateway) ∷ [];
  next = 2;
}

abbrev answered : Spawned Service
answered =
    after_reply (0, SupervisorCommand.start ServiceId.gateway)
      (execute fine fine (SupervisorCommand.start ServiceId.gateway) sup) both_sent

labels-Run : Run (spawn sup) labels answered
unfolding spawn register new
labels-Run =
    next
      (next
        (next
          (next start (
            send (spawn sup) (SupervisorCommand.start ServiceId.gateway) (omega arith) refl
              (omega arith)))
          (receive first_sent (0, SupervisorCommand.start ServiceId.gateway) [] refl refl))
        (send _ (SupervisorCommand.stop ServiceId.gateway) (omega arith) refl (omega arith)))
      (reply both_sent (0, SupervisorCommand.start ServiceId.gateway) fine fine refl)

sup-IsConsistent : IsConsistent sup
sup-IsConsistent = register-IsConsistent ServiceId.gateway https true new new-IsConsistent

execute-refines_example :
    (
      seen (execute fine fine (SupervisorCommand.stop ServiceId.gateway) sup).0,
      view (execute fine fine (SupervisorCommand.stop ServiceId.gateway) sup).1,
    )
    ≡ spec_execute fine fine (SupervisorCommand.stop ServiceId.gateway) (view sup)
execute-refines_example =
    execute-refines fine fine (SupervisorCommand.stop ServiceId.gateway) sup sup-IsConsistent

requests-refine_example :
    (r : Reply) × (request (some 0) answered ≡ some (ok r))
    × (seen r ≡ (spec_execute fine fine (SupervisorCommand.start ServiceId.gateway) (view sup)).0)
requests-refine_example =
    (requests-refine sup labels answered sup-IsConsistent labels-Run).0 fine fine [] [] 0
      (SupervisorCommand.start ServiceId.gateway) refl

requests-answered_example :
    (ls : List (Label Answers)) × (u : Spawned Service) × TaskRun answered ls u
    × ((n : ℕ) → n < 2 → (r : Reply) × (request (some n) u ≡ some (ok r)))
requests-answered_example = requests-answered sup labels answered fine labels-Run refl
