-- ===== src/Supervisor/Handles/Refined.antt =====
-- supervisor.rs: what the callers of the handles see, against the abstract machine.
use place_home.Prelude.{ℕ, ◌≡◌, refl, ap, ◌∙◌, none, some, List, [], ◌∷◌, ◌++◌, ok}
use place_home.Supervisor.{ManagedService, Supervisor, SupervisorCommand, Reply, execute}
use place_home.Supervisor.View.{view}
use place_home.Supervisor.Spec.{IsConsistent}
use place_home.Supervisor.Invariant.{execute-IsConsistent}
use place_home.Supervisor.Machine.{Machine, seen, spec_execute, execute-refines}
use place_home.Supervisor.Handles.{
  Call, Task, receiving, executing, ended, Spawned, spawn, is_ended, Label, request, Run,
}
use place_home.Supervisor.Handles.Trace.{sent_calls, served, calls, held}
use place_home.Supervisor.Handles.Linear.{serve, Run-IsLinear, requests-linear}

-- What has been sent and not been served: what the task executes, the queue, and what an ended task
-- has dropped.
abbrev pub waiting : Task → List Call → List Call
waiting receiving queue = queue
waiting (executing c) queue = c ∷ queue
waiting (ended dropped) queue = dropped ++ queue

waiting_lem : (task : Task) (queue : List Call) → waiting task queue ≡ held task ++ queue
waiting_lem receiving queue = refl
waiting_lem (executing c) queue = refl
waiting_lem (ended dropped) queue = refl

module _ {E S : Type 0} ⦃m : ManagedService E S⦄ where
  -- The abstract machine after the commands, one after the other.
  abbrev pub spec_serve : List (Call × E × E) → Machine S → Machine S
  spec_serve [] mach = mach
  spec_serve (((n, cmd), before, after) ∷ ds) mach =
      spec_serve ds (spec_execute before after cmd mach).1

  serve-refines :
      (ds : List (Call × E × E)) (sup : Supervisor S)
      → IsConsistent sup
      → IsConsistent (serve ds sup).1 × (view (serve ds sup).1 ≡ spec_serve ds (view sup))
  unfolding serve
  serve-refines [] sup h = (h, refl)
  serve-refines (((n, cmd), before, after) ∷ ds) sup h =
      let (c, v) =
        serve-refines ds (execute before after cmd sup).1
          (execute-IsConsistent before after cmd sup h) in
      (c, v ∙ ap (λ p. spec_serve ds p.1) (execute-refines before after cmd sup h))

  -- However the calls of any number of handles interleave with the task, from a consistent
  -- supervisor: the commands are served in the order in which they were sent, and every one that
  -- was sent and is not served yet is being executed or in the queue, or was dropped when the task
  -- was unwound; each call whose command was served returns what the abstract machine says after
  -- the commands before it, and until the task ends every service is in the state in which that
  -- machine leaves it.
  pub requests-refine :
      (sup : Supervisor S) (ls : List (Label E)) (t : Spawned S)
      → IsConsistent sup
      → Run (spawn sup) ls t
      → ((before after : E) (ds ds' : List (Call × E × E)) (n : ℕ) (cmd : SupervisorCommand)
          → served ls ≡ ds ++ ((n, cmd), before, after) ∷ ds'
          → (r : Reply) × (request (some n) t ≡ some (ok r))
            × (seen r ≡ (spec_execute before after cmd (spec_serve ds (view sup))).0))
        × (calls (served ls) ++ waiting t.task t.queue ≡ sent_calls ls)
        × (is_ended t.task ≡ none → view t.sup ≡ spec_serve (served ls) (view sup))
  requests-refine sup ls t h run =
      let i = Run-IsLinear sup run in
      (
        λ before after ds ds' n cmd e.
            let answer = requests-linear sup ls t before after ds ds' n cmd run e in
            let (c, v) = serve-refines ds sup h in
            (
              (execute before after cmd (serve ds sup).1).0,
              answer.0,
              ap (λ p. p.0) (execute-refines before after cmd (serve ds sup).1 c)
                  ∙ ap (λ mach. (spec_execute before after cmd mach).0) v,
            ),
        ap (λ l. calls (served ls) ++ l) (waiting_lem t.task t.queue) ∙ i.order,
        λ o. ap view (i.state o) ∙ (serve-refines (served ls) sup h).1,
      )
