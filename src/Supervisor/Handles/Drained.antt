-- ===== src/Supervisor/Handles/Drained.antt =====
-- supervisor.rs: the task answers whatever was sent.
use mathlib.Core.List.{append-nil, append_assoc}
use place_home.Prelude.{
  ℕ, suc, ◌<◌, ◌≡◌, length, ok, arith, nat_eq, refl, ap, sym, subst, ◌∙◌, none, some, List, [], ◌∷◌,
  ◌++◌,
}
use place_home.Supervisor.{ManagedService, Supervisor, Reply, execute}
use place_home.Supervisor.Handles.{
  Call, Task, receiving, executing, ended, Spawned, spawn, is_ended, Label, silent, replied,
  request, after_reply, Step, clone, drop, send, receive, reply, finish, unwind, Run, start, next,
}
use place_home.Supervisor.Handles.Trace.{sent_calls, sent_calls-append, served, calls, pending}
use place_home.Supervisor.Handles.Numbered.{Numbered, lookup_within}
use place_home.Supervisor.Handles.Linear.{serve, serve-Numbered, Run-IsLinear}

module _ {E S : Type 0} ⦃m : ManagedService E S⦄ where
  -- A step of the task, and not of a caller.
  abbrev pub IsOfTask : {s t : Spawned S} {l : Label E} → Step s l t → Type 0
  IsOfTask (clone s h) = ⊥
  IsOfTask (drop s n h) = ⊥
  IsOfTask (send s cmd h o r) = ⊥
  IsOfTask (receive s c q e f) = Unit
  IsOfTask (reply s c b a e) = Unit
  IsOfTask (finish s answer e f g) = Unit
  IsOfTask (unwind s c e) = Unit

  -- Steps of the task alone, whatever the callers do meanwhile.
  pub data TaskRun : Spawned S → List (Label E) → Spawned S → Type 0 where
    done : {s : Spawned S} → TaskRun s [] s
    by_task :
        {s t u : Spawned S} {l : Label E} {ls : List (Label E)} (st : Step s l t)
        → IsOfTask st
        → TaskRun t ls u
        → TaskRun s (l ∷ ls) u

-- Steps of the task, after which nothing is left to do.
abbrev Drains : {E S : Type 0} → ManagedService E S → Spawned S → Type 0
Drains {E} m s =
    (ls : List (Label E)) × (u : Spawned _) × TaskRun ⦃m = m⦄ s ls u
    × (u.task ≡ receiving)
    × (u.queue ≡ [])

module _ {E S : Type 0} ⦃m : ManagedService E S⦄ where
  Run-append :
      {s t u : Spawned S} {ls ls' : List (Label E)} → Run s ls t → Run t ls' u → Run s (ls ++ ls') u
  Run-append {ls = ls} r start = rw (append-nil ls) r
  Run-append {ls = ls} r (next {ls = ls'} {l = l} r' st) =
      rw (sym (append_assoc ls ls' (l ∷ []))) (next (Run-append r r') st)

  Run-of_TaskRun : {s u : Spawned S} {ls : List (Label E)} → TaskRun s ls u → Run s ls u
  Run-of_TaskRun done = start
  Run-of_TaskRun (by_task st i r) = Run-append (next start st) (Run-of_TaskRun r)

  none_sent :
      {s t : Spawned S} {l : Label E} (ls : List (Label E)) (st : Step s l t)
      → IsOfTask st
      → sent_calls (l ∷ ls) ≡ sent_calls ls
  none_sent ls (clone s h) i = elim i [ ]
  none_sent ls (drop s n h) i = elim i [ ]
  none_sent ls (send s cmd h o r) i = elim i [ ]
  none_sent ls (receive s c q e f) i = refl
  none_sent ls (reply s c b a e) i = refl
  none_sent ls (finish s answer e f g) i = refl
  none_sent ls (unwind s c e) i = refl

  TaskRun-sent : {s u : Spawned S} {ls : List (Label E)} → TaskRun s ls u → sent_calls ls ≡ []
  TaskRun-sent done = refl
  TaskRun-sent (by_task {ls = ls} st i r) = none_sent ls st i ∙ TaskRun-sent r

  reply_then :
      (s : Spawned S) (c : Call) (e : E)
      → s.task ≡ executing c
      → Drains m (after_reply c (execute e e c.1 s.sup) s)
      → Drains m s
  reply_then s c e h (ls, u, r, d, f) =
      (replied c e e ∷ ls, u, by_task (reply s c e e h) tt r, d, f)

  drain : (q : List Call) (s : Spawned S) (e : E) → s.task ≡ receiving → s.queue ≡ q → Drains m s
  drain [] s e t h = ([], s, done, t, h)
  drain (c ∷ q) s e t h =
      let s' = record s { task = executing c; queue = q } in
      let (ls, u, r, d, f) =
        reply_then s' c e refl (drain q (after_reply c (execute e e c.1 s'.sup) s') e refl refl) in
      (silent ∷ ls, u, by_task (receive s c q t h) tt r, d, f)

  drain_by :
      (task : Task) (s : Spawned S) (e : E) → s.task ≡ task → is_ended task ≡ none → Drains m s
  drain_by receiving s e t h = drain s.queue s e t refl
  drain_by (executing c) s e t h =
      reply_then s c e t (drain s.queue (after_reply c (execute e e c.1 s.sup) s) e refl refl)
  drain_by (ended lost) s e t h = cc

  length-serve :
      (ds : List (Call × E × E)) (sup : Supervisor S) → length (serve ds sup).0 ≡ length (calls ds)
  unfolding serve
  length-serve [] sup = refl
  length-serve (((n, cmd), b, a) ∷ ds) sup = ap suc (length-serve ds (execute b a cmd sup).1)

  -- Wherever a run of the supervisor has got to, unless its task has ended, steps of the task alone
  -- lead to a state in which every call that was sent has its reply, whether the handles are
  -- dropped or not.
  pub requests-answered :
      (sup : Supervisor S) (ls : List (Label E)) (t : Spawned S) (e : E)
      → Run (spawn sup) ls t
      → is_ended t.task ≡ none
      → (ls' : List (Label E)) × (u : Spawned S) × TaskRun t ls' u
        × ((n : ℕ) → n < t.next → (r : Reply) × (request (some n) u ≡ some (ok r)))
  unfolding request
  requests-answered sup ls t e run o =
      let (ls', u, r, idle, empty) = drain_by t.task t e refl o in
      let i = Run-IsLinear sup run in
      let j = Run-IsLinear sup (Run-append run (Run-of_TaskRun r)) in
      let whole : calls (served (ls ++ ls')) ++ [] ≡ sent_calls (ls ++ ls') =
        simp (idle, empty) at j.order in
      let numbered = subst (Numbered 0) (sym j.replies) (
        serve-Numbered 0 (served (ls ++ ls')) (pending u) sup
          (subst (Numbered 0) (sym j.order) j.numbers.0)) in
      let count : length u.replies ≡ t.next =
        ap length j.replies
        ∙ (length-serve (served (ls ++ ls')) sup
            ∙ (ap length (sym (append-nil (calls (served (ls ++ ls')))) ∙ whole)
                ∙ (ap length (
                      sent_calls-append ls ls'
                      ∙ (ap (λ l. sent_calls ls ++ l) (TaskRun-sent r)
                          ∙ append-nil (sent_calls ls)))
                    ∙ i.numbers.1))) in
      (
        ls',
        u,
        r,
        λ n h.
            let (a, p) =
              lookup_within 0 n u.replies numbered (omega arith) (omega (arith, h, count)) in
            (a, rw p refl),
      )
