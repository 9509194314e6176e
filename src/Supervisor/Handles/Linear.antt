-- ===== src/Supervisor/Handles/Linear.antt =====
-- supervisor.rs: concurrent calls of the handles are served as if one after the other.
use mathlib.Core.List.{append-nil}
use place_home.Prelude.{
  ℕ, suc, ◌≤◌, ◌<◌, ◌≡◌, refl, ap, sym, subst, ◌∙◌, none, some, List, [], ◌∷◌, ◌++◌, ok, length,
  length-append, arith, nat_eq,
}
use place_home.Supervisor.{ManagedService, Supervisor, SupervisorCommand, Reply, execute}
use place_home.Supervisor.Handles.{
  Call, Task, executing, ended, Spawned, spawn, is_ended, Label, request, after_reply, Step, clone,
  drop, send, receive, reply, finish, unwind, Run, start, next,
}
use place_home.Supervisor.Handles.Trace.{
  sent_calls, served, sent_calls-append, served-append, calls, calls-snoc, order_end, held, pending,
}
use place_home.Supervisor.Handles.Numbered.{Numbered, Numbered-snoc, lookup-Numbered}

module _ {E S : Type 0} ⦃m : ManagedService E S⦄ where
  -- The commands one after the other, without a channel.
  unfoldable pub serve : List (Call × E × E) → Supervisor S → List (ℕ × Reply) × Supervisor S
  serve [] sup = ([], sup)
  serve (((n, cmd), before, after) ∷ ds) sup =
      let (r, sup') = execute before after cmd sup in
      let (rs, sup'') = serve ds sup' in ((n, r) ∷ rs, sup'')

  serve-snoc :
      (ds : List (Call × E × E)) (before after : E) (c : Call) (sup : Supervisor S)
      → let (rs, sup') = serve ds sup in
        let (r, sup'') = execute before after c.1 sup' in
        serve (ds ++ (c, before, after) ∷ []) sup ≡ (rs ++ (c.0, r) ∷ [], sup'')
  unfolding serve
  serve-snoc [] before after c sup = refl
  serve-snoc (((i, cmd), b, a) ∷ ds) before after c sup =
      ap (λ p. ((i, (execute b a cmd sup).0) ∷ p.0, p.1))
        (serve-snoc ds before after c (execute b a cmd sup).1)

  pub record IsLinear (sup : Supervisor S) (ds : List (Call × E × E)) (cs : List Call)
      (s : Spawned S) : Type 0 where
    pub order : calls ds ++ pending s ≡ cs
    pub replies : s.replies ≡ (serve ds sup).0
    pub state : is_ended s.task ≡ none → s.sup ≡ (serve ds sup).1
    pub numbers : Numbered 0 cs × (length cs ≡ s.next)
    pub room : (s.capacity ≡ sup.channel_buffer) × (length s.queue ≤ s.capacity)

  serve-append :
      (ds ds' : List (Call × E × E)) (sup : Supervisor S)
      → (serve (ds ++ ds') sup).0 ≡ (serve ds sup).0 ++ (serve ds' (serve ds sup).1).0
  unfolding serve
  serve-append [] ds' sup = refl
  serve-append (((i, cmd), b, a) ∷ ds) ds' sup =
      ap (λ rs. (i, (execute b a cmd sup).0) ∷ rs) (serve-append ds ds' (execute b a cmd sup).1)

  pub serve-Numbered :
      (k : ℕ) (ds : List (Call × E × E)) (rest : List Call) (sup : Supervisor S)
      → Numbered k (calls ds ++ rest)
      → Numbered k (serve ds sup).0
  unfolding serve
  serve-Numbered k [] rest sup h = tt
  serve-Numbered k (((i, cmd), b, a) ∷ ds) rest sup (e, h) =
      (e, serve-Numbered (suc k) ds rest (execute b a cmd sup).1 h)

  spawn-IsLinear : (sup : Supervisor S) → IsLinear sup [] [] (spawn sup)
  unfolding spawn serve
  spawn-IsLinear sup = record {
    order = refl;
    replies = refl;
    state = λ e. refl;
    numbers = (tt, refl);
    room = (refl, omega arith);
  }

  silently :
      (sup : Supervisor S) (ds : List (Call × E × E)) (cs : List Call) (t : Spawned S)
      → IsLinear sup ds cs t
      → IsLinear sup (ds ++ []) (cs ++ []) t
  silently sup ds cs t i = rw (append-nil ds) (rw (append-nil cs) i)

  counted :
      (sup : Supervisor S) (ds : List (Call × E × E)) (cs : List Call) (s : Spawned S) (n : ℕ)
      → IsLinear sup ds cs s
      → IsLinear sup (ds ++ []) (cs ++ []) (record s { handles = n })
  counted sup ds cs s n i = silently sup ds cs _ (record {
    order = i.order;
    replies = i.replies;
    state = i.state;
    numbers = i.numbers;
    room = i.room;
  })

  -- The task changes, and takes a command from the queue or drops the queue.
  task-IsLinear :
      (sup : Supervisor S) (ds : List (Call × E × E)) (cs : List Call) (s : Spawned S) (task : Task)
      (q : List Call)
      → held task ++ q ≡ pending s
      → (is_ended task ≡ none → is_ended s.task ≡ none)
      → length q ≤ length s.queue
      → IsLinear sup ds cs s
      → IsLinear sup (ds ++ []) (cs ++ []) (record s { task = task; queue = q })
  task-IsLinear sup ds cs s task q e o l i = silently sup ds cs _ (record {
    order = rw e i.order;
    replies = i.replies;
    state = λ h. i.state (o h);
    numbers = i.numbers;
    room = (i.room.0, omega (arith, l, i.room.1));
  })

  reply-IsLinear :
      (sup : Supervisor S) (ds : List (Call × E × E)) (cs : List Call) (s : Spawned S) (c : Call)
      (before after : E)
      → s.task ≡ executing c
      → IsLinear sup ds cs s
      → IsLinear sup
          (ds ++ (c, before, after) ∷ [])
          cs
          (after_reply c (execute before after c.1 s.sup) s)
  reply-IsLinear sup ds cs s c before after e i = record {
    order = calls-snoc c before after ds s.queue ∙ (simp e at i.order);
    replies = rw (serve-snoc ds before after c sup) (rw i.replies (rw (i.state (rw e refl)) refl));
    state = λ h. rw (serve-snoc ds before after c sup) (rw (i.state (rw e refl)) refl);
    numbers = i.numbers;
    room = i.room;
  }

  send-IsLinear :
      (sup : Supervisor S) (ds : List (Call × E × E)) (cs : List Call) (s : Spawned S)
      (cmd : SupervisorCommand)
      → length s.queue < s.capacity
      → IsLinear sup ds cs s
      → IsLinear sup
          (ds ++ [])
          (cs ++ (s.next, cmd) ∷ [])
          (record s { queue = s.queue ++ (s.next, cmd) ∷ []; next = suc s.next })
  send-IsLinear sup ds cs s cmd r i = rw (append-nil ds) (record {
    order = order_end (calls ds) (held s.task) s.queue cs (s.next, cmd) i.order;
    replies = i.replies;
    state = i.state;
    numbers = (
      subst (λ n. Numbered 0 (cs ++ (n, cmd) ∷ [])) (omega (arith, i.numbers.1))
          (Numbered-snoc 0 cs cmd i.numbers.0),
      omega (arith, length-append cs ((s.next, cmd) ∷ []), i.numbers.1),
    );
    room = (i.room.0, omega (arith, r, length-append s.queue ((s.next, cmd) ∷ [])));
  })

  Step-IsLinear :
      (sup : Supervisor S) (ds : List (Call × E × E)) (cs : List Call) {s t : Spawned S}
      {l : Label E}
      → Step s l t
      → IsLinear sup ds cs s
      → IsLinear sup (ds ++ served (l ∷ [])) (cs ++ sent_calls (l ∷ [])) t
  Step-IsLinear sup ds cs (clone s h) i = counted sup ds cs s (suc s.handles) i
  Step-IsLinear sup ds cs (drop s n h) i = counted sup ds cs s n i
  Step-IsLinear sup ds cs (send s cmd h o r) i = send-IsLinear sup ds cs s cmd r i
  Step-IsLinear sup ds cs (receive s c q e f) i =
      task-IsLinear sup ds cs s (executing c) q (simp (e, f) refl) (λ h. rw e refl)
        (rw f (omega arith)) i
  Step-IsLinear sup ds cs (reply s c before after e) i =
      rw (append-nil cs) (reply-IsLinear sup ds cs s c before after e i)
  Step-IsLinear sup ds cs (finish s answer e f g) i = silently sup ds cs _ (record {
    order = simp e at i.order;
    replies = i.replies;
    state = λ h. cc;
    numbers = i.numbers;
    room = i.room;
  })
  Step-IsLinear sup ds cs (unwind s c e) i =
      task-IsLinear sup ds cs s (ended (c ∷ s.queue)) [] (rw (append-nil s.queue) (rw e refl))
        (λ h. cc) (omega arith) i

  pub Run-IsLinear :
      (sup : Supervisor S) {t : Spawned S} {ls : List (Label E)}
      → Run (spawn sup) ls t
      → IsLinear sup (served ls) (sent_calls ls) t
  Run-IsLinear sup start = spawn-IsLinear sup
  Run-IsLinear sup (next {ls = ls} {l = l} r st) = rw (served-append ls (l ∷ [])) (
      rw (sent_calls-append ls (l ∷ []))
        (Step-IsLinear sup (served ls) (sent_calls ls) st (Run-IsLinear sup r)))

  -- x
  pub requests-linear :
      (sup : Supervisor S) (ls : List (Label E)) (t : Spawned S) (before after : E)
      (ds ds' : List (Call × E × E)) (n : ℕ) (cmd : SupervisorCommand)
      → Run (spawn sup) ls t
      → served ls ≡ ds ++ ((n, cmd), before, after) ∷ ds'
      → (request (some n) t ≡ some (ok (execute before after cmd (serve ds sup).1).0))
        × (calls (served ls) ++ pending t ≡ sent_calls ls)
        × (is_ended t.task ≡ none → t.sup ≡ (serve (served ls) sup).1)
  unfolding request serve
  requests-linear sup ls t before after ds ds' n cmd r e =
      let i = Run-IsLinear sup r in
      let (rs, sup') = serve ds sup in
      let (answer, sup'') = execute before after cmd sup' in
      let all : t.replies ≡ rs ++ (n, answer) ∷ (serve ds' sup'').0 =
        i.replies
        ∙ (ap (λ l. (serve l sup).0) e ∙ serve-append ds (((n, cmd), before, after) ∷ ds') sup) in
      let numbered = subst (Numbered 0) (sym i.replies ∙ all) (
        serve-Numbered 0 (served ls) (pending t) sup
          (subst (Numbered 0) (sym i.order) i.numbers.0)) in
      (
        rw all (rw (lookup-Numbered 0 n answer rs (serve ds' sup'').0 numbered) refl),
        i.order,
        i.state,
      )
