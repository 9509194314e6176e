-- ===== src/Supervisor/Handles.antt =====
-- `SupervisorHandle` and the task of `spawn` in supervisor.rs: callers of any number of handles, the
-- bounded channel between them and the task, and the replies. A caller is not ahead of the channel:
-- its command is sent once there is room. A reply is kept also if its caller has gone.
pub mod Trace
pub mod Numbered
pub mod Linear
pub mod Drained
pub mod Refined
use place_home.Prelude.{
  ℕ, suc, ◌<◌, ◌≡◌, ◌≢◌, Option, none, some, List, [], ◌∷◌, ◌++◌, Result, ok, err, length, nat_eq,
}
use place_home.Prelude.Text.{Str, str}
use place_home.Prelude.Map.{lookup}
use place_home.ServiceId.{ServiceId}
use place_home.Supervisor.{
  ServiceStatus, ManagedService, Supervisor, SupervisorCommand, Reply, done, statuses, execute,
  shutdown,
}

-- A command and the number of its reply channel.
abbrev pub Call : Type 0
Call = ℕ × SupervisorCommand

pub data Task : Type 0 where
  receiving : Task
  executing : Call → Task
  -- returned, or unwound by a panic; the reply senders of `lost` are dropped unused
  ended : (lost : List Call) → Task

pub record Spawned (S : Type 0) : Type 0 where
  pub sup : Supervisor S
  pub task : Task
  pub capacity : ℕ
  pub queue : List Call
  -- how many handles there are
  pub handles : ℕ
  pub replies : List (ℕ × Reply)
  pub next : ℕ

unfoldable pub spawn : {S : Type 0} → Supervisor S → Spawned S
spawn sup = record {
  sup = sup;
  task = receiving;
  capacity = sup.channel_buffer;
  queue = [];
  handles = 1;
  replies = [];
  next = 0;
}

-- What is seen of a step: `before` and `after` are the answers to the calls of the service.
pub data Label (E : Type 0) : Type 0 where
  silent : Label E
  sent : Call → Label E
  replied : Call → (before after : E) → Label E

abbrev pub is_ended : Task → Option (List Call)
is_ended (ended lost) = some lost
is_ended _ = none

abbrev awaited : Option Reply → Option (List Call) → Option (Result Str Reply)
awaited (some r) lost = some (ok r)
awaited none (some lost) = some (err (str "supervisor dropped reply"))
awaited none none = none

abbrev unsent : Option (List Call) → Option (Result Str Reply)
unsent (some lost) = some (err (str "supervisor channel closed"))
unsent none = none

-- What a call of a handle returns by now: none while it waits for room, with no number yet, or for
-- the reply.
unfoldable pub request : {S : Type 0} → Option ℕ → Spawned S → Option (Result Str Reply)
request none s = unsent (is_ended s.task)
request (some n) s = awaited (lookup n s.replies) (is_ended s.task)

-- What the task does with the reply of a command.
abbrev pub after_reply : {S : Type 0} → Call → Reply × Supervisor S → Spawned S → Spawned S
after_reply (n, cmd) (r, sup) s = record s {
  sup = sup;
  task = receiving;
  replies = s.replies ++ (n, r) ∷ [];
}

module _ {E S : Type 0} ⦃m : ManagedService E S⦄ where
  pub data Step : Spawned S → Label E → Spawned S → Type 0 where
    clone : (s : Spawned S) → s.handles ≢ 0 → Step s silent (record s { handles = suc s.handles })
    drop : (s : Spawned S) (n : ℕ) → s.handles ≡ suc n → Step s silent (record s { handles = n })
    send :
        (s : Spawned S) (cmd : SupervisorCommand)
        → s.handles ≢ 0
        → is_ended s.task ≡ none
        → length s.queue < s.capacity
        → Step s
            (sent (s.next, cmd))
            (record s { queue = s.queue ++ (s.next, cmd) ∷ []; next = suc s.next })
    receive :
        (s : Spawned S) (c : Call) (q : List Call)
        → s.task ≡ receiving
        → s.queue ≡ c ∷ q
        → Step s silent (record s { task = executing c; queue = q })
    reply :
        (s : Spawned S) (c : Call) (before after : E)
        → s.task ≡ executing c
        → Step s (replied c before after) (after_reply c (execute before after c.1 s.sup) s)
    -- `recv` gives none
    finish :
        (s : Spawned S) (answer : ServiceId → E)
        → s.task ≡ receiving
        → s.queue ≡ []
        → s.handles ≡ 0
        → Step s silent (record s { task = ended []; sup = shutdown answer s.sup })
    -- a service panics
    unwind :
        (s : Spawned S) (c : Call)
        → s.task ≡ executing c
        → Step s silent (record s { task = ended (c ∷ s.queue); queue = [] })

  pub data Run (s : Spawned S) : List (Label E) → Spawned S → Type 0 where
    start : Run s [] s
    next :
        {t u : Spawned S} {ls : List (Label E)} {l : Label E}
        → Run s ls t
        → Step t l u
        → Run s (ls ++ l ∷ []) u
