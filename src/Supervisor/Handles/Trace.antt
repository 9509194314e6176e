-- ===== src/Supervisor/Handles/Trace.antt =====
-- supervisor.rs: what a run of the handles and the task sends and serves.
use mathlib.Core.List.{append_assoc}
use place_home.Prelude.{◌≡◌, refl, ap, sym, List, [], ◌∷◌, ◌++◌, nat_eq}
use place_home.Supervisor.Handles.{
  Call, Task, receiving, executing, ended, Spawned, Label, silent, sent, replied,
}

module _ {E : Type 0} where
  -- The commands that were sent, in the order in which the channel took them.
  abbrev pub sent_calls : List (Label E) → List Call
  sent_calls [] = []
  sent_calls (sent c ∷ ls) = c ∷ sent_calls ls
  sent_calls (silent ∷ ls) = sent_calls ls
  sent_calls (replied c before after ∷ ls) = sent_calls ls

  -- The commands that were replied to, with the answers of the services.
  abbrev pub served : List (Label E) → List (Call × E × E)
  served [] = []
  served (sent c ∷ ls) = served ls
  served (silent ∷ ls) = served ls
  served (replied c before after ∷ ls) = (c, before, after) ∷ served ls

  pub sent_calls-append :
      (ls ls' : List (Label E)) → sent_calls (ls ++ ls') ≡ sent_calls ls ++ sent_calls ls'
  sent_calls-append [] ls' = refl
  sent_calls-append (sent c ∷ ls) ls' = ap (λ l. c ∷ l) (sent_calls-append ls ls')
  sent_calls-append (silent ∷ ls) ls' = sent_calls-append ls ls'
  sent_calls-append (replied c before after ∷ ls) ls' = sent_calls-append ls ls'

  pub served-append : (ls ls' : List (Label E)) → served (ls ++ ls') ≡ served ls ++ served ls'
  served-append [] ls' = refl
  served-append (sent c ∷ ls) ls' = served-append ls ls'
  served-append (silent ∷ ls) ls' = served-append ls ls'
  served-append (replied c before after ∷ ls) ls' =
      ap (λ l. (c, before, after) ∷ l) (served-append ls ls')

abbrev pub calls : {E : Type 0} → List (Call × E × E) → List Call
calls [] = []
calls ((c, before, after) ∷ ds) = c ∷ calls ds

pub calls-snoc :
    {E : Type 0} (c : Call) (before after : E) (ds : List (Call × E × E)) (q : List Call)
    → calls (ds ++ (c, before, after) ∷ []) ++ q ≡ calls ds ++ c ∷ q
calls-snoc c before after [] q = refl
calls-snoc c before after ((c', b, a) ∷ ds) q = ap (λ l. c' ∷ l) (calls-snoc c before after ds q)

-- A command at the end of the queue is at the end of what is sent.
pub order_end :
    (xs ys q cs : List Call) (c : Call)
    → xs ++ (ys ++ q) ≡ cs
    → xs ++ (ys ++ (q ++ c ∷ [])) ≡ cs ++ c ∷ []
order_end xs ys q cs c h = rw (sym h) (simp append_assoc refl)

-- What has been sent and not been replied to.
abbrev pub held : Task → List Call
held receiving = []
held (executing c) = c ∷ []
held (ended lost) = lost

abbrev pub pending : {S : Type 0} → Spawned S → List Call
pending s = held s.task ++ s.queue
