-- ===== src/Node/Broadcasts.antt =====
-- main.rs: whom a running node broadcasts to.
use mathlib.Core.List.{Mem, mem-cons_self, mem-cons_of_mem}
use place_home.Prelude.{
  ℕ, true, ◌≡◌, inl, inr, ◌∙◌, Option, some, List, [], ◌∷◌, Result, ok, All, contains, eq_iff, ◌==◌,
  Bool-cases, ap,
}
use place_home.Prelude.Text.{Str, str_has_eq}
use place_home.Ca.{Rcgen}
use place_home.Beacons.Types.{Json}
use place_home.Beacons.Registry.Topics.{topic_of}
use place_home.Beacons.Registry.Topics.Calls.{broadcast_topic_ne}
use place_home.Beacons.MessageLoop.{Decoder}
use place_home.Http.Requests.{DeviceInfo, Request, Response}
use place_home.Http.Handlers.{AppState, World, broadcast_topic}
use place_home.BroadcastKeys.{BroadcastKey, get_or_rotate_key}
use place_home.BroadcastKeys.Token.{Hmac}
use place_home.BroadcastKeys.Rows.{Table}
use place_home.Broadcast.{BroadcastState, Cycle, cycle, payload}
use place_home.Broadcast.Cycles.{published, with_payload, cycle-published, expected}
use place_home.Node.{Node, start, holding, begin_cycle, Reach}
use place_home.Node.Honest.{
  Told, IsHonest, rest_of, start-IsHonest, begin_cycle-IsHonest, Reach-IsHonest,
}

contains-Mem :
    (t : Str) (j : Json) (topics : List Str)
    → contains t topics ≡ true
    → Mem (t, j) (with_payload j topics)
unfolding contains
contains-Mem t j [] c = absurd cc
contains-Mem t j (u ∷ topics) c = elim (Bool-cases (u == t)) [
  | inl e ↦ rw ((eq_iff u t).0 e) mem-cons_self
  | inr e ↦ mem-cons_of_mem (u, j) (contains-Mem t j topics (rw e at c))
]

told_to :
    (n : Node) (id : Str)
    → IsHonest n
    → topic_of n.loop.registry id ≡ some (broadcast_topic id)
    → contains (broadcast_topic id) n.loop.registry.broadcast_topics ≡ true
told_to n id i t = elim (i.matches id (broadcast_topic id) t) [
  | inl e ↦ absurd (broadcast_topic_ne id e)
  | inr (e, c) ↦ c
]

holding-published :
    (h : Hmac) (st : BroadcastState) (c : Cycle) (table : Table) (key : BroadcastKey)
    → (get_or_rotate_key st.key_management c.get table).0 ≡ ok key
    → published (
        rest_of
          (holding (get_or_rotate_key st.key_management c.get table).0 (cycle h st c table).0))
      ≡ with_payload (payload h st c.token_now key) c.topics
unfolding holding
holding-published h st c table key e = rw e (cycle-published h st c table ∙ ap (expected h st c) e)

module _ {K P Q C : Type 0} (r : Rcgen K P Q C) (state : AppState K C)
    (parse_device : List ℕ → Option DeviceInfo) (parse_payload : List ℕ → Option Str)
    (forwarded : Request → Result Str Response) (d : Decoder) (h : Hmac) (st : BroadcastState) where
  -- However requests, the message loop and the broadcast loop of a new node interleave, and
  -- wherever sweeps are given up: what a cycle that has a key is going to send goes to the
  -- broadcast topic of every beacon that is then registered with one, with the payload of that key,
  -- and to no topic but those of beacons whose device was told its identifier in the answer to a
  -- handshake; and so did every broadcast so far.
  pub broadcasts-Told :
      (own : Option Str) (world : World) (table : Table) (n : Node) (c : Cycle) (key : BroadcastKey)
      → world.topics.sent ≡ []
      → Reach r state parse_device parse_payload forwarded d h st (start own world table) n
      → (get_or_rotate_key st.key_management c.get n.table).0 ≡ ok key
      → let plan = published (rest_of (begin_cycle h st c n).cycle_rest) in
        ((id : Str)
          → topic_of n.loop.registry id ≡ some (broadcast_topic id)
          → Mem (broadcast_topic id, payload h st c.token_now key) plan)
        × All (λ p. Told n.answers p.0) plan
        × All (λ p. Told n.answers p.0) (published n.actions)
  unfolding begin_cycle
  broadcasts-Told own world table n c key empty run e =
      let i =
        Reach-IsHonest r state parse_device parse_payload forwarded d h st
          (start-IsHonest own world table empty) run in
      let reg = n.loop.registry in
      let c' = record c { topics = reg.broadcast_topics } in
      (
        λ id t.
            rw (holding-published h st c' n.table key e)
              (contains-Mem (broadcast_topic id) _ reg.broadcast_topics (told_to n id i t)),
        (begin_cycle-IsHonest h st c n i).planned,
        i.said,
      )
