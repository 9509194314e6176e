-- ===== src/Node/Blocked.antt =====
-- app.rs: the message loop while the broadcast loop holds its lock on the topics.
use place_home.Prelude.{ℕ, sym, true, ◌≡◌, ◌≢◌, inl, inr, refl, ◌∙◌, Option, none, List, Result}
use place_home.Prelude.Text.{Str}
use place_home.Ca.{Rcgen}
use place_home.Beacons.Types.{TopicChannel}
use place_home.Beacons.MessageLoop.{Decoder}
use place_home.Http.Requests.{DeviceInfo, Request, Response}
use place_home.Http.Handlers.{AppState}
use place_home.BroadcastKeys.Token.{Hmac}
use place_home.Broadcast.{BroadcastState}
use place_home.Node.{
  registering, Node, writes_topics, answered, take, begin_cycle, Step, request, take_channel,
  register, handle_message, begin_sweep, take_stale, pass_over, remove_stale, give_up_sweep,
  end_sweep, cycle_begins, act, cycle_ends,
}

module _ {K P Q C : Type 0} (r : Rcgen K P Q C) (state : AppState K C)
    (parse_device : List ℕ → Option DeviceInfo) (parse_payload : List ℕ → Option Str)
    (forwarded : Request → Result Str Response) (d : Decoder) (h : Hmac) (st : BroadcastState) where
  -- Steps before the end of the cycle.
  pub data Within (s : Node) : Node → Type 0 where
    begin : Within s s
    more :
        {t u : Node}
        → Within s t
        → Step r state parse_device parse_payload forwarded d h st t u
        → u.cycle_rest ≢ none
        → Within s u

  -- The message loop has a topic to list, in a cycle.
  abbrev pub IsWaiting : Result Str Unit → TopicChannel → Node → Type 0
  IsWaiting sub c n =
      (n.cycle_rest ≢ none) × (n.work ≡ registering sub c) × (writes_topics c.topic_type sub ≡ true)

  Step-waits :
      {n u : Node} (sub : Result Str Unit) (c : TopicChannel)
      → Step r state parse_device parse_payload forwarded d h st n u
      → u.cycle_rest ≢ none
      → IsWaiting sub c n
      → (u.loop ≡ n.loop) × IsWaiting sub c u
  unfolding answered take begin_cycle
  Step-waits sub c (request n m req) t w = (refl, w)
  Step-waits sub c (take_channel n now s c' rest b f) t (x, y, z) = absurd cc
  Step-waits sub c (register n s c' b (inl f)) t (x, y, z) = absurd (x f)
  Step-waits sub c (register n s c' b (inr f)) t (x, y, z) = let p = sym b ∙ y in absurd cc
  Step-waits sub c (handle_message n now topic payload k b) t (x, y, z) = absurd cc
  Step-waits sub c (begin_sweep n now b) t (x, y, z) = absurd cc
  Step-waits sub c (take_stale n id ids q b e) t (x, y, z) = absurd cc
  Step-waits sub c (pass_over n id ids b e) t (x, y, z) = absurd cc
  Step-waits sub c (remove_stale n id ids q b f) t (x, y, z) = absurd cc
  Step-waits sub c (give_up_sweep n id ids q at b e) t (x, y, z) = absurd cc
  Step-waits sub c (end_sweep n b) t (x, y, z) = absurd cc
  Step-waits sub c (cycle_begins n k f) t (x, y, z) = absurd (x f)
  Step-waits sub c (act n a rest f) t (x, y, z) = (refl, (t, y, z))
  Step-waits sub c (cycle_ends n f) t w = absurd (t refl)

  Within-waits :
      {s u : Node} (sub : Result Str Unit) (c : TopicChannel)
      → IsWaiting sub c s
      → Within s u
      → (u.loop ≡ s.loop) × IsWaiting sub c u
  Within-waits sub c w begin = (refl, w)
  Within-waits sub c w (more run step t) =
      let (same, v) = Within-waits sub c w run in
      let (again, v') = Step-waits sub c step t v in (again ∙ same, v')

  -- While the broadcast loop is in a cycle, a message loop that has taken up a channel whose topic
  -- goes on the list of broadcast topics waits: whatever requests, messages and sweeps are due, it
  -- stays there, and until the cycle ends nothing changes in the registry or the connections.
  pub registration-waits :
      (s u : Node) (sub : Result Str Unit) (c : TopicChannel)
      → IsWaiting sub c s
      → Within s u
      → (u.loop ≡ s.loop) × (u.work ≡ registering sub c)
  registration-waits s u sub c w run = let (same, v) = Within-waits sub c w run in (same, v.1)
