-- ===== src/Node/Honest.antt =====
-- main.rs: what holds of a running node at any time.
use mathlib.Core.List.{mem-cons_self}
use place_home.Prelude.{
  ℕ, Bool, ◌≡◌, ◌≢◌, ◌⊎◌, inl, inr, refl, ap, Option, none, some, List, [], ◌∷◌, ◌++◌, Result, ok,
  err, All, All-append, contains, subst,
}
use place_home.Prelude.Text.{Str, str_has_eq}
use place_home.Prelude.Map.{lookup}
use place_home.Ca.{Rcgen}
use place_home.Beacons.Types.{Json, TopicChannel, listen}
use place_home.Beacons.Registry
use place_home.Beacons.Registry.{
  BeaconRecord, BeaconRegistry, stale_ids, enter, register_entered, take_out, clean, abandon,
}
use place_home.Beacons.Registry.Topics.Calls.{
  TopicsMatch, IsMade, HasOwn, enter-TopicsMatch, register_entered-TopicsMatch,
  take_out-TopicsMatch, clean-TopicsMatch,
}
use place_home.Beacons.Registry.Topics.From.{AllTopics, register_topic-AllTopics, drop_topic-All}
use place_home.Beacons.MessageLoop.{Decoder}
use place_home.Beacons.MessageLoop.Topics.{message-TopicsMatch, message-AllTopics}
use place_home.Http.Requests.{DeviceInfo, Request, Response}
use place_home.Http.Handlers.{AppState, World, dispatch, broadcast_topic, register_topics}
use place_home.BroadcastKeys.{BroadcastKey}
use place_home.BroadcastKeys.Token.{Hmac}
use place_home.BroadcastKeys.Rows.{Table}
use place_home.Broadcast.{BroadcastState, Cycle, Action, cycle, publish, sleep, payload}
use place_home.Broadcast.Cycles.{published, expected, with_payload, cycle-published}
use place_home.Node.{
  Work, selecting, registering, sweeping, removing, Node, start, answered, take, in_registry,
  holding, begin_cycle, Step, request, take_channel, register, handle_message, begin_sweep,
  take_stale, pass_over, remove_stale, give_up_sweep, end_sweep, cycle_begins, act, cycle_ends,
  Reach, here, then,
}
use place_home.Node.Welcomed.{
  Welcomed, Welcomed-later, IsInvitation, register_topics-All, dispatch-Announces,
}

-- A topic of a device that was told its identifier.
abbrev pub Told : List (Str × Response) → Str → Type 0
Told answers t = (id : Str) × (t ≡ broadcast_topic id) × Welcomed id answers

abbrev Sent : List (Str × Response) → TopicChannel → Type 0
Sent answers c = IsMade c × Welcomed c.beacon_id answers

Told-of_Sent :
    (answers : List (Str × Response)) (c : TopicChannel)
    → Sent answers c
    → c.topic_type ≢ listen
    → Told answers c.topic.topic
Told-of_Sent answers c (inl l, w) n = absurd (n l)
Told-of_Sent answers c (inr (b, t), w) n = (c.beacon_id, t, w)

abbrev IsReady : List (Str × Response) → Work → BeaconRegistry → Type 0
IsReady answers selecting reg = Unit
IsReady answers (registering subscribed c) reg =
    Sent answers c × ((b : BeaconRecord) × (lookup c.beacon_id reg.records ≡ some b))
IsReady answers (sweeping ids) reg = Unit
IsReady answers (removing id b ids) reg = HasOwn id b × (lookup id reg.records ≡ none)

abbrev pub rest_of : Option (List Action) → List Action
rest_of none = []
rest_of (some actions) = actions

abbrev ToldAll : List (Str × Response) → List Action → Type 0
ToldAll answers actions = All (λ p. Told answers p.0) (published actions)

-- What holds of a node at any time.
pub record IsHonest (n : Node) : Type 0 where
  pub queue : All (Sent n.answers) n.world.topics.sent
  pub work : IsReady n.answers n.work n.loop.registry
  pub topics : AllTopics (Told n.answers) n.loop.registry
  pub matches : TopicsMatch n.loop.registry
  pub said : ToldAll n.answers n.actions
  pub planned : ToldAll n.answers (rest_of n.cycle_rest)

All-map {ℓ} :
    {A : Type ℓ} (P Q : A → Type 0) (l : List A) → ((a : A) → P a → Q a) → All P l → All Q l
All-map P Q [] f h = tt
All-map P Q (a ∷ l) f (p, h) = (f a p, All-map P Q l f h)

IsReady-later :
    (a b : List (Str × Response)) (w : Work) (reg : BeaconRegistry)
    → ((c : TopicChannel) → Sent a c → Sent b c)
    → IsReady a w reg
    → IsReady b w reg
IsReady-later a b selecting reg f h = tt
IsReady-later a b (registering subscribed c) reg f (p, q) = (f c p, q)
IsReady-later a b (sweeping ids) reg f h = tt
IsReady-later a b (removing id r ids) reg f h = h

published-append : (xs ys : List Action) → published (xs ++ ys) ≡ published xs ++ published ys
published-append [] ys = refl
published-append (publish t q p ∷ xs) ys = ap (λ l. (t, p) ∷ l) (published-append xs ys)
published-append (sleep n ∷ xs) ys = published-append xs ys

All-parts : {A : Type 0} (P : A → Type 0) (xs ys : List A) → All P (xs ++ ys) → All P xs × All P ys
All-parts P [] ys h = (tt, h)
All-parts P (x ∷ xs) ys (p, h) = let (a, b) = All-parts P xs ys h in ((p, a), b)

pub start-IsHonest :
    (own : Option Str) (world : World) (table : Table)
    → world.topics.sent ≡ []
    → IsHonest (start own world table)
unfolding start Registry.new contains lookup
start-IsHonest own world table e = record {
  queue = rw e tt;
  work = tt;
  topics = tt;
  matches = λ id t p. absurd cc;
  said = tt;
  planned = tt;
}

answered-IsHonest :
    (id : Str) (response : Response) (world : World) (n : Node)
    → ((world.topics ≡ n.world.topics)
        ⊎ (IsInvitation id response
            × ((b : Bool) × (world.topics ≡ register_topics b id n.world.topics))))
    → IsHonest n
    → IsHonest (answered id (response, world) n)
unfolding answered
answered-IsHonest id response world n a h =
    let later = λ (j : Str). Welcomed-later j (id, response) n.answers in
    let now : List (Str × Response) = (id, response) ∷ n.answers in
    let up : (c : TopicChannel) → Sent n.answers c → Sent now c =
      λ c p. (p.0, later c.beacon_id p.1) in
    let told : (t : Str) → Told n.answers t → Told now t = λ t p. (p.0, p.1, later p.0 p.2) in
    record {
      queue = elim a [
        | inl same ↦ rw same (All-map (Sent n.answers) (Sent now) n.world.topics.sent up h.queue)
        | inr (i, (b, new)) ↦
            let w : Welcomed id now = (response, i, mem-cons_self) in
            rw new (
              register_topics-All (Sent now) b id n.world.topics (inl refl, w) (inr (refl, refl), w)
                (All-map (Sent n.answers) (Sent now) n.world.topics.sent up h.queue))
      ];
      work = IsReady-later n.answers now n.work n.loop.registry up h.work;
      topics = All-map (Told n.answers) (Told now) n.loop.registry.broadcast_topics told h.topics;
      matches = h.matches;
      said =
          All-map (λ p. Told n.answers p.0) (λ p. Told now p.0) (published n.actions)
            (λ p. told p.0) h.said;
      planned =
          All-map (λ p. Told n.answers p.0) (λ p. Told now p.0) (published (rest_of n.cycle_rest))
            (λ p. told p.0) h.planned;
    }

take-IsHonest :
    (now : ℕ) (sub : Result Str Unit) (c : TopicChannel) (rest : List TopicChannel) (n : Node)
    → n.world.topics.sent ≡ c ∷ rest
    → IsHonest n
    → IsHonest (take now sub c rest n)
unfolding take
take-IsHonest now sub c rest n e h =
    let q : All (Sent n.answers) (c ∷ rest) = subst (All (Sent n.answers)) e h.queue in
    let (matches, there) = enter-TopicsMatch now c n.loop.registry h.matches in
    record {
      queue = q.1;
      work = (q.0, there);
      topics = h.topics;
      matches = matches;
      said = h.said;
      planned = h.planned;
    }

-- A change of the registry and of where the message loop stands.
in_registry-IsHonest :
    (reg : BeaconRegistry) (work : Work) (n : Node)
    → IsReady n.answers work reg
    → AllTopics (Told n.answers) reg
    → TopicsMatch reg
    → IsHonest n
    → IsHonest (in_registry reg work n)
in_registry-IsHonest reg work n w t m h = record {
  queue = h.queue;
  work = w;
  topics = t;
  matches = m;
  said = h.said;
  planned = h.planned;
}

register-IsHonest :
    (sub : Result Str Unit) (c : TopicChannel) (n : Node)
    → n.work ≡ registering sub c
    → IsHonest n
    → IsHonest (in_registry (register_entered sub c n.loop.registry) selecting n)
register-IsHonest sub c n e h =
    let (sent, (b, there)) : IsReady n.answers (registering sub c) n.loop.registry =
      subst (λ w. IsReady n.answers w n.loop.registry) e h.work in
    in_registry-IsHonest (register_entered sub c n.loop.registry) selecting n tt
      (register_topic-AllTopics (Told n.answers) c.topic_type sub c.beacon_id c.topic.topic _
        n.loop.registry (Told-of_Sent n.answers c sent) h.topics)
      (register_entered-TopicsMatch sub c n.loop.registry b sent.0 there h.matches) h

remove_stale-IsHonest :
    (id : Str) (b : BeaconRecord) (ids : List Str) (n : Node)
    → n.work ≡ removing id b ids
    → IsHonest n
    → IsHonest (in_registry (clean b n.loop.registry) (sweeping ids) n)
remove_stale-IsHonest id b ids n e h =
    let (own, gone) : IsReady n.answers (removing id b ids) n.loop.registry =
      subst (λ w. IsReady n.answers w n.loop.registry) e h.work in
    in_registry-IsHonest (clean b n.loop.registry) (sweeping ids) n tt
      (drop_topic-All (Told n.answers) b.broadcast_topic n.loop.registry.broadcast_topics h.topics)
      (clean-TopicsMatch id b n.loop.registry gone own h.matches) h

with_payload-All :
    (P : Str → Type 0) (j : Json) (topics : List Str)
    → All P topics
    → All (λ p. P p.0) (with_payload j topics)
with_payload-All P j [] h = tt
with_payload-All P j (t ∷ topics) (p, h) = (p, with_payload-All P j topics h)

expected-All :
    (P : Str → Type 0) (h : Hmac) (st : BroadcastState) (c : Cycle) (key : Result Str BroadcastKey)
    → All P c.topics
    → All (λ p. P p.0) (expected h st c key)
expected-All P h st c (err e) a = tt
expected-All P h st c (ok key) a = with_payload-All P _ c.topics a

holding-ToldAll :
    (answers : List (Str × Response)) (key : Result Str BroadcastKey) (actions : List Action)
    → ToldAll answers actions
    → ToldAll answers (rest_of (holding key actions))
unfolding holding
holding-ToldAll answers (ok key) actions h = h
holding-ToldAll answers (err e) actions h = tt

pub begin_cycle-IsHonest :
    (m : Hmac) (st : BroadcastState) (c : Cycle) (n : Node)
    → IsHonest n
    → IsHonest (begin_cycle m st c n)
unfolding begin_cycle
begin_cycle-IsHonest m st c n h =
    let c' = record c { topics = n.loop.registry.broadcast_topics } in
    record {
      queue = h.queue;
      work = h.work;
      topics = h.topics;
      matches = h.matches;
      said = h.said;
      planned =
          holding-ToldAll n.answers _ (cycle m st c' n.table).0 (
            rw (cycle-published m st c' n.table)
              (expected-All (Told n.answers) m st c' _ h.topics));
    }

act-IsHonest :
    (a : Action) (rest : List Action) (n : Node)
    → n.cycle_rest ≡ some (a ∷ rest)
    → IsHonest n
    → IsHonest (record n { actions = n.actions ++ a ∷ []; cycle_rest = some rest })
act-IsHonest a rest n e h =
    let p : ToldAll n.answers ((a ∷ []) ++ rest) =
      subst (λ o. ToldAll n.answers (rest_of o)) e h.planned in
    let (first, others) =
      All-parts (λ q. Told n.answers q.0) (published (a ∷ [])) (published rest)
        (rw (published-append (a ∷ []) rest) at p) in
    record {
      queue = h.queue;
      work = h.work;
      topics = h.topics;
      matches = h.matches;
      said =
          rw (published-append n.actions (a ∷ []))
            (All-append (λ q. Told n.answers q.0) (published n.actions) _ h.said first);
      planned = others;
    }

-- A change of where the loops stand.
at-IsHonest :
    (work : Work) (rest : Option (List Action)) (n : Node)
    → IsReady n.answers work n.loop.registry
    → ToldAll n.answers (rest_of rest)
    → IsHonest n
    → IsHonest (record n { work = work; cycle_rest = rest })
at-IsHonest work rest n w p h = record {
  queue = h.queue;
  work = w;
  topics = h.topics;
  matches = h.matches;
  said = h.said;
  planned = p;
}

module _ {K P Q C : Type 0} (r : Rcgen K P Q C) (state : AppState K C)
    (parse_device : List ℕ → Option DeviceInfo) (parse_payload : List ℕ → Option Str)
    (forwarded : Request → Result Str Response) (d : Decoder) (h : Hmac) (st : BroadcastState) where
  Step-IsHonest :
      {n u : Node}
      → Step r state parse_device parse_payload forwarded d h st n u
      → IsHonest n
      → IsHonest u
  Step-IsHonest (request n m req) i =
      let out = dispatch r m state parse_device parse_payload forwarded req n.world in
      answered-IsHonest m.uuid out.0 out.1 n
        (elim (dispatch-Announces r m state parse_device parse_payload forwarded req n.world) [
          | inl same ↦ inl same
          | inr (invitation, new) ↦ inr (invitation, (state.has_topic_tx, new))
        ])
        i
  Step-IsHonest (take_channel n now s c rest w e) i = take-IsHonest now s c rest n e i
  Step-IsHonest (register n s c w l) i = register-IsHonest s c n w i
  Step-IsHonest (handle_message n now topic payload c w) i = record {
    queue = i.queue;
    work = rw w tt;
    topics = message-AllTopics (Told n.answers) d st.server_url now topic payload c n.loop i.topics;
    matches = message-TopicsMatch d st.server_url now topic payload c n.loop i.matches;
    said = i.said;
    planned = i.planned;
  }
  Step-IsHonest (begin_sweep n now w) i =
      at-IsHonest (sweeping (stale_ids now n.loop.registry.records)) n.cycle_rest n tt i.planned i
  Step-IsHonest (take_stale n id ids b w e) i =
      let (m, own, gone) = take_out-TopicsMatch id b n.loop.registry e i.matches in
      in_registry-IsHonest (take_out id n.loop.registry) (removing id b ids) n (own, gone) i.topics
        m i
  Step-IsHonest (pass_over n id ids w e) i =
      at-IsHonest (sweeping ids) n.cycle_rest n tt i.planned i
  Step-IsHonest (remove_stale n id ids b w l) i = remove_stale-IsHonest id b ids n w i
  Step-IsHonest (give_up_sweep n id ids b at w a) i =
      in_registry-IsHonest (abandon at b n.loop.registry) selecting n tt i.topics i.matches i
  Step-IsHonest (end_sweep n w) i = at-IsHonest selecting n.cycle_rest n tt i.planned i
  Step-IsHonest (cycle_begins n c e) i = begin_cycle-IsHonest h st c n i
  Step-IsHonest (act n a rest e) i = act-IsHonest a rest n e i
  Step-IsHonest (cycle_ends n e) i = at-IsHonest n.work none n i.work tt i

  pub Reach-IsHonest :
      {s n : Node}
      → IsHonest s
      → Reach r state parse_device parse_payload forwarded d h st s n
      → IsHonest n
  Reach-IsHonest i here = i
  Reach-IsHonest i (then run step) = Step-IsHonest step (Reach-IsHonest i run)
