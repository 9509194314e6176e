-- ===== src/Node.antt =====
-- main.rs and `App` of app.rs: the tasks of a running node that share state. The HTTP gateway sends
-- topic channels to the message loop, which shares the list of broadcast topics, under a lock, with
-- the broadcast loop. The steps of the three interleave freely, except where they wait: a step ends
-- where the task can wait.
pub mod Welcomed
pub mod Honest
pub mod Broadcasts
pub mod Blocked
pub mod Examples
use place_home.Prelude.{
  ℕ, Bool, true, false, ◌||◌, not, Option, none, some, List, [], ◌∷◌, ◌++◌, Result, ok, err, ◌≡◌,
  ◌⊎◌,
}
use place_home.Prelude.Text.{Str, str_eq, str_has_eq}
use place_home.Prelude.Map.{lookup}
use place_home.Services.Types.{Channel}
use place_home.Ca.{Rcgen}
use place_home.Beacons.Types.{TopicType, listen, broadcast, hybrid, TopicChannel}
use place_home.Beacons.Registry
use place_home.Beacons.Registry.{
  BeaconRecord, BeaconRegistry, Await, awaits, enter, register_entered, take_out, clean, abandon,
  stale_ids,
}
use place_home.Beacons.MessageLoop.{Decoder, Loop, message, step}
use place_home.Http.Requests.{DeviceInfo, Request, Response}
use place_home.Http.Handlers.{AppState, World, Meets, dispatch}
use place_home.BroadcastKeys.{BroadcastKey, get_or_rotate_key}
use place_home.BroadcastKeys.Rows.{Table}
use place_home.BroadcastKeys.Token.{Hmac}
use place_home.Broadcast.{BroadcastState, Cycle, Action, cycle}

-- Where the message loop waits.
pub data Work : Type 0 where
  -- in its `select!`
  selecting : Work
  -- in `register_channel`, after the record is there: for the broker or the lock
  registering : (subscribed : Result Str Unit) → TopicChannel → Work
  -- in `check_timeouts`: before the next beacon, and with the record of one taken out
  sweeping : List Str → Work
  removing : (id : Str) → BeaconRecord → List Str → Work

pub record Node : Type 0 where
  pub world : World
  pub loop : Loop
  pub work : Work
  pub table : Table
  -- what the broadcast loop has still to do in a cycle, while it holds its read lock on the topics
  pub cycle_rest : Option (List Action)
  pub actions : List Action
  -- the answers to requests, each with the identifier that was generated for it
  pub answers : List (Str × Response)

-- `BroadcastState` and the message loop get clones of the list of topics, empty at the start.
unfoldable pub start : Option Str → World → Table → Node
start own_gateway_url world table = record {
  world = world;
  loop = record { registry = Registry.new own_gateway_url []; connections = [] };
  work = selecting;
  table = table;
  cycle_rest = none;
  actions = [];
  answers = [];
}

abbrev is_ok : {A : Type 0} → Result Str A → Bool
is_ok (ok a) = true
is_ok (err e) = false

-- Whether `register_channel` takes the write lock on the topics.
pub writes_topics : TopicType → Result Str Unit → Bool
writes_topics listen subscribed = false
writes_topics broadcast subscribed = true
writes_topics hybrid subscribed = is_ok subscribed

pub holding : Result Str BroadcastKey → List Action → Option (List Action)
holding (ok key) actions = some actions
holding (err e) actions = none

module _ (h : Hmac) (st : BroadcastState) where
  -- The broadcast loop gets a key and reads the topics, under the lock, which settles what it does
  -- until the cycle is over; without a key it takes no lock.
  pub begin_cycle : Cycle → Node → Node
  unfolding holding
  begin_cycle c n =
      let key = (get_or_rotate_key st.key_management c.get n.table).0 in
      let (actions, table) =
        cycle h st (record c { topics = n.loop.registry.broadcast_topics }) n.table in
      record n { table = table; cycle_rest = holding key actions }

pub answered : Str → Response × World → Node → Node
answered id (response, world) n = record n { world = world; answers = (id, response) ∷ n.answers }

abbrev pub in_registry : BeaconRegistry → Work → Node → Node
in_registry reg work n = record n { loop = record n.loop { registry = reg }; work = work }

-- `recv` of the channel; its beacon is entered at once.
pub take : ℕ → Result Str Unit → TopicChannel → List TopicChannel → Node → Node
take now subscribed c rest n = record n {
  world = record n.world { topics = record n.world.topics { sent = rest } };
  loop = record n.loop { registry = enter now c n.loop.registry };
  work = registering subscribed c;
}

module _ {K P Q C : Type 0} (r : Rcgen K P Q C) (state : AppState K C)
    (parse_device : List ℕ → Option DeviceInfo) (parse_payload : List ℕ → Option Str)
    (forwarded : Request → Result Str Response) (d : Decoder) (h : Hmac) (st : BroadcastState) where
  pub data Step : Node → Node → Type 0 where
    request :
        (n : Node) (m : Meets K) (req : Request)
        → Step n (
            answered m.uuid (dispatch r m state parse_device parse_payload forwarded req n.world) n)
    take_channel :
        (n : Node) (now : ℕ) (subscribed : Result Str Unit) (c : TopicChannel)
        (rest : List TopicChannel)
        → n.work ≡ selecting
        → n.world.topics.sent ≡ c ∷ rest
        → Step n (take now subscribed c rest n)
    register :
        (n : Node) (subscribed : Result Str Unit) (c : TopicChannel)
        → n.work ≡ registering subscribed c
        → (n.cycle_rest ≡ none) ⊎ (writes_topics c.topic_type subscribed ≡ false)
        → Step n (in_registry (register_entered subscribed c n.loop.registry) selecting n)
    handle_message :
        (n : Node) (now : ℕ) (topic : Str) (payload : List ℕ) (c : Channel)
        → n.work ≡ selecting
        → Step n (record n { loop = step d st.server_url (message now topic payload c) n.loop })
    -- the tick of `check_timeouts`
    begin_sweep :
        (n : Node) (now : ℕ)
        → n.work ≡ selecting
        → Step n (record n { work = sweeping (stale_ids now n.loop.registry.records) })
    take_stale :
        (n : Node) (id : Str) (ids : List Str) (b : BeaconRecord)
        → n.work ≡ sweeping (id ∷ ids)
        → lookup id n.loop.registry.records ≡ some b
        → Step n (in_registry (take_out id n.loop.registry) (removing id b ids) n)
    pass_over :
        (n : Node) (id : Str) (ids : List Str)
        → n.work ≡ sweeping (id ∷ ids)
        → lookup id n.loop.registry.records ≡ none
        → Step n (record n { work = sweeping ids })
    -- the unsubscription is answered, and the lock taken if there is a topic to remove
    remove_stale :
        (n : Node) (id : Str) (ids : List Str) (b : BeaconRecord)
        → n.work ≡ removing id b ids
        → (n.cycle_rest ≡ none) ⊎ (b.broadcast_topic ≡ [])
        → Step n (in_registry (clean b n.loop.registry) (sweeping ids) n)
    -- another branch of `select!` is ready while the sweep waits
    give_up_sweep :
        (n : Node) (id : Str) (ids : List Str) (b : BeaconRecord) (at : Await)
        → n.work ≡ removing id b ids
        → awaits at b ≡ true
        → Step n (in_registry (abandon at b n.loop.registry) selecting n)
    end_sweep : (n : Node) → n.work ≡ sweeping [] → Step n (record n { work = selecting })
    cycle_begins : (n : Node) (c : Cycle) → n.cycle_rest ≡ none → Step n (begin_cycle h st c n)
    act :
        (n : Node) (a : Action) (rest : List Action)
        → n.cycle_rest ≡ some (a ∷ rest)
        → Step n (record n { actions = n.actions ++ a ∷ []; cycle_rest = some rest })
    cycle_ends : (n : Node) → n.cycle_rest ≡ some [] → Step n (record n { cycle_rest = none })

  pub data Reach (s : Node) : Node → Type 0 where
    here : Reach s s
    then : {t u : Node} → Reach s t → Step t u → Reach s u
