-- ===== src/Broadcast/Cycles.antt =====
-- app.rs: the properties of the broadcast loop.
use place_home.Prelude.{
  ℕ, zero, suc, ◌+◌, ◌-◌, ◌*◌, ◌≤◌, ◌<◌, ◌≡◌, refl, ap, Bool, true, false, List, [], ◌∷◌, ◌++◌, All,
  All-append, Result, ok, err, arith,
}
use place_home.Prelude.Text.{Str}
use place_home.BroadcastKeys.{BroadcastKey, get_or_rotate_key}
use place_home.BroadcastKeys.Rows.{Table}
use place_home.BroadcastKeys.Invariant.{
  IsSound, HasRandomSizes, get_or_rotate_key-IsSound, sweep_expired-IsSound,
}
use place_home.BroadcastKeys.Lifetime.{Kept, get_or_rotate_key-Kept, sweep_expired-Kept}
use place_home.BroadcastKeys.Token.{Hmac}
use place_home.Beacons.Registry.{second}
use place_home.Beacons.Types.{Json}
use place_home.Broadcast.{
  BroadcastState, Cycle, Action, publish, sleep, payload, publish_all, sleep_rest, sleep_some,
  cycle_with, cycle, run, jitter_secs,
}

-- The publishes among the actions.
abbrev pub published : List Action → List (Str × Json)
published [] = []
published (publish t q p ∷ actions) = (t, p) ∷ published actions
published (sleep n ∷ actions) = published actions

abbrev pub with_payload : Json → List Str → List (Str × Json)
with_payload p [] = []
with_payload p (t ∷ topics) = (t, p) ∷ with_payload p topics

sleep_some-published : (n : ℕ) → published (sleep_some n) ≡ []
unfolding sleep_some
sleep_some-published zero = refl
sleep_some-published (suc n) = refl

sleep_rest-published :
    (j : Bool) (interval elapsed : ℕ) → published (sleep_rest j interval elapsed) ≡ []
unfolding sleep_rest
sleep_rest-published false interval elapsed = refl
sleep_rest-published true interval elapsed = sleep_some-published (interval * second - elapsed)

publish_all-published :
    (j : Bool) (p : Json) (rs : List ℕ) (topics : List Str) (j' : Bool) (interval elapsed : ℕ)
    → published (publish_all j p rs topics ++ sleep_rest j' interval elapsed)
      ≡ with_payload p topics
unfolding publish_all
publish_all-published j p rs [] j' interval elapsed = sleep_rest-published j' interval elapsed
publish_all-published true p rs (t ∷ topics) j' interval elapsed =
    ap (λ l. (t, p) ∷ l) (publish_all-published true p _ topics j' interval elapsed)
publish_all-published false p rs (t ∷ topics) j' interval elapsed =
    ap (λ l. (t, p) ∷ l) (publish_all-published false p _ topics j' interval elapsed)

-- How long actions sleep.
abbrev pub slept : List Action → ℕ
slept [] = 0
slept (sleep n ∷ actions) = n + slept actions
slept (publish t q p ∷ actions) = slept actions

sleep_some-slept : (n : ℕ) → slept (sleep_some n) ≡ n
unfolding sleep_some
sleep_some-slept zero = refl
sleep_some-slept (suc n) = omega arith

-- With jitter, the sleep at the end of a cycle fills up its interval.
pub jitter-slept :
    (interval elapsed : ℕ) → interval * second ≤ elapsed + slept (sleep_rest true interval elapsed)
unfolding sleep_rest
jitter-slept interval elapsed = omega (arith, sleep_some-slept (interval * second - elapsed))

-- What the answer of the keys makes a cycle publish.
abbrev pub expected : Hmac → BroadcastState → Cycle → Result Str BroadcastKey → List (Str × Json)
expected h st c (err e) = []
expected h st c (ok key) = with_payload (payload h st c.token_now key) c.topics

cycle_with-published :
    (h : Hmac) (st : BroadcastState) (c : Cycle) (r : Result Str BroadcastKey × Table)
    → published (cycle_with h st c r).0 ≡ expected h st c r.0
unfolding cycle_with
cycle_with-published h st c (err e, rows) = refl
cycle_with-published h st c (ok key, rows) =
    publish_all-published st.use_jitter _ c.random c.topics st.use_jitter _ c.elapsed

-- A cycle of the broadcast loop publishes to every topic once and in order, all with the same
-- payload, made from the key that it got; with no key it publishes nothing.
pub cycle-published :
    (h : Hmac) (st : BroadcastState) (c : Cycle) (rows : Table)
    → published (cycle h st c rows).0
      ≡ expected h st c (get_or_rotate_key st.key_management c.get rows).0
unfolding cycle
cycle-published h st c rows =
    cycle_with-published h st c (get_or_rotate_key st.key_management c.get rows)

cycle_with-IsSound :
    (h : Hmac) (st : BroadcastState) (c : Cycle) (r : Result Str BroadcastKey × Table)
    → IsSound r.1
    → IsSound (cycle_with h st c r).1
unfolding cycle_with
cycle_with-IsSound h st c (err e, rows) s = s
cycle_with-IsSound h st c (ok key, rows) s = sweep_expired-IsSound c.sweep rows s

-- Through any number of cycles of the broadcast loop a sound table of keys stays sound: columns of
-- the right sizes, no key id twice, and at most one active key.
pub cycles-IsSound :
    (h : Hmac) (st : BroadcastState) (cycles : List Cycle) (rows : Table)
    → All (λ c. HasRandomSizes c.get) cycles
    → IsSound rows
    → IsSound (run h st cycles rows)
unfolding run cycle
cycles-IsSound h st [] rows sizes s = s
cycles-IsSound h st (c ∷ cycles) rows (size, sizes) s = cycles-IsSound h st cycles _ sizes (
    cycle_with-IsSound h st c (get_or_rotate_key st.key_management c.get rows)
      (get_or_rotate_key-IsSound st.key_management c.get rows size s))

module _ (id material : List ℕ) (expires : ℕ) where
  cycle_with-Kept :
      (h : Hmac) (st : BroadcastState) (c : Cycle) (r : Result Str BroadcastKey × Table)
      → c.sweep.now < expires
      → Kept id material expires r.1
      → Kept id material expires (cycle_with h st c r).1
  unfolding cycle_with
  cycle_with-Kept h st c (err e, rows) l k = k
  cycle_with-Kept h st c (ok key, rows) l k =
      sweep_expired-Kept id material expires c.sweep rows l k

  -- A key in the table stays there with its material and its expiry through any number of cycles of
  -- the broadcast loop, rotations and failing statements included, as long as no sweep comes after
  -- its expiry.
  pub cycles-Kept :
      (h : Hmac) (st : BroadcastState) (cycles : List Cycle) (rows : Table)
      → All (λ c. c.sweep.now < expires) cycles
      → Kept id material expires rows
      → Kept id material expires (run h st cycles rows)
  unfolding run cycle
  cycles-Kept h st [] rows early k = k
  cycles-Kept h st (c ∷ cycles) rows (l, early) k = cycles-Kept h st cycles _ early (
      cycle_with-Kept h st c (get_or_rotate_key st.key_management c.get rows) l
        (get_or_rotate_key-Kept id material expires st.key_management c.get rows k))

-- The nanoseconds of a sleep lie within the bound.
abbrev pub SleepsWithin : ℕ → Action → Type 0
SleepsWithin bound (publish t q p) = Unit
SleepsWithin bound (sleep n) = (1 ≤ n) × (n ≤ bound)

sleep_some-SleepsWithin :
    (n interval : ℕ)
    → n ≤ interval * second
    → All (SleepsWithin ((interval + 10) * second)) (sleep_some n)
unfolding sleep_some
sleep_some-SleepsWithin zero interval l = tt
sleep_some-SleepsWithin (suc n) interval l = ((omega arith, omega arith), tt)

sleep_rest-SleepsWithin :
    (j : Bool) (interval elapsed : ℕ)
    → All (SleepsWithin ((interval + 10) * second)) (sleep_rest j interval elapsed)
unfolding sleep_rest
sleep_rest-SleepsWithin false interval elapsed = tt
sleep_rest-SleepsWithin true interval elapsed =
    sleep_some-SleepsWithin (interval * second - elapsed) interval (omega arith)

jitter_secs-bounds :
    (b : ℕ) (rs : List ℕ)
    → (1 ≤ jitter_secs rs * second) × (jitter_secs rs * second ≤ (b + 10) * second)
jitter_secs-bounds b [] = (omega arith, omega arith)
jitter_secs-bounds b (r ∷ rs) = (omega arith, omega arith)

publish_all-SleepsWithin :
    (b : ℕ) (j : Bool) (p : Json) (rs : List ℕ) (topics : List Str)
    → All (SleepsWithin ((b + 10) * second)) (publish_all j p rs topics)
unfolding publish_all
publish_all-SleepsWithin b j p rs [] = tt
publish_all-SleepsWithin b true p rs (t ∷ topics) =
    (jitter_secs-bounds b rs, (tt, publish_all-SleepsWithin b true p _ topics))
publish_all-SleepsWithin b false p rs (t ∷ topics) =
    (tt, publish_all-SleepsWithin b false p _ topics)

cycle_with-SleepsWithin :
    (h : Hmac) (st : BroadcastState) (c : Cycle) (r : Result Str BroadcastKey × Table)
    → All (SleepsWithin ((st.broadcast_interval + 10) * second)) (cycle_with h st c r).0
unfolding cycle_with
cycle_with-SleepsWithin h st c (err e, rows) = tt
cycle_with-SleepsWithin h st c (ok key, rows) =
    All-append (SleepsWithin ((st.broadcast_interval + 10) * second))
      (publish_all st.use_jitter _ c.random c.topics) _
      (publish_all-SleepsWithin st.broadcast_interval st.use_jitter _ c.random c.topics)
      (sleep_rest-SleepsWithin st.use_jitter st.broadcast_interval c.elapsed)

-- Every sleep of a cycle of the broadcast loop takes some time, and at most ten seconds more than
-- the broadcast interval.
pub cycle-SleepsWithin :
    (h : Hmac) (st : BroadcastState) (c : Cycle) (rows : Table)
    → All (SleepsWithin ((st.broadcast_interval + 10) * second)) (cycle h st c rows).0
unfolding cycle
cycle-SleepsWithin h st c rows =
    cycle_with-SleepsWithin h st c (get_or_rotate_key st.key_management c.get rows)
