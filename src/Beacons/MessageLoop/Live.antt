-- ===== src/Beacons/MessageLoop/Live.antt =====
-- app.rs: what holds the connections that the loop has made.
use place_home.Prelude.{Option, List, All, nat_eq}
use place_home.Prelude.Text.{Str, str_has_eq}
use place_home.Prelude.Map.{lookup}
use place_home.Beacons.Registry.{BeaconRegistry, new}
use place_home.Beacons.Registry.Invariant.{IsSound}
use place_home.Beacons.Registry.Held.{HeldIfOpen}
use place_home.Beacons.MessageLoop.{Connection}
use place_home.Beacons.MessageLoop.Pinned.{start}

abbrev HeldBy : BeaconRegistry → Connection → Type 0
HeldBy reg k = HeldIfOpen k.gateway_url k.shutdown reg

-- Every connection made is closed or held by the record of a beacon.
abbrev pub AllHeld : List Connection → BeaconRegistry → Type 0
AllHeld ks reg = All (HeldBy reg) ks

pub start-IsSound : (own : Option Str) (topics : List Str) → IsSound (start own topics).registry
unfolding new lookup
start-IsSound own topics = record {
  keys = tt;
  known = λ id g p. absurd cc;
  unique = λ i j g p q. absurd cc;
}
