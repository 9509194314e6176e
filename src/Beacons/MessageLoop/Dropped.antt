-- ===== src/Beacons/MessageLoop/Dropped.antt =====
-- app.rs: a gateway whose connection is dropped as soon as it is made.
use place_home.Prelude.{◌≡◌, Option, none, some, List, nat_eq}
use place_home.Prelude.Text.{Str, str_has_eq}
use place_home.Prelude.Map.{lookup}
use place_home.Beacons.Registry.{BeaconRecord}

-- The topic names no beacon, or one that is not registered.
abbrev pub NoBeacon : Option Str → List (Str × BeaconRecord) → Type 0
NoBeacon none records = Unit
NoBeacon (some id) records = lookup id records ≡ none
