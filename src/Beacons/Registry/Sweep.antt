-- ===== src/Beacons/Registry/Sweep.antt =====
-- `check_timeouts` of registry.rs: which beacons go, and which stay.
use place_home.Prelude.{
  ℕ, ◌-◌, Bool, false, ◌≡◌, refl, Option, none, some, List, [], ◌∷◌, arith, eq_iff, ◌==◌, ltb,
  contains, if◌then◌else◌,
}
use place_home.Prelude.Text.{Str, str_has_eq}
use place_home.Prelude.Map.{lookup, lookup-remove, HasDistinctKeys}
use place_home.Beacons.Registry.{
  BeaconRecord, BeaconRegistry, is_stale, stale_ids, remove_by, remove_all, check_timeouts,
  beacon_timeout,
}

pub remove_by-lookup :
    (o : Option BeaconRecord) (id j : Str) (reg : BeaconRegistry)
    → lookup id reg.records ≡ o
    → lookup j (remove_by o id reg).records ≡ (if id == j then none else lookup j reg.records)
unfolding remove_by
remove_by-lookup none id j reg e = ground (arith, eq_iff id j)
remove_by-lookup (some r) id j reg e = lookup-remove id j reg.records

pub remove_all-lookup :
    (ids : List Str) (j : Str) (reg : BeaconRegistry)
    → lookup j (remove_all ids reg).records
      ≡ (if contains j ids then none else lookup j reg.records)
unfolding remove_all contains
remove_all-lookup [] j reg = refl
remove_all-lookup (id ∷ ids) j reg =
    let reg' = remove_by (lookup id reg.records) id reg in
    let here = remove_by-lookup (lookup id reg.records) id j reg refl in
    ground (arith, remove_all-lookup ids j reg', here)

abbrev pub stale_option : ℕ → Option BeaconRecord → Bool
stale_option now none = false
stale_option now (some r) = is_stale now r

pub contains-stale_ids :
    (now : ℕ) (j : Str) (records : List (Str × BeaconRecord))
    → HasDistinctKeys records
    → contains j (stale_ids now records) ≡ stale_option now (lookup j records)
unfolding contains stale_ids lookup
contains-stale_ids now j [] h = refl
contains-stale_ids now j ((id, r) ∷ records) (n, h) =
    ground (arith, contains-stale_ids now j records h, eq_iff id j)

-- The record that a beacon has after a sweep.
abbrev pub survivor : ℕ → Option BeaconRecord → Option BeaconRecord
survivor now none = none
survivor now (some r) = if ltb beacon_timeout (now - r.last_seen) then none else some r

-- If no beacon is registered twice, a sweep removes every beacon that has been silent for more than
-- the timeout, and leaves the record of every other beacon as it was.
pub check_timeouts-exact :
    (now : ℕ) (id : Str) (reg : BeaconRegistry)
    → HasDistinctKeys reg.records
    → lookup id (check_timeouts now reg).records ≡ survivor now (lookup id reg.records)
unfolding check_timeouts
check_timeouts-exact now id reg h = ground (
  arith,
  remove_all-lookup (stale_ids now reg.records) id reg,
  contains-stale_ids now id reg.records h,
)
