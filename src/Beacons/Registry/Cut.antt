-- ===== src/Beacons/Registry/Cut.antt =====
-- `check_timeouts` of registry.rs when `select!` gives it up: what holds of the registry after it.
use place_home.Prelude.{
  arith, ◌≢◌, ℕ, zero, suc, ◌≡◌, refl, Option, none, some, List, [], ◌∷◌, Bool-cases, inl, inr,
  subst,
}
use place_home.Prelude.Text.{Str, str_eq_iff, str_has_eq}
use place_home.Prelude.Map.{lookup}
use place_home.Beacons.Registry.{
  BeaconRecord, BeaconRegistry, Await, lock, remove_by, remove_all, awaits, give_up, give_up_by,
  remove_some, stale_ids, check_timeouts, check_timeouts_until,
}

-- A property that the removal of one beacon keeps, given up or not.
module _ (P : BeaconRegistry → Type 0)
    (removed : (id : Str) (reg : BeaconRegistry)
      → P reg
      → P (remove_by (lookup id reg.records) id reg))
    (given_up : (at : Await) (id : Str) (r : BeaconRecord) (reg : BeaconRegistry)
      → lookup id reg.records ≡ some r
      → P reg
      → P (give_up at id r reg)) where
  remove_all-keeps : (ids : List Str) (reg : BeaconRegistry) → P reg → P (remove_all ids reg)
  unfolding remove_all
  remove_all-keeps [] reg h = h
  remove_all-keeps (id ∷ ids) reg h =
      remove_all-keeps ids (remove_by (lookup id reg.records) id reg) (removed id reg h)

  give_up_by-keeps :
      (o : Option BeaconRecord) (at : Await) (id : Str) (ids : List Str) (reg : BeaconRegistry)
      → lookup id reg.records ≡ o
      → P reg
      → P (give_up_by o at id ids reg)
  unfolding give_up_by
  give_up_by-keeps none at id ids reg e h = remove_all-keeps ids reg h
  give_up_by-keeps (some r) at id ids reg e h = elim (Bool-cases (awaits at r)) [
    | inl a ↦ rw a (given_up at id r reg e h)
    | inr a ↦ rw a (
        remove_all-keeps ids (remove_by (some r) id reg)
          (subst (λ o. P (remove_by o id reg)) e (removed id reg h)))
  ]

  remove_some-keeps :
      (n : ℕ) (at : Await) (ids : List Str) (reg : BeaconRegistry)
      → P reg
      → P (remove_some n at ids reg)
  unfolding remove_some
  remove_some-keeps n at [] reg h = h
  remove_some-keeps zero at (id ∷ ids) reg h =
      give_up_by-keeps (lookup id reg.records) at id ids reg refl h
  remove_some-keeps (suc n) at (id ∷ ids) reg h =
      remove_some-keeps n at ids (remove_by (lookup id reg.records) id reg) (removed id reg h)

  pub check_timeouts-keeps : (now : ℕ) (reg : BeaconRegistry) → P reg → P (check_timeouts now reg)
  unfolding check_timeouts
  check_timeouts-keeps now reg h = remove_all-keeps (stale_ids now reg.records) reg h

  pub check_timeouts_until-keeps :
      (now n : ℕ) (at : Await) (reg : BeaconRegistry)
      → P reg
      → P (check_timeouts_until now n at reg)
  unfolding check_timeouts_until
  check_timeouts_until-keeps now n at reg h =
      remove_some-keeps n at (stale_ids now reg.records) reg h

-- At the first stale beacon, while the sweep waits for the lock.
pub give_up-first :
    (now : ℕ) (id : Str) (ids : List Str) (b : BeaconRecord) (reg : BeaconRegistry)
    → stale_ids now reg.records ≡ id ∷ ids
    → lookup id reg.records ≡ some b
    → b.broadcast_topic ≢ []
    → check_timeouts_until now 0 lock reg ≡ give_up lock id b reg
unfolding check_timeouts_until remove_some give_up_by awaits
give_up-first now id ids b reg e f n = ground (arith, e, f, n, str_eq_iff b.broadcast_topic [])
