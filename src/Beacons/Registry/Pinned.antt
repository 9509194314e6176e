-- ===== src/Beacons/Registry/Pinned.antt =====
-- registry.rs: gateways that are known and held by no record.
use place_home.Prelude.{
  ℕ, true, false, ◌≡◌, ◌≢◌, refl, Option, none, some, ◌∷◌, arith, sym, ◌∙◌, ap, contains,
  Bool-cases, inl, inr, eq_iff,
}
use place_home.Prelude.Text.{Str, str_has_eq}
use place_home.Prelude.Map.{lookup, lookup-insert}
use place_home.Services.Types.{Channel}
use place_home.Beacons.Registry.{
  BeaconRecord, BeaconRegistry, check_timeouts, Await, give_up, check_timeouts_until, remove_by,
  insert_gateway, associate_by, associate_gateway,
}
use place_home.Beacons.Registry.Cut.{check_timeouts-keeps, check_timeouts_until-keeps}
use place_home.Beacons.Registry.Invariant.{
  IsSound, url_of, url_by, contains-evict, url_of-remove_by,
}

-- Known, and held by no record.
pub record IsPinned (g : Str) (reg : BeaconRegistry) : Type 0 where
  pub known : contains g reg.known_gateways ≡ true
  pub free : (j : Str) → url_of reg j ≢ some g

pub same_gateways-IsPinned :
    (g : Str) (reg reg' : BeaconRegistry)
    → ((j : Str) → url_of reg' j ≡ url_of reg j) × (reg'.known_gateways ≡ reg.known_gateways)
    → IsPinned g reg
    → IsPinned g reg'
same_gateways-IsPinned g reg reg' (u, k) h = record {
  known = ap (contains g) k ∙ h.known;
  free = λ j p. h.free j (sym (u j) ∙ p);
}

-- A gateway that is not known is held by no record.
pub IsSound-free :
    (url : Str) (reg : BeaconRegistry)
    → IsSound reg
    → contains url reg.known_gateways ≡ false
    → (j : Str) → url_of reg j ≢ some url
IsSound-free url reg h n j p = ground (arith, h.known j url p)

pub insert_gateway-known :
    (url : Str) (reg : BeaconRegistry) → contains url (insert_gateway url reg).known_gateways ≡ true
unfolding insert_gateway contains
insert_gateway-known url reg = ground (arith, eq_iff url url)

pub insert_gateway-records :
    (url : Str) (reg : BeaconRegistry) → (insert_gateway url reg).records ≡ reg.records
unfolding insert_gateway
insert_gateway-records url reg = ground arith

remove_by-IsPinned :
    (g : Str) (o : Option BeaconRecord) (id : Str) (reg : BeaconRegistry)
    → lookup id reg.records ≡ o
    → IsPinned g reg
    → IsPinned g (remove_by o id reg)
unfolding remove_by
remove_by-IsPinned g none id reg e h = h
remove_by-IsPinned g (some r) id reg e h = record {
  known =
      contains-evict g r.gateway_url reg.known_gateways (λ u. h.free id (ap url_by e ∙ u))
      ∙ h.known;
  free = λ j p. h.free j (url_of-remove_by (some r) id j g reg e p).1;
}

give_up-IsPinned :
    (g : Str) (at : Await) (id : Str) (r : BeaconRecord) (reg : BeaconRegistry)
    → lookup id reg.records ≡ some r
    → IsPinned g reg
    → IsPinned g (give_up at id r reg)
unfolding give_up remove_by
give_up-IsPinned g at id r reg e h = record {
  known = h.known;
  free = λ j p. h.free j (url_of-remove_by (some r) id j g reg e p).1;
}

pub check_timeouts-IsPinned :
    (g : Str) (now : ℕ) (reg : BeaconRegistry)
    → IsPinned g reg
    → IsPinned g (check_timeouts now reg)
check_timeouts-IsPinned g now reg h =
    check_timeouts-keeps (IsPinned g)
      (λ id reg. remove_by-IsPinned g (lookup id reg.records) id reg refl) (give_up-IsPinned g) now
      reg h

pub check_timeouts_until-IsPinned :
    (g : Str) (now n : ℕ) (at : Await) (reg : BeaconRegistry)
    → IsPinned g reg
    → IsPinned g (check_timeouts_until now n at reg)
check_timeouts_until-IsPinned g now n at reg h =
    check_timeouts_until-keeps (IsPinned g)
      (λ id reg. remove_by-IsPinned g (lookup id reg.records) id reg refl) (give_up-IsPinned g) now
      n at reg h

pub insert_gateway-IsPinned :
    (g url : Str) (reg : BeaconRegistry) → IsPinned g reg → IsPinned g (insert_gateway url reg)
unfolding insert_gateway contains
insert_gateway-IsPinned g url reg h = elim (Bool-cases (contains url reg.known_gateways)) [
  | inl e ↦ rw e h
  | inr e ↦ rw e (record { known = ground (arith, h.known); free = h.free })
]

associate_by-IsPinned :
    (g : Str) (o : Option BeaconRecord) (id url : Str) (c : Channel) (reg : BeaconRegistry)
    → url ≢ g
    → IsPinned g reg
    → IsPinned g (associate_by o id url c reg)
unfolding associate_by
associate_by-IsPinned g none id url c reg n h = record { known = h.known; free = h.free }
associate_by-IsPinned g (some r) id url c reg n h = record {
  known = h.known;
  free = λ j p.
      let r' = record r { gateway_url = some url; gateway_shutdown_tx = some c } in
      ground (arith, lookup-insert id j r' reg.records, h.free j);
}

pub associate_gateway-IsPinned :
    (g id url : Str) (c : Channel) (reg : BeaconRegistry)
    → url ≢ g
    → IsPinned g reg
    → IsPinned g (associate_gateway id url c reg)
unfolding associate_gateway
associate_gateway-IsPinned g id url c reg n h =
    associate_by-IsPinned g (lookup id reg.records) id url c reg n h

-- The sender for a beacon that is not registered is dropped.
pub associate_gateway-unregistered :
    (id url : Str) (c : Channel) (reg : BeaconRegistry)
    → lookup id reg.records ≡ none
    → associate_gateway id url c reg ≡ record reg { closed = c ∷ reg.closed }
unfolding associate_gateway associate_by
associate_gateway-unregistered id url c reg e = rw e refl
