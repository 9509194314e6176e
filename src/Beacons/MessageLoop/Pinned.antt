-- ===== src/Beacons/MessageLoop/Pinned.antt =====
-- app.rs and registry.rs: the registry through the loop, and gateways that no record holds.
use place_home.Prelude.{
  ℕ, true, ◌≡◌, ◌≢◌, refl, Option, none, some, List, [], ◌∷◌, arith, sym, ◌∙◌, ap, contains,
  if◌then◌else◌, Bool-cases, inl, inr, eq_iff, ◌==◌, nat_eq,
}
use place_home.Prelude.Text.{Str, str, str_has_eq, strip_suffix}
use place_home.Prelude.Map.{lookup}
use place_home.Services.Types.{Channel}
use place_home.Beacons.Types.{Json}
use place_home.Beacons.Registry.{
  BeaconRegistry, new, register_channel, update_last_seen, is_gateway_known, insert_gateway,
}
use place_home.Beacons.Registry.Invariant.{
  IsSound, url_of, url_by, register_channel-IsSound, check_timeouts-IsSound,
  check_timeouts_until-IsSound, update_last_seen-IsSound, insert_gateway-IsSound,
  associate_gateway-IsSound,
}
use place_home.Beacons.Registry.Gateways.{register_channel-gateways, update_last_seen-gateways}
use place_home.Beacons.Registry.Pinned.{
  IsPinned, same_gateways-IsPinned, IsSound-free, insert_gateway-known, insert_gateway-records,
  check_timeouts-IsPinned, check_timeouts_until-IsPinned, insert_gateway-IsPinned,
  associate_gateway-IsPinned,
}
use place_home.Beacons.MessageLoop.{
  Decoder, Connection, Loop, Event, channel, tick, given_up, message, refresh, associate,
  handle_gateway, connect, step, run,
}

refresh-IsPinned :
    (g : Str) (now : ℕ) (o : Option Str) (reg : BeaconRegistry)
    → IsPinned g reg
    → IsPinned g (refresh now o reg)
unfolding refresh
refresh-IsPinned g now none reg h = h
refresh-IsPinned g now (some id) reg h =
    same_gateways-IsPinned g reg (update_last_seen now id reg)
      (update_last_seen-gateways now id reg) h

refresh-IsSound :
    (now : ℕ) (o : Option Str) (reg : BeaconRegistry) → IsSound reg → IsSound (refresh now o reg)
unfolding refresh
refresh-IsSound now none reg h = h
refresh-IsSound now (some id) reg h = update_last_seen-IsSound now id reg h

associate-IsSound :
    (o : Option Str) (url : Str) (c : Channel) (reg : BeaconRegistry)
    → contains url reg.known_gateways ≡ true
    → ((j : Str) → url_of reg j ≢ some url)
    → IsSound reg
    → IsSound (associate o url c reg)
unfolding associate
associate-IsSound none url c reg k n h = record {
  keys = h.keys;
  known = h.known;
  unique = h.unique;
}
associate-IsSound (some id) url c reg k n h = associate_gateway-IsSound id url c reg k n h

handle_gateway-IsSound :
    (server : Str) (o url : Option Str) (payload : Json) (c : Channel) (s : Loop)
    → IsSound s.registry
    → IsSound (handle_gateway server o url payload c s).registry
unfolding handle_gateway is_gateway_known
handle_gateway-IsSound server o none payload c s h = h
handle_gateway-IsSound server o (some url) payload c s h =
    elim (Bool-cases (contains url s.registry.known_gateways)) [
      | inl e ↦ rw e h
      | inr e ↦ rw e (
          associate-IsSound o url c (insert_gateway url s.registry)
            (insert_gateway-known url s.registry)
            (λ j p.
              IsSound-free url s.registry h e j
                (ap (λ m. url_by (lookup j m)) (sym (insert_gateway-records url s.registry)) ∙ p))
            (insert_gateway-IsSound url s.registry h))
    ]

step-IsSound :
    (d : Decoder) (server : Str) (e : Event) (s : Loop)
    → IsSound s.registry
    → IsSound (step d server e s).registry
unfolding step
step-IsSound d server (channel now sub c) s h = register_channel-IsSound now sub c s.registry h
step-IsSound d server (tick now) s h = check_timeouts-IsSound now s.registry h
step-IsSound d server (given_up now n at) s h = check_timeouts_until-IsSound now n at s.registry h
step-IsSound d server (message now topic payload c) s h =
    handle_gateway-IsSound server (strip_suffix (str "/rec") topic) _ _ c _
      (refresh-IsSound now (strip_suffix (str "/rec") topic) s.registry h)

-- From a sound registry, through any sequence of handshakes, messages and sweeps, complete or given
-- up on the way: no beacon is registered twice, every gateway that a record holds is known, and no
-- two records hold the same gateway.
pub run-IsSound :
    (d : Decoder) (server : Str) (events : List Event) (s : Loop)
    → IsSound s.registry
    → IsSound (run d server events s).registry
unfolding run
run-IsSound d server [] s h = h
run-IsSound d server (e ∷ events) s h =
    run-IsSound d server events (step d server e s) (step-IsSound d server e s h)

associate-IsPinned :
    (g : Str) (o : Option Str) (url : Str) (c : Channel) (reg : BeaconRegistry)
    → url ≢ g
    → IsPinned g reg
    → IsPinned g (associate o url c reg)
unfolding associate
associate-IsPinned g none url c reg n h = record { known = h.known; free = h.free }
associate-IsPinned g (some id) url c reg n h = associate_gateway-IsPinned g id url c reg n h

-- The connections that were made to a gateway.
abbrev pub connections_to : Str → List Connection → ℕ
connections_to g [] = 0
connections_to g (k ∷ ks) =
    let rest = connections_to g ks in if k.gateway_url == g then ℕ.suc rest else rest

abbrev pub Stays : Str → Loop → Loop → Type 0
Stays g s s' =
    IsPinned g s'.registry × (connections_to g s'.connections ≡ connections_to g s.connections)

handle_gateway-Stays :
    (g server : Str) (o url : Option Str) (payload : Json) (c : Channel) (s : Loop)
    → IsPinned g s.registry
    → Stays g s (handle_gateway server o url payload c s)
unfolding handle_gateway is_gateway_known connect
handle_gateway-Stays g server o none payload c s h = (h, refl)
handle_gateway-Stays g server o (some url) payload c s h =
    elim (Bool-cases (contains url s.registry.known_gateways)) [
      | inl e ↦ rw e (h, refl)
      | inr e ↦
          let other : url ≢ g = λ p. ground (arith, h.known) in
          rw e (
            associate-IsPinned g o url c (insert_gateway url s.registry) other
                (insert_gateway-IsPinned g url s.registry h),
            ground (arith, eq_iff url g),
          )
    ]

step-Stays :
    (d : Decoder) (g server : Str) (e : Event) (s : Loop)
    → IsPinned g s.registry
    → Stays g s (step d server e s)
unfolding step
step-Stays d g server (channel now sub c) s h = (
  same_gateways-IsPinned g s.registry (register_channel now sub c s.registry)
      (register_channel-gateways now sub c s.registry) h,
  refl,
)
step-Stays d g server (tick now) s h = (check_timeouts-IsPinned g now s.registry h, refl)
step-Stays d g server (given_up now n at) s h =
    (check_timeouts_until-IsPinned g now n at s.registry h, refl)
step-Stays d g server (message now topic payload c) s h =
    handle_gateway-Stays g server (strip_suffix (str "/rec") topic) _ _ c _
      (refresh-IsPinned g now (strip_suffix (str "/rec") topic) s.registry h)

pub run-Stays :
    (d : Decoder) (g server : Str) (events : List Event) (s : Loop)
    → IsPinned g s.registry
    → Stays g s (run d server events s)
unfolding run
run-Stays d g server [] s h = (h, refl)
run-Stays d g server (e ∷ events) s h =
    let (h', n) = step-Stays d g server e s h in
    let (h'', n') = run-Stays d g server events (step d server e s) h' in (h'', n' ∙ n)

-- The registry that the loop begins with.
abbrev pub start : Option Str → List Str → Loop
start own topics = record { registry = new own topics; connections = [] }
