-- ===== src/Broker/Interfaces.antt =====
-- `get_local_ips` of services/mqtt_brokerage/mosquitto_brokerage_service.rs, over the list that
-- `getifaddrs` gives.
use place_home.Prelude.{Bool, Option, none, some, List, [], ◌∷◌, ◌++◌, if◌then◌else◌}

-- `sockaddr`, by its family.
pub data Sockaddr (Ip : Type 0) : Type 0 where
  inet inet6 : Ip → Sockaddr Ip
  other : Sockaddr Ip

-- `std::net::IpAddr`
pub record IpAddr (Ip : Type 0) : Type 0 where
  pub is_loopback : Ip → Bool
  pub localhost : Ip

module _ {Ip : Type 0} (i : IpAddr Ip) where
  ip_of : Option (Sockaddr Ip) → List Ip
  ip_of none = []
  ip_of (some other) = []
  ip_of (some (inet ip)) = if i.is_loopback ip then [] else ip ∷ []
  ip_of (some (inet6 ip)) = if i.is_loopback ip then [] else ip ∷ []

  found : List (Option (Sockaddr Ip)) → List Ip
  unfolding ip_of
  found [] = []
  found (a ∷ rest) = ip_of a ++ found rest

  -- None if `getifaddrs` fails.
  unfoldable pub get_local_ips : Option (List (Option (Sockaddr Ip))) → List Ip
  unfolding found
  get_local_ips none = i.localhost ∷ []
  get_local_ips (some addresses) = found addresses ++ i.localhost ∷ []
