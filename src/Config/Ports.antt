-- ===== src/Config/Ports.antt =====
-- config.rs and `build_brokerage_info`: the ports on which the broker listens, the client connects
-- and the devices are sent.
use place_home.Prelude.{
  ℕ, ◌^◌, ◌<◌, ◌≡◌, ◌↔◌, refl, true, Option, none, some, if◌then◌else◌, Bool-cases, Option-cases,
  inl, inr, arith,
}
use place_home.Prelude.Text.{Str, str}
use place_home.Config.{
  Env, number_or, trimmed_number_or, or_number, flag_or, plaintext, mutual_tls, client_from_env,
  broker_from_env, http_from_env, beacon_management_from_env, build_brokerage_info,
}
use place_home.Config.Parsing.{trim, eq_ignore_ascii_case, parse_uint, parse_uint-lt}

-- With `MQTT_TLS_ENABLED` set to any text, the client connects to the port on which the broker
-- listens, over mutual TLS exactly if the broker wants TLS, with the broker's user and password.
pub client-meets_broker :
    {Ip : Type 0} (parse_ip : Str → Option Ip) (env : Env) (dir value pem : Str)
    → env (str "MQTT_TLS_ENABLED") ≡ some value
    → let client = client_from_env env dir in
      let broker = broker_from_env parse_ip env dir in
      (client.port ≡ (build_brokerage_info broker pem).port)
      × (client.tls_mode ≡ (if broker.tls_enabled then mutual_tls else plaintext))
      × (client.username ≡ broker.username)
      × (client.password ≡ broker.password)
unfolding client_from_env broker_from_env build_brokerage_info flag_or
client-meets_broker parse_ip env dir value pem e = rw e (refl, refl, refl, refl)

-- With `MQTT_TLS_ENABLED` unset, the broker wants TLS and the client connects in plaintext, and
-- their ports agree exactly if the two configured ports are the same.
pub client-misses_broker :
    {Ip : Type 0} (parse_ip : Str → Option Ip) (env : Env) (dir pem : Str)
    → env (str "MQTT_TLS_ENABLED") ≡ none
    → let client = client_from_env env dir in
      let broker = broker_from_env parse_ip env dir in
      (client.tls_mode ≡ plaintext)
      × (broker.tls_enabled ≡ true)
      × ((client.port ≡ (build_brokerage_info broker pem).port) ↔ (broker.port ≡ broker.mqtts_port))
unfolding client_from_env broker_from_env build_brokerage_info flag_or eq_ignore_ascii_case trim
client-misses_broker parse_ip env dir pem e = rw e (refl, refl, (λ p. p, λ p. p))

or_number-lt :
    (w default : ℕ) (s : Str) → default < 2 ^ w → or_number (parse_uint w s) default < 2 ^ w
or_number-lt w default s h = elim (Option-cases (parse_uint w s)) [
  | inl n ↦ rw n h
  | inr (n, e) ↦ rw e (parse_uint-lt w n s e)
]

-- Whatever the environment holds, every port and the broadcast interval fit 16 bits, and the
-- intervals of the keys 32 bits.
pub from_env-bounds :
    {Ip : Type 0} (parse_ip : Str → Option Ip) (env : Env) (dir : Str)
    → let client = client_from_env env dir in
      let broker = broker_from_env parse_ip env dir in
      let http = http_from_env env in
      let beacons = beacon_management_from_env env in
      (client.port < 2 ^ 16)
      × (broker.port < 2 ^ 16)
      × (broker.mqtts_port < 2 ^ 16)
      × (http.port < 2 ^ 16)
      × (http.upstream_port < 2 ^ 16)
      × (beacons.broadcast_interval < 2 ^ 16)
      × (beacons.key_rotation_interval < 2 ^ 32)
      × (beacons.key_expiry < 2 ^ 32)
unfolding client_from_env broker_from_env http_from_env beacon_management_from_env number_or
    trimmed_number_or
from_env-bounds parse_ip env dir = (
  elim (Bool-cases (flag_or env (str "MQTT_TLS_ENABLED") (str "false"))) [
    | inl e ↦ rw e (or_number-lt 16 8883 _ (omega arith))
    | inr e ↦ rw e (or_number-lt 16 1883 _ (omega arith))
  ],
  or_number-lt 16 1883 _ (omega arith),
  or_number-lt 16 8883 _ (omega arith),
  or_number-lt 16 8080 _ (omega arith),
  or_number-lt 16 3000 _ (omega arith),
  or_number-lt 16 60 _ (omega arith),
  or_number-lt 32 3600 _ (omega arith),
  or_number-lt 32 7200 _ (omega arith),
)
