-- ===== src/Http/Requests.antt =====
-- internals/types.rs, requests.rs and response.rs of services/beacon_management: requests, and what
-- is read of them. The JSON of a body is read by a parameter.
use place_home.Prelude.{
  ℕ, ◌*◌, Bool, true, false, Option, none, some, List, Result, ok, err, ◌>>=◌, ok_or, if◌then◌else◌,
  ltb, length,
}
use place_home.Prelude.Text.{Str, str, str_eq, str_has_eq, starts_with}
use place_home.Prelude.Map.{lookup}
use place_home.GatewayLink.Url.{rsplit_once}
use place_home.Beacons.Types.{Json}

abbrev pub supported_version : Str
supported_version = str "0.0.1"

abbrev pub header_init : Str
header_init = str "x-placenet-init"

abbrev pub header_register : Str
header_register = str "x-placenet-register"

abbrev pub header_health : Str
header_health = str "x-placenet-health"

abbrev pub proxy_body_limit : ℕ
proxy_body_limit = 64 * 1024

pub record MdnsConfig : Type 0 where
  pub hostname : Str
  pub port : ℕ

pub record DeviceInfo : Type 0 where
  pub address : Str
  pub mdns : MdnsConfig
  pub csr_pem : Str

-- The headers by their names in lowercase, the first of a name before later ones; a value is none
-- where `to_str` fails. The body is none where the client stops before its end.
pub record Request : Type 0 where
  pub headers : List (Str × Option Str)
  pub body : Option (List ℕ)

pub data Body : Type 0 where
  text : Str → Body
  json : Json → Body

pub record Response : Type 0 where
  pub status : ℕ
  pub body : Body

unfoldable pub text_response : ℕ → Str → Response
text_response status msg = record { status = status; body = text msg }

unfoldable pub json_response : ℕ → Json → Response
json_response status value = record { status = status; body = json value }

abbrev to_str : Option (Option Str) → Option Str
to_str (some v) = v
to_str none = none

-- `headers().get(name).and_then(|v| v.to_str().ok())`
unfoldable pub header : Str → Request → Option Str
header name req = to_str (lookup name req.headers)

unfoldable pub contains_key : Str → Request → Bool
contains_key name req = elim (lookup name req.headers) [ none ↦ false | some _ ↦ true ]

-- `Limited::new(body, limit).collect()`
unfoldable pub collect : ℕ → Option (List ℕ) → Option (List ℕ)
collect limit none = none
collect limit (some bytes) = if ltb limit (length bytes) then none else some bytes

abbrev before : Str → Option (Str × Str) → Str
before h none = h
before h (some (host, port)) = host

-- The match on `h.rfind(':')`.
unfoldable pub strip_port : Str → Str
unfolding rsplit_once
strip_port h = if starts_with (str "[") h then h else before h (rsplit_once b':' h)

unfoldable pub broker_host : Option Str → Str
broker_host none = str "localhost"
broker_host (some h) = strip_port h

pub record DeviceInitRequest : Type 0 where
  pub version : Str
  pub broker_host : Str
  pub device : DeviceInfo

unfoldable pub check_version : Str → Result Response Unit
check_version version =
    if str_eq version supported_version
    then ok tt
    else err (text_response 400 (str "Unsupported version"))

unfoldable pub process_init :
    (parse : List ℕ → Option DeviceInfo) → Request → Result Response DeviceInitRequest
unfolding check_version header collect broker_host strip_port
process_init parse req =
    ok_or (header header_init req) (text_response 400 (str "Invalid X-PlaceNet-Init header"))
    >>= λ version. check_version version >>= λ _.
        ok_or (collect proxy_body_limit req.body)
          (text_response 400 (str "Failed to read request body"))
        >>= λ bytes. ok_or (parse bytes) (text_response 422 (str "Invalid JSON body")) >>= λ device.
            ok (record {
              version = version;
              broker_host = broker_host (header (str "host") req);
              device = device;
            })

-- The field `csr_pem`, all that is kept of the payload.
unfoldable pub process_register : (parse : List ℕ → Option Str) → Request → Result Response Str
unfolding collect
process_register parse req =
    ok_or (collect proxy_body_limit req.body)
      (text_response 400 (str "Failed to read request body"))
    >>= λ bytes. ok_or (parse bytes) (text_response 422 (str "Invalid JSON body"))
