-- ===== src/GatewayLink/Url.antt =====
-- `Url` of services/gateway_mqtt/login.rs.
pub mod Text
use place_home.Prelude.{
  ℕ, suc, ◌+◌, ◌<◌, ◌^◌, ◌≡◌, refl, ap, ◌∙◌, Bool, true, false, Option, none, some, List, [], ◌∷◌,
  ◌++◌, Result, ok, err, ◌>>=◌, ok_or, if◌then◌else◌, eqb, length, arith,
}
use place_home.Prelude.Text.{Str, str, str_eq, starts_with, drop}
use place_home.Config.Parsing.{parse_uint, to_string}
use place_home.Config.File.{format}

pub record Url : Type 0 where
  pub tls : Bool
  pub host : Str
  pub port : ℕ
  pub path : Str

abbrev cons_left : ℕ → Option (Str × Str) → Option (Str × Str)
cons_left c none = none
cons_left c (some (a, b)) = some (c ∷ a, b)

-- `split_once` of a separator that is not empty
unfoldable pub split_once : Str → Str → Option (Str × Str)
split_once sep [] = none
split_once sep (c ∷ s) =
    let rest = cons_left c (split_once sep s) in
    if starts_with sep (c ∷ s) then some ([], drop (length sep) (c ∷ s)) else rest

-- `find('/')` with the two slices at the position found: what stands before, and from there on.
unfoldable pub split_path : Str → Str × Str
split_path [] = ([], str "/")
split_path (c ∷ s) = let (a, b) = split_path s in if eqb c b'/' then ([], c ∷ s) else (c ∷ a, b)

last_split : ℕ → ℕ → Str → Option (Str × Str) → Option (Str × Str)
last_split sep c s none = if eqb c sep then some ([], s) else none
last_split sep c s (some (a, b)) = some (c ∷ a, b)

-- `rsplit_once` of one character
unfoldable pub rsplit_once : ℕ → Str → Option (Str × Str)
unfolding last_split
rsplit_once sep [] = none
rsplit_once sep (c ∷ s) = last_split sep c s (rsplit_once sep s)

scheme_tls : Str → Result Str Bool
scheme_tls scheme =
    if str_eq scheme (str "https")
    then ok true
    else if str_eq scheme (str "http")
    then ok false
    else err (format (str "unsupported gateway scheme '" ∷ scheme ∷ str "'" ∷ []))

abbrev default_port : Bool → ℕ
default_port tls = if tls then 443 else 80

host_port : Str → Bool → Str → Option (Str × Str) → Result Str (Str × ℕ)
host_port input tls authority none = ok (authority, default_port tls)
host_port input tls authority (some ([], p)) = ok (authority, default_port tls)
host_port input tls authority (some (c ∷ h, p)) =
    ok_or (parse_uint 16 p) (format (str "invalid port in '" ∷ input ∷ str "'" ∷ [])) >>= λ port.
    ok (c ∷ h, port)

parse_rest : Str → Bool → Str → Result Str Url
unfolding host_port rsplit_once split_path
parse_rest input tls rest =
    let (authority, path) = split_path rest in
    host_port input tls authority (rsplit_once b':' authority) >>= λ (host, port).
    ok (record { tls = tls; host = host; port = port; path = path })

unfoldable pub parse : Str → Result Str Url
unfolding split_once scheme_tls parse_rest
parse input =
    ok_or (split_once (str "://") input)
      (format (str "invalid gateway url '" ∷ input ∷ str "'" ∷ []))
    >>= λ (scheme, rest). scheme_tls scheme >>= λ tls. parse_rest input tls rest

abbrev pub scheme : Bool → Str
scheme tls = if tls then str "https" else str "http"

-- How a gateway's URL is written, with its port and without.
abbrev pub url_text : Bool → Str → ℕ → Str → Str
url_text tls host port path = scheme tls ++ str "://" ++ host ++ (str ":" ++ to_string port) ++ path
