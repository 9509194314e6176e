-- ===== src/CloudGateway/Url.antt =====
-- `compute_ws_url` of services/cloud_gateway/cloud_gateway_service.rs.
use place_home.Prelude.{◌++◌, if◌then◌else◌}
use place_home.Prelude.Text.{Str, str, starts_with, drop, ends_with, trim_end_matches}

-- `replacen(scheme, other, 1)` of a text that starts with the scheme.
with_scheme : Str → Str
with_scheme base =
    if starts_with (str "https://") base
    then str "wss://" ++ drop 8 base
    else if starts_with (str "http://") base
    then str "ws://" ++ drop 7 base
    else base

with_path : Str → Str
with_path base = if ends_with (str "/ws") base then base else base ++ str "/ws"

unfoldable pub compute_ws_url : Str → Str
unfolding with_scheme with_path starts_with drop ends_with trim_end_matches
compute_ws_url gateway_url = with_path (with_scheme (trim_end_matches b'/' gateway_url))
