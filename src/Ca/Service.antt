-- ===== src/Ca/Service.antt =====
-- `CaService::register` and `init` of infra/ca/ca_service.rs.
use place_home.Prelude.{◌++◌, Result, Exec, ◌>>>=◌, lift, ◌>>=◌, map_err}
use place_home.Prelude.Text.{Str, str}
use place_home.Ca.{Rcgen, CaState, Outside, Database, load_or_generate_ca}

-- sqlx: the options of the URL, the pool and the migrations.
pub record Opening : Type 0 where
  pub options : Result Str Unit
  pub connect : Result Str Unit
  pub migrate : Result Str Unit

open_database : Opening → Result Str Unit
open_database o = map_err (λ e. str "Invalid database URL: " ++ e) o.options >>= λ _.
    map_err (λ e. str "Failed to open CA database: " ++ e) o.connect >>= λ _.
    map_err (λ e. str "Failed to run CA migrations: " ++ e) o.migrate

-- What it gives is the state of the service from then on.
unfoldable pub register :
    {K P Q C : Type 0} → Rcgen K P Q C → Opening → Outside K → Exec Database Str (CaState K C)
unfolding open_database load_or_generate_ca
register r o outside = lift (open_database o) >>>= λ _. load_or_generate_ca r outside
