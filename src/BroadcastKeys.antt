-- ===== src/BroadcastKeys.antt =====
-- services/beacon_management/key_management.rs: the life of the broadcast keys, over the table
-- `broadcast_keys` (migrations/0004_broadcast_keys.sql).
-- A time is a number of seconds since 1970; `unix_now` is at least 0, and all that is added to it
-- comes from a `u32`, so the `i64` of the source never wraps and is modelled by ℕ.
pub mod Hex
pub mod Rows
pub mod Invariant
pub mod Retention
pub mod Lifetime
pub mod Token
pub mod Examples
use Rows.{Row, Table, newest, retire, has_key_id}
use place_home.Prelude.{
  ℕ, ◌+◌, Bool, true, false, Option, none, some, List, [], ◌∷◌, ◌++◌, Result, ok, err,
  if◌then◌else◌, ltb, leb, length, retain, eqb, ◌-◌,
}
use place_home.Prelude.Text.{Str, str}
use place_home.Config.Parsing.{to_string}

pub record BroadcastKey : Type 0 where
  pub key_id : List ℕ
  pub key_material : List ℕ
  pub rotates_at : ℕ
  pub expires_at : ℕ

-- The configured durations, in seconds.
pub record BroadcastKeyManagement : Type 0 where
  pub rotation_interval : ℕ
  pub key_expiry : ℕ

-- What a call meets: the clock when it starts and when `rotate_key` reads it, the random bytes, and
-- whether each SQL statement reaches the database.
pub record Outside : Type 0 where
  pub now : ℕ
  pub rotate_now : ℕ
  pub key_id : List ℕ
  pub key_material : List ℕ
  pub select : Result Str Unit
  pub update : Result Str Unit
  pub insert : Result Str Unit
  pub delete : Result Str Unit

-- `try_into` of a slice into an array of 4, and of 16, bytes.
unfoldable pub build_key : List ℕ → List ℕ → ℕ → ℕ → Result Str BroadcastKey
build_key id material rotates_at expires_at =
    if eqb (length id) 4
    then (if eqb (length material) 16
        then ok (record {
          key_id = id;
          key_material = material;
          rotates_at = rotates_at;
          expires_at = expires_at;
        })
        else err (
            str "Corrupt broadcast_keys row: key_material is "
            ++ to_string (length material)
            ++ str " bytes, expected 16"))
    else err (
        str "Corrupt broadcast_keys row: key_id is "
        ++ to_string (length id)
        ++ str " bytes, expected 4")

abbrev new_row : BroadcastKeyManagement → Outside → Row
new_row m o = record {
  key_id = o.key_id;
  key_material = o.key_material;
  created_at = o.rotate_now;
  rotates_at = o.rotate_now + m.rotation_interval;
  expires_at = o.rotate_now + m.key_expiry;
  is_active = true;
}

abbrev new_key : BroadcastKeyManagement → Outside → BroadcastKey
new_key m o = record {
  key_id = o.key_id;
  key_material = o.key_material;
  rotates_at = o.rotate_now + m.rotation_interval;
  expires_at = o.rotate_now + m.key_expiry;
}

abbrev pub Call : Type 0 → Type 0
Call A = Result Str A × Table

-- The INSERT: it fails also on a primary key that is taken.
insert_row : Result Str Unit → BroadcastKeyManagement → Outside → Table → Call BroadcastKey
insert_row (err e) m o rows = (err (str "Failed to insert new broadcast key: " ++ e), rows)
insert_row (ok _) m o rows =
    if has_key_id o.key_id rows
    then (err (str "Failed to insert new broadcast key: UNIQUE constraint failed"), rows)
    else (ok (new_key m o), new_row m o ∷ rows)

-- The two statements are not one transaction: what the UPDATE wrote stays when the INSERT fails.
update_rows : Result Str Unit → BroadcastKeyManagement → Outside → Table → Call BroadcastKey
update_rows (err e) m o rows = (err (str "Failed to retire active broadcast keys: " ++ e), rows)
update_rows (ok _) m o rows = insert_row o.insert m o (retire rows)

unfoldable pub rotate_key : BroadcastKeyManagement → Outside → Table → Call BroadcastKey
unfolding insert_row update_rows
rotate_key m o rows = update_rows o.update m o rows

-- The `if let Some(row)` of `get_or_rotate_key`.
use_row : BroadcastKeyManagement → Outside → Option Row → Table → Call BroadcastKey
use_row m o none rows = rotate_key m o rows
use_row m o (some r) rows = (build_key r.key_id r.key_material r.rotates_at r.expires_at, rows)

select_row : Result Str Unit → BroadcastKeyManagement → Outside → Table → Call BroadcastKey
select_row (err e) m o rows = (err (str "Failed to query broadcast keys: " ++ e), rows)
select_row (ok _) m o rows = use_row m o (newest o.now rows) rows

unfoldable pub get_or_rotate_key : BroadcastKeyManagement → Outside → Table → Call BroadcastKey
unfolding select_row use_row
get_or_rotate_key m o rows = select_row o.select m o rows

delete_rows : Result Str Unit → ℕ → Table → Call ℕ
delete_rows (err e) now rows = (err (str "Failed to sweep expired broadcast keys: " ++ e), rows)
delete_rows (ok _) now rows =
    let kept = retain (λ r. ltb now r.expires_at) rows in (ok (length rows - length kept), kept)

-- The number of deleted rows, and the table.
unfoldable pub sweep_expired : Outside → Table → Call ℕ
unfolding delete_rows
sweep_expired o rows = delete_rows o.delete o.now rows
