-- ===== src/BroadcastKeys/Rows.antt =====
-- migrations/0004_broadcast_keys.sql and the SQL of key_management.rs: the table of keys, and what
-- the SELECT and the UPDATE do to it.
use place_home.Prelude.{
  ℕ, Bool, true, false, Option, none, some, List, [], ◌∷◌, if◌then◌else◌, ltb, ◌&&◌, ◌==◌,
}
use place_home.Prelude.Text.{str_has_eq}

pub record Row : Type 0 where
  pub key_id : List ℕ
  pub key_material : List ℕ
  pub created_at : ℕ
  pub rotates_at : ℕ
  pub expires_at : ℕ
  pub is_active : Bool

abbrev pub Table : Type 0
Table = List Row

-- ORDER BY rotates_at DESC LIMIT 1: the better of a row and the best of the rest.
abbrev pub better : Row → Option Row → Option Row
better r none = some r
better r (some s) = if ltb r.rotates_at s.rotates_at then some s else some r

-- WHERE is_active = 1 AND rotates_at > now
unfoldable pub newest : ℕ → Table → Option Row
newest now [] = none
newest now (r ∷ rows) =
    let rest = newest now rows in
    if r.is_active && ltb now r.rotates_at then better r rest else rest

-- UPDATE broadcast_keys SET is_active = 0 WHERE is_active = 1
unfoldable pub retire : Table → Table
retire [] = []
retire (r ∷ rows) = record r { is_active = false } ∷ retire rows

-- The rows whose primary key is `id`: at most one.
unfoldable pub has_key_id : List ℕ → Table → Bool
has_key_id id [] = false
has_key_id id (r ∷ rows) = if r.key_id == id then true else has_key_id id rows

abbrev pub active_count : Table → ℕ
active_count [] = 0
active_count (r ∷ rows) = let rest = active_count rows in if r.is_active then ℕ.suc rest else rest
