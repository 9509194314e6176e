-- ===== src/BroadcastKeys/Examples.antt =====
-- Tests of the broadcast keys.
use place_home.Prelude.{ℕ, ◌<◌, true, ◌≡◌, ◌≢◌, inl, refl, List, [], ◌∷◌, ok, err, arith, All}
use place_home.Prelude.Text.{str}
use place_home.BroadcastKeys.{
  BroadcastKey, BroadcastKeyManagement, Outside, build_key, rotate_key, get_or_rotate_key,
}
use place_home.BroadcastKeys.Rows.{Row, Table, newest, retire, has_key_id, active_count}
use place_home.BroadcastKeys.Invariant.{IsSound, get_or_rotate_key-IsSound}
use place_home.BroadcastKeys.Retention.{get_or_rotate_key-stable}
use place_home.BroadcastKeys.Lifetime.{rotate_key-insert_failure, get_or_rotate_key-total}
use place_home.BroadcastKeys.Token.{Hmac}

abbrev settings : BroadcastKeyManagement
settings = record { rotation_interval = 3600; key_expiry = 7200 }

abbrev id_a : List ℕ
id_a = 1 ∷ 2 ∷ 3 ∷ 4 ∷ []

abbrev id_b : List ℕ
id_b = 255 ∷ 0 ∷ 16 ∷ 171 ∷ []

abbrev material : List ℕ
material = 0 ∷ 1 ∷ 2 ∷ 3 ∷ 4 ∷ 5 ∷ 6 ∷ 7 ∷ 8 ∷ 9 ∷ 10 ∷ 11 ∷ 12 ∷ 13 ∷ 14 ∷ 15 ∷ []

abbrev row_a : Row
row_a = record {
  key_id = id_a;
  key_material = material;
  created_at = 1000;
  rotates_at = 4600;
  expires_at = 8200;
  is_active = true;
}

abbrev table : Table
table = row_a ∷ []

abbrev at : ℕ → Outside
at now = record {
  now = now;
  rotate_now = now;
  key_id = id_b;
  key_material = material;
  select = ok tt;
  update = ok tt;
  insert = ok tt;
  delete = ok tt;
}

abbrev key_b : BroadcastKey
key_b = record { key_id = id_b; key_material = material; rotates_at = 8600; expires_at = 12200 }

table-IsSound : IsSound table
unfolding has_key_id
table-IsSound = record {
  sizes = ((refl, refl), tt);
  distinct = (refl, tt);
  one_active = omega arith;
}

get_or_rotate_key-IsSound_example : IsSound (get_or_rotate_key settings (at 5000) table).1
get_or_rotate_key-IsSound_example =
    get_or_rotate_key-IsSound settings (at 5000) table (refl, refl) table-IsSound

-- The table after the rotation at 5000.
abbrev rotated : Table
rotated = (get_or_rotate_key settings (at 5000) table).1

get_or_rotate_key-stable_example :
    get_or_rotate_key settings (at 8599) rotated ≡ (ok key_b, rotated)
unfolding get_or_rotate_key rotate_key newest retire has_key_id build_key
get_or_rotate_key-stable_example =
    get_or_rotate_key-stable settings (at 5000) (at 8599) table rotated key_b table-IsSound
      (refl, refl) refl refl (omega arith)

abbrev full_disk : Outside
full_disk = record (at 5000) { insert = err (str "disk I/O error") }

rotate_key-insert_failure_example :
    ((k : BroadcastKey) → (rotate_key settings full_disk table).0 ≢ ok k)
    × (active_count (rotate_key settings full_disk table).1 ≡ 0)
rotate_key-insert_failure_example =
    rotate_key-insert_failure settings full_disk table (str "disk I/O error") refl (inl refl)

get_or_rotate_key-total_example :
    (k : BroadcastKey) × ((get_or_rotate_key settings (at 5000) table).0 ≡ ok k)
    × (5000 < k.rotates_at)
unfolding has_key_id
get_or_rotate_key-total_example =
    get_or_rotate_key-total settings (at 5000) table table-IsSound
      (record { select = refl; update = refl; insert = refl }) refl (omega arith) (omega arith)

-- The digest of 32 zeros.
abbrev zeros : List ℕ
zeros =
    0 ∷ 0 ∷ 0 ∷ 0 ∷ 0 ∷ 0 ∷ 0 ∷ 0 ∷ 0 ∷ 0 ∷ 0 ∷ 0 ∷ 0 ∷ 0 ∷ 0 ∷ 0 ∷ 0 ∷ 0 ∷ 0 ∷ 0 ∷ 0 ∷ 0 ∷ 0 ∷ 0
    ∷ 0 ∷ 0 ∷ 0 ∷ 0 ∷ 0 ∷ 0 ∷ 0 ∷ 0 ∷ []

zeros-AreBytes : (n : ℕ) → n < 256 → All (λ b. b < 256) zeros
zeros-AreBytes n h = ground arith

abbrev constant : Hmac
constant = record {
  mac = λ key message. zeros;
  digest_size = λ key message. refl;
  digest_bytes = λ key message. zeros-AreBytes 0 (omega arith);
}
