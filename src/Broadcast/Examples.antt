-- ===== src/Broadcast/Examples.antt =====
-- Tests of the broadcast loop.
use place_home.Prelude.{ℕ, ◌<◌, true, ◌≡◌, refl, some, List, [], ◌∷◌, ok, All, arith}
use place_home.Prelude.Text.{str}
use place_home.BroadcastKeys.{BroadcastKey, Outside}
use place_home.BroadcastKeys.Rows.{Table, has_key_id}
use place_home.BroadcastKeys.Invariant.{IsSound}
use place_home.BroadcastKeys.Lifetime.{find}
use place_home.BroadcastKeys.Token.{Hmac}
use place_home.Broadcast.{BroadcastState, Cycle, run}
use place_home.Broadcast.Cycles.{cycles-Kept}

abbrev pub state : BroadcastState
state = record {
  server_url = str "https://home:8080";
  use_jitter = true;
  broadcast_interval = 60;
  key_management = record { rotation_interval = 3600; key_expiry = 7200 };
}

abbrev id : List ℕ
id = 1 ∷ 2 ∷ 3 ∷ 4 ∷ []

abbrev material : List ℕ
material = 0 ∷ 1 ∷ 2 ∷ 3 ∷ 4 ∷ 5 ∷ 6 ∷ 7 ∷ 8 ∷ 9 ∷ 10 ∷ 11 ∷ 12 ∷ 13 ∷ 14 ∷ 15 ∷ []

abbrev pub key : BroadcastKey
key = record { key_id = id; key_material = material; rotates_at = 4600; expires_at = 8200 }

abbrev pub table : Table
table =
    record {
      key_id = id;
      key_material = material;
      created_at = 1000;
      rotates_at = 4600;
      expires_at = 8200;
      is_active = true;
    }
    ∷ []

abbrev at : ℕ → Outside
at now = record {
  now = now;
  rotate_now = now;
  key_id = 9 ∷ 9 ∷ 9 ∷ 9 ∷ [];
  key_material = material;
  select = ok tt;
  update = ok tt;
  insert = ok tt;
  delete = ok tt;
}

abbrev pub round : ℕ → Cycle
round now = record {
  get = at now;
  sweep = at now;
  token_now = now;
  topics = str "b1/cast" ∷ str "b2/cast" ∷ [];
  random = 19 ∷ 20 ∷ [];
  elapsed = 3500000000;
}

table-IsSound : IsSound table
unfolding has_key_id
table-IsSound = record {
  sizes = ((refl, refl), tt);
  distinct = (refl, tt);
  one_active = omega arith;
}

-- The digest of 32 zeros.
abbrev pub zeros : List ℕ
zeros =
    0 ∷ 0 ∷ 0 ∷ 0 ∷ 0 ∷ 0 ∷ 0 ∷ 0 ∷ 0 ∷ 0 ∷ 0 ∷ 0 ∷ 0 ∷ 0 ∷ 0 ∷ 0 ∷ 0 ∷ 0 ∷ 0 ∷ 0 ∷ 0 ∷ 0 ∷ 0 ∷ 0
    ∷ 0 ∷ 0 ∷ 0 ∷ 0 ∷ 0 ∷ 0 ∷ 0 ∷ 0 ∷ []

pub zeros-AreBytes : (n : ℕ) → n < 256 → All (λ b. b < 256) zeros
zeros-AreBytes n h = ground arith

abbrev pub mac : Hmac
mac = record {
  mac = λ k m. zeros;
  digest_size = λ k m. refl;
  digest_bytes = λ k m. zeros-AreBytes 0 (omega arith);
}

abbrev rounds : List Cycle
rounds = round 2000 ∷ round 5000 ∷ round 8199 ∷ []

cycles-Kept_example : find id (run mac state rounds table) ≡ some (material, 8200)
unfolding find
cycles-Kept_example =
    cycles-Kept id material 8200 mac state rounds table
      (omega arith, (omega arith, (omega arith, tt))) refl
