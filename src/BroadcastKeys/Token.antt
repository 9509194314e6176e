-- ===== src/BroadcastKeys/Token.antt =====
-- `generate_token` and `ota_fields` of key_management.rs: the fields that go over the air.
use native.Mathlib.Nat.{div-add-mod, mod-lt}
use place_home.Prelude.{
  ℕ, ◌+◌, ◌*◌, ◌/◌, ◌%◌, ◌^◌, ◌≤◌, ◌<◌, ◌≡◌, refl, ap, List, [], ◌∷◌, arith, length, ltb, All,
  if◌then◌else◌, ◌⊎◌, some,
}
use place_home.Prelude.Text.{Str}
use place_home.BroadcastKeys.{BroadcastKey, BroadcastKeyManagement}
use place_home.BroadcastKeys.Hex.{
  hex_encode, hex_decode, hex_decode-hex_encode, AreBytes, IsHexDigit, length-hex_encode,
  hex_encode-IsHexDigit,
}

-- `rotation_interval.as_secs().max(1)`
abbrev pub rotation_secs : BroadcastKeyManagement → ℕ
rotation_secs m = if ltb m.rotation_interval 1 then 1 else m.rotation_interval

unfoldable pub slot : BroadcastKeyManagement → ℕ → ℕ
slot m now = now / rotation_secs m

-- `u64::to_be_bytes`
unfoldable pub to_be_bytes : ℕ → List ℕ
to_be_bytes x =
    x / 2 ^ 56 % 256
    ∷ x / 2 ^ 48 % 256
    ∷ x / 2 ^ 40 % 256
    ∷ x / 2 ^ 32 % 256
    ∷ x / 2 ^ 24 % 256
    ∷ x / 2 ^ 16 % 256
    ∷ x / 2 ^ 8 % 256
    ∷ x % 256
    ∷ []

abbrev first_four : List ℕ → List ℕ
first_four (a ∷ b ∷ c ∷ d ∷ _) = a ∷ b ∷ c ∷ d ∷ []
first_four other = other

-- HMAC-SHA256 is the crate `hmac`'s: of it the code uses that the digest is 32 bytes.
pub record Hmac : Type 0 where
  pub mac : (key message : List ℕ) → List ℕ
  pub digest_size : (key message : List ℕ) → length (mac key message) ≡ 32
  pub digest_bytes : (key message : List ℕ) → AreBytes (mac key message)

module _ (h : Hmac) where
  -- `now` is what `unix_now` gives.
  unfoldable pub generate_token : BroadcastKeyManagement → ℕ → BroadcastKey → List ℕ
  generate_token m now key = first_four (h.mac key.key_material (to_be_bytes (slot m now)))

  unfoldable pub ota_fields : BroadcastKeyManagement → ℕ → BroadcastKey → Str × Str
  ota_fields m now key = (hex_encode key.key_id, hex_encode (generate_token m now key))

first_four-sizes :
    (l : List ℕ)
    → length l ≡ 32
    → AreBytes l
    → (length (first_four l) ≡ 4) × AreBytes (first_four l)
first_four-sizes [] n b = absurd (omega arith)
first_four-sizes (_ ∷ []) n b = absurd (omega arith)
first_four-sizes (_ ∷ _ ∷ []) n b = absurd (omega arith)
first_four-sizes (_ ∷ _ ∷ _ ∷ []) n b = absurd (omega arith)
first_four-sizes (w ∷ x ∷ y ∷ z ∷ l) n (p, (q, (r, (s, b)))) = (refl, (p, (q, (r, (s, tt)))))

-- Of a key with an id of 4 bytes, both fields that go over the air are 8 lowercase hexadecimal
-- digits, and the first reads back as the id.
pub ota_fields-sizes :
    (h : Hmac) (m : BroadcastKeyManagement) (now : ℕ) (key : BroadcastKey)
    → length key.key_id ≡ 4
    → AreBytes key.key_id
    → let (kid, tok) = ota_fields h m now key in
      (length kid ≡ 8)
      × All IsHexDigit kid
      × (length tok ≡ 8)
      × All IsHexDigit tok
      × (hex_decode kid ≡ some key.key_id)
unfolding ota_fields generate_token
ota_fields-sizes h m now key n b =
    let digest = h.mac key.key_material (to_be_bytes (slot m now)) in
    let (size, bytes) =
      first_four-sizes digest (h.digest_size key.key_material (to_be_bytes (slot m now)))
        (h.digest_bytes key.key_material (to_be_bytes (slot m now))) in
    (
      omega (arith, length-hex_encode key.key_id, n),
      hex_encode-IsHexDigit key.key_id b,
      omega (arith, length-hex_encode (first_four digest), size),
      hex_encode-IsHexDigit (first_four digest) bytes,
      hex_decode-hex_encode key.key_id b,
    )

mul_gap : (d a b : ℕ) → 0 < d → d * a < d * b + d → a ≤ b
mul_gap d a b p h = grind arith

div_drift : (d t t' : ℕ) → 0 < d → t ≤ t' → t' ≤ t + d → (t' / d ≡ t / d) ⊎ (t' / d ≡ t / d + 1)
div_drift d t t' p h k =
    let up =
      mul_gap d (t' / d) (t / d + 1) p
        (omega (arith, div-add-mod t d, div-add-mod t' d, mod-lt t p, mod-lt t' p)) in
    let down =
      mul_gap d (t / d) (t' / d) p
        (omega (arith, div-add-mod t d, div-add-mod t' d, mod-lt t p, mod-lt t' p)) in
    ground (arith, up, down)

-- Two clocks that differ by at most one rotation interval give the token of the same slot or of
-- neighbouring ones, so that what a beacon accepts beside its own slot covers the drift.
pub slot_drift :
    (m : BroadcastKeyManagement) (t t' : ℕ)
    → t ≤ t'
    → t' ≤ t + m.rotation_interval
    → (slot m t' ≡ slot m t) ⊎ (slot m t' ≡ slot m t + 1)
unfolding slot
slot_drift m t t' h k = div_drift (rotation_secs m) t t' (ground arith) h (ground arith)

from_be_bytes : List ℕ → ℕ → ℕ
from_be_bytes [] n = n
from_be_bytes (b ∷ bytes) n = from_be_bytes bytes (n * 256 + b)

-- The bytes that are authenticated determine the slot, for every slot that a `u64` holds.
pub to_be_bytes-injective :
    (x y : ℕ) → x < 2 ^ 64 → y < 2 ^ 64 → to_be_bytes x ≡ to_be_bytes y → x ≡ y
unfolding to_be_bytes
to_be_bytes-injective x y h k e =
    let e' = ap (λ l. from_be_bytes l 0) e in unfold from_be_bytes in omega (arith, e')
