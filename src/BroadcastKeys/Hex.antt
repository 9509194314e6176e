-- ===== src/BroadcastKeys/Hex.antt =====
-- `hex_encode` of key_management.rs: two lowercase digits for each byte, and back.
use place_home.Prelude.{
  ℕ, ◌+◌, ◌-◌, ◌*◌, ◌/◌, ◌%◌, ◌≤◌, ◌<◌, ◌≡◌, refl, ap, Option, none, some, List, [], ◌∷◌, arith,
  length, leb, ltb, ◌&&◌, All, if◌then◌else◌, ◌⊎◌,
}
use place_home.Prelude.Text.{Str}

-- A digit of `{:02x}`.
hex_digit : ℕ → ℕ
hex_digit n = if ltb n 10 then b'0' + n else b'a' + (n - 10)

unfoldable pub hex_encode : List ℕ → Str
unfolding hex_digit
hex_encode [] = []
hex_encode (b ∷ bytes) = hex_digit (b / 16) ∷ hex_digit (b % 16) ∷ hex_encode bytes

-- An independent reading of a hexadecimal text.
digit_value : ℕ → Option ℕ
digit_value c =
    if leb b'0' c && leb c b'9'
    then some (c - b'0')
    else if leb b'a' c && leb c b'f'
    then some (c - b'a' + 10)
    else none

pair_value : Option ℕ → Option ℕ → Option (List ℕ) → Option (List ℕ)
pair_value (some hi) (some lo) (some bytes) = some ((hi * 16 + lo) ∷ bytes)
pair_value _ _ _ = none

unfoldable pub hex_decode : Str → Option (List ℕ)
unfolding digit_value pair_value
hex_decode [] = some []
hex_decode (hi ∷ []) = none
hex_decode (hi ∷ lo ∷ s) = pair_value (digit_value hi) (digit_value lo) (hex_decode s)

abbrev pub AreBytes : List ℕ → Type 0
AreBytes = All (λ b. b < 256)

digit_value-hex_digit : (n : ℕ) → n < 16 → digit_value (hex_digit n) ≡ some n
unfolding digit_value hex_digit
digit_value-hex_digit n h = ground arith

-- What `hex_encode` writes of a list of bytes reads back as the same bytes.
pub hex_decode-hex_encode :
    (bytes : List ℕ) → AreBytes bytes → hex_decode (hex_encode bytes) ≡ some bytes
unfolding hex_encode hex_decode
hex_decode-hex_encode [] h = refl
hex_decode-hex_encode (b ∷ bytes) (h, hs) =
    rw
      (
        digit_value-hex_digit (b / 16) (omega arith),
        digit_value-hex_digit (b % 16) (omega arith),
        hex_decode-hex_encode bytes hs,
        pair_value,
      )
      (ap (λ (x : ℕ). some (x ∷ bytes)) (omega arith))

pub length-hex_encode : (bytes : List ℕ) → length (hex_encode bytes) ≡ 2 * length bytes
unfolding hex_encode
length-hex_encode [] = omega arith
length-hex_encode (b ∷ bytes) = omega (arith, length-hex_encode bytes)

-- A lowercase hexadecimal digit.
abbrev pub IsHexDigit : ℕ → Type 0
IsHexDigit c = ((b'0' ≤ c) × (c ≤ b'9')) ⊎ ((b'a' ≤ c) × (c ≤ b'f'))

hex_digit-IsHexDigit : (n : ℕ) → n < 16 → IsHexDigit (hex_digit n)
unfolding hex_digit
hex_digit-IsHexDigit n h = ground arith

pub hex_encode-IsHexDigit : (bytes : List ℕ) → AreBytes bytes → All IsHexDigit (hex_encode bytes)
unfolding hex_encode
hex_encode-IsHexDigit [] h = tt
hex_encode-IsHexDigit (b ∷ bytes) (h, hs) = (
  hex_digit-IsHexDigit (b / 16) (omega arith),
  (hex_digit-IsHexDigit (b % 16) (omega arith), hex_encode-IsHexDigit bytes hs),
)
