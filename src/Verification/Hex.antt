-- ===== src/Verification/Hex.antt =====
-- encoding/hex of the Go library, as verification/ and delegation/ use it.
use trust.Prelude.{
  ℕ, ◌+◌, ◌-◌, ◌*◌, ◌/◌, ◌%◌, ◌<◌, ◌≡◌, refl, [], ◌∷◌, Option, none, some, if◌then◌else◌, ltb, leb,
  ◌&&◌, All, arith, Bytes,
}

-- '0' to '9', then 'a' to 'f'.
unfoldable pub hex_digit : ℕ → ℕ
hex_digit d = if ltb d 10 then 48 + d else 87 + d

-- EncodeToString.
unfoldable pub hex_encode : Bytes → Bytes
unfolding hex_digit
hex_encode [] = []
hex_encode (b ∷ bytes) = hex_digit (b / 16) ∷ hex_digit (b % 16) ∷ hex_encode bytes

-- The value of a digit, in either case.
unfoldable pub hex_value : ℕ → Option ℕ
hex_value c =
    if leb 48 c && leb c 57
    then some (c - 48)
    else if leb 97 c && leb c 102
    then some (c - 87)
    else if leb 65 c && leb c 70
    then some (c - 55)
    else none

abbrev pair_value : Option ℕ → Option ℕ → Option ℕ
pair_value (some a) (some b) = some (a * 16 + b)
pair_value none b = none
pair_value (some a) none = none

abbrev cons_byte : Option ℕ → Option Bytes → Option Bytes
cons_byte (some b) (some bytes) = some (b ∷ bytes)
cons_byte none bytes = none
cons_byte (some b) none = none

-- DecodeString: `none` where it returns an error.
unfoldable pub hex_decode : Bytes → Option Bytes
unfolding hex_value
hex_decode [] = some []
hex_decode (c ∷ []) = none
hex_decode (c ∷ d ∷ rest) = cons_byte (pair_value (hex_value c) (hex_value d)) (hex_decode rest)

abbrev pub AreBytes : Bytes → Type 0
AreBytes bytes = All (λ b. b < 256) bytes

hex_value-hex_digit : (d : ℕ) → d < 16 → hex_value (hex_digit d) ≡ some d
unfolding hex_value hex_digit
hex_value-hex_digit d h = ground arith

-- What EncodeToString makes decodes to the same bytes.
hex_decode-hex_encode :
    (bytes : Bytes) → AreBytes bytes → hex_decode (hex_encode bytes) ≡ some bytes
unfolding hex_decode hex_encode
hex_decode-hex_encode [] h = refl
hex_decode-hex_encode (b ∷ bytes) (h, hs) =
    let high : b / 16 < 16 = omega arith in
    let low : b % 16 < 16 = omega arith in
    let whole : b / 16 * 16 + b % 16 ≡ b = omega arith in
    rw
      (
        hex_value-hex_digit (b / 16) high,
        hex_value-hex_digit (b % 16) low,
        hex_decode-hex_encode bytes hs,
        whole,
      )
      refl
