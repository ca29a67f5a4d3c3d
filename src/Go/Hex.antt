-- ===== src/Go/Hex.antt =====
-- `hex.DecodeString` and `hex.EncodeToString`.
use go_iroh_experiments.Base.{
  ℕ, ◌+◌, ◌-◌, ◌*◌, ◌/◌, ◌%◌, ◌<◌, ◌≡◌, refl, ◌&&◌, [], ◌∷◌, Option, none, some, arith, ltb, leb,
  if◌then◌else◌, Bytes, AreAscii, AreBytes,
}

unfoldable pub nibble : ℕ → Option ℕ
nibble c =
    if leb b'0' c && leb c b'9'
    then some (c - b'0')
    else if leb b'a' c && leb c b'f'
    then some (c - b'a' + 10)
    else if leb b'A' c && leb c b'F'
    then some (c - b'A' + 10)
    else none

unfoldable pub hex_digit : ℕ → ℕ
hex_digit d = if ltb d 10 then b'0' + d else b'a' + (d - 10)

-- An odd number of digits is an error.
unfoldable pub hex_decode : Bytes → Option Bytes
hex_decode [] = some []
hex_decode (c ∷ []) = none
hex_decode (c ∷ d ∷ cs) = elim (nibble c) [
  | none ↦ none
  | some hi ↦ elim (nibble d) [
    | none ↦ none
    | some lo ↦ elim (hex_decode cs) [ none ↦ none | some bs ↦ some ((hi * 16 + lo) ∷ bs) ]
  ]
]

unfoldable pub hex_encode : Bytes → Bytes
hex_encode [] = []
hex_encode (b ∷ bs) = hex_digit (b / 16) ∷ hex_digit (b % 16) ∷ hex_encode bs

hex_digit-ascii : (d : ℕ) → d < 16 → hex_digit d < 128
unfolding hex_digit
hex_digit-ascii d h = ground arith

pub hex_encode-AreAscii : (bs : Bytes) → AreBytes bs → AreAscii (hex_encode bs)
unfolding hex_encode
hex_encode-AreAscii [] h = tt
hex_encode-AreAscii (b ∷ bs) h = (
  hex_digit-ascii (b / 16) (omega (arith, h.0)),
  (hex_digit-ascii (b % 16) (omega arith), hex_encode-AreAscii bs h.1),
)

nibble-hex_digit : (d : ℕ) → d < 16 → nibble (hex_digit d) ≡ some d
unfolding nibble hex_digit
nibble-hex_digit d h = ground arith

pub hex_decode-hex_encode : (bs : Bytes) → AreBytes bs → hex_decode (hex_encode bs) ≡ some bs
unfolding hex_decode hex_encode
hex_decode-hex_encode [] h = refl
hex_decode-hex_encode (b ∷ bs) h =
    ground
      (arith, nibble-hex_digit (b / 16), nibble-hex_digit (b % 16), hex_decode-hex_encode bs h.1)
