-- ===== src/Auth/Hex.antt =====
-- agent/src/auth.rs: `hex_encode` and `hex_decode`, and the salt that is kept as hex.
use mu5250_wireguard.Base.{
  ℕ, ◌+◌, ◌-◌, ◌*◌, ◌/◌, ◌%◌, ◌<◌, ◌≡◌, refl, ap, Text, codes, Bool, true, not, all, ◌&&◌, Option,
  none, some, [], ◌∷◌, length, get_or, All, leb, ◌==◌, if◌then◌else◌, all_below, all_below-at,
  arith,
}
use mu5250_wireguard.Base.Digits.{is_digit, is_space, trim, trim-id}

-- The table `LUT`, indexed by a nibble.
lut : ℕ → ℕ
lut n = get_or (codes "0123456789abcdef") n 0

unfoldable pub hex_encode : Text → Text
unfolding lut
hex_encode [] = []
hex_encode (b ∷ bytes) = lut (b / 16) ∷ lut (b % 16) ∷ hex_encode bytes

-- `Err(())` is `none`.
hex_nibble : ℕ → Option ℕ
hex_nibble b =
    if is_digit b
    then some (b - b'0')
    else if leb b'a' b && leb b b'f'
    then some (b - b'a' + 10)
    else if leb b'A' b && leb b b'F'
    then some (b - b'A' + 10)
    else none

-- A pair of digits in front of the bytes behind them.
abbrev joined : Option ℕ → Option ℕ → Option Text → Option Text
joined (some hi) (some lo) (some bytes) = some ((hi * 16 + lo) ∷ bytes)
joined _ _ _ = none

-- An odd length is refused; the chunks are read left to right.
unfoldable pub hex_decode : Text → Option Text
unfolding hex_nibble
hex_decode [] = some []
hex_decode (a ∷ []) = none
hex_decode (a ∷ b ∷ hex) = joined (hex_nibble a) (hex_nibble b) (hex_decode hex)

nibble_table :
    all_below 16 (λ n. elim (hex_nibble (lut n)) [ some m ↦ m == n | none ↦ Bool.false ]) ≡ true
unfolding all_below hex_nibble lut
nibble_table = refl

hex_nibble-lut : (n : ℕ) → n < 16 → hex_nibble (lut n) ≡ some n
hex_nibble-lut n h =
    let e =
      all_below-at 16 (λ m. elim (hex_nibble (lut m)) [ some k ↦ k == m | none ↦ Bool.false ]) n
        nibble_table h in
    ground arith

-- Decoding the encoding of a list of bytes, all below 256, gives the bytes back.
pub hex_decode-hex_encode :
    (bytes : Text) → All (λ b. b < 256) bytes → hex_decode (hex_encode bytes) ≡ some bytes
unfolding hex_decode hex_encode
hex_decode-hex_encode [] h = refl
hex_decode-hex_encode (b ∷ bytes) (lt, rest) =
    rw
      (
        hex_nibble-lut (b / 16) (omega arith),
        hex_nibble-lut (b % 16) (omega arith),
        hex_decode-hex_encode bytes rest,
      )
      (ap (λ (n : ℕ). some (n ∷ bytes)) (omega arith))

pub length-hex_encode : (bytes : Text) → length (hex_encode bytes) ≡ length bytes * 2
unfolding hex_encode
length-hex_encode [] = refl
length-hex_encode (b ∷ bytes) = omega (arith, length-hex_encode bytes)

lut_table : all_below 16 (λ n. not (is_space (lut n))) ≡ true
unfolding all_below lut
lut_table = refl

hex_encode-solid :
    (bytes : Text)
    → All (λ b. b < 256) bytes
    → all (λ b. not (is_space b)) (hex_encode bytes) ≡ true
unfolding hex_encode
hex_encode-solid [] h = refl
hex_encode-solid (b ∷ bytes) (lt, rest) =
    rw
      (
        all_below-at 16 (λ n. not (is_space (lut n))) (b / 16) lut_table (omega arith),
        all_below-at 16 (λ n. not (is_space (lut n))) (b % 16) lut_table (omega arith),
      )
      (hex_encode-solid bytes rest)

-- No digit is white space, so trimming leaves an encoding as it is.
pub trim-hex_encode :
    (bytes : Text) → All (λ b. b < 256) bytes → trim (hex_encode bytes) ≡ hex_encode bytes
trim-hex_encode bytes h = trim-id (hex_encode bytes) (hex_encode-solid bytes h)
