-- ===== src/Base/Decimal.antt =====
-- Decimal notation, as `{}` prints an unsigned integer.
use mu5250_wireguard.Base.{ℕ, zero, suc, ◌+◌, ◌/◌, ◌%◌, [], ◌∷◌, if◌then◌else◌, Text, ltb}

-- The digits of `n` in front of `acc`; a round per digit.
pub decimal_from : ℕ → ℕ → Text → Text
decimal_from zero n acc = acc
decimal_from (suc k) n acc =
    let rest = decimal_from k (n / 10) ((n % 10 + b'0') ∷ acc) in
    if ltb n 10 then (n + b'0') ∷ acc else rest

-- Twenty digits hold every 64-bit number.
unfoldable pub decimal : ℕ → Text
unfolding decimal_from
decimal n = decimal_from 20 n []
