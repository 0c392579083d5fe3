-- ===== src/LanChange/Bits.antt =====
-- The operations of `u32` on bits that agent/src/router.rs uses, at a width.
use mu5250_wireguard.Base.{ℕ, zero, suc, ◌+◌, ◌*◌, ◌/◌, ◌%◌, ◌≡◌, refl, ◌==◌, if◌then◌else◌}

unfoldable pub word : ℕ
word = 4294967296

-- `a & b`
unfoldable pub bitand : ℕ → ℕ → ℕ → ℕ
bitand zero a b = 0
bitand (suc w) a b = a % 2 * (b % 2) + 2 * bitand w (a / 2) (b / 2)

-- `a | b`
unfoldable pub bitor : ℕ → ℕ → ℕ → ℕ
bitor zero a b = 0
bitor (suc w) a b =
    let rest = bitor w (a / 2) (b / 2) in (if a % 2 == 0 then b % 2 else 1) + 2 * rest

-- `count_ones`
unfoldable pub count_ones : ℕ → ℕ → ℕ
count_ones zero a = 0
count_ones (suc w) a = a % 2 + count_ones w (a / 2)

tests :
    (bitand 32 3232235777 4294967040 ≡ 3232235776)
    × (bitor 32 3232235776 255 ≡ 3232236031)
    × (count_ones 32 4294967040 ≡ 24)
unfolding bitand bitor count_ones
tests = (refl, refl, refl)
