-- ===== src/Auth/Salt.antt =====
-- agent/src/auth.rs: `load_or_create_salt`.
use mu5250_wireguard.Base.{◌≡◌, ◌<◌, ◌≤◌, Text, none, some, subst, length, All, arith}
use mu5250_wireguard.Auth.Hex.{hex_encode, hex_decode-hex_encode, trim-hex_encode}
use mu5250_wireguard.Auth.{load_or_create_salt}

reload :
    (random other : Text)
    → All (λ b. b < 256) random
    → 16 ≤ length random
    → load_or_create_salt (some (hex_encode random)) other ≡ (random, none)
unfolding load_or_create_salt
reload random other bytes long =
    rw (trim-hex_encode random bytes, hex_decode-hex_encode random bytes) (ground arith)

-- The salt that a first start creates from at least sixteen random bytes is the one that every
-- later start loads from the file, whatever random bytes it would have drawn, and the later start
-- writes nothing.
pub load_or_create_salt_stable :
    (random other file : Text)
    → All (λ b. b < 256) random
    → 16 ≤ length random
    → (load_or_create_salt none random).1 ≡ some file
    → load_or_create_salt (some file) other ≡ ((load_or_create_salt none random).0, none)
unfolding load_or_create_salt
load_or_create_salt_stable random other file bytes long written =
    let e : hex_encode random ≡ file = cc in
    subst (λ f. load_or_create_salt (some f) other ≡ (random, none)) e
      (reload random other bytes long)
