-- ===== src/Sms/Tests.antt =====
-- A command that is done at the third answer.
use mu5250_wireguard.Base.{
  ℕ, ◌+◌, ◌<◌, ◌≡◌, refl, [], ◌∷◌, if◌then◌else◌, Text, codes, Result, ok, ltb, ◌↔◌,
}
use mu5250_wireguard.Sms.Wait.{DoneAt, wait_for_command-ok}
use mu5250_wireguard.Sms.{wait_for_command, ids_payload}
use mu5250_wireguard.Base.Int.{ℤ, pos}
use mu5250_wireguard.Base.Decimal.{decimal}

abbrev third : ℕ → Result Text ℤ
third i = ok (pos (if ltb i 2 then 1 else 3))

waited : wait_for_command third ≡ (ok tt, 3)
unfolding wait_for_command
waited = refl

payload : ids_payload (7 ∷ 120 ∷ []) ≡ ok (codes "7;120;")
unfolding ids_payload decimal
payload = refl

wait_for_command-ok_example :
    ((wait_for_command third).0 ≡ ok tt)
    ↔ ((k : ℕ) × (k < 20) × DoneAt third 0 k × (wait_for_command third ≡ (ok tt, k + 1)))
wait_for_command-ok_example = wait_for_command-ok third
