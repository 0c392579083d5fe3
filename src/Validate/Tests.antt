-- ===== src/Validate/Tests.antt =====
-- A value at the limit of the depth.
use mu5250_wireguard.Base.{ℕ, zero, suc, ◌≡◌, refl, ok, err}
use mu5250_wireguard.Validate.{count_items, validate_ubus_input, too_deep}
use mu5250_wireguard.Json.{Value, null, array, nil, cons}

abbrev nested : ℕ → Value
nested zero = null
nested (suc n) = array (cons (nested n) nil)

eight_pass : validate_ubus_input (nested 8) ≡ ok tt
unfolding validate_ubus_input count_items
eight_pass = refl

nine_fail : validate_ubus_input (nested 9) ≡ err too_deep
unfolding validate_ubus_input count_items
nine_fail = refl
