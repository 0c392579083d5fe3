-- ===== src/Validate/Depth.antt =====
-- agent/src/validate.rs: what passes is shallow.
use mu5250_wireguard.Base.{ℕ, ◌+◌, ◌≤◌, ◌≡◌, if◌then◌else◌, arith, ok, ltb}
use mu5250_wireguard.Validate.{check_depth, check_fields, check_items, validate_ubus_input}
use mu5250_wireguard.Json.{
  Value, Items, Fields, null, boolean, number, string, array, object, nil, cons, end, field,
}

abbrev larger : ℕ → ℕ → ℕ
larger a b = if ltb a b then b else a

-- The longest way from the value to one inside it.
mutual
  pub depth : Value → ℕ
  depth (object fields) = depth_fields fields
  depth (array items) = depth_items items
  depth null = 0
  depth (boolean b) = 0
  depth (number n) = 0
  depth (string s) = 0

  depth_fields : Fields → ℕ
  depth_fields end = 0
  depth_fields (field k v fs) = larger (depth v + 1) (depth_fields fs)

  depth_items : Items → ℕ
  depth_items nil = 0
  depth_items (cons v vs) = larger (depth v + 1) (depth_items vs)

mutual
  unfolding check_depth depth

  within : (v : Value) (d : ℕ) → check_depth v d ≡ ok tt → depth v + d ≤ 8
  within (object fields) d h = ground (arith, within_fields fields d)
  within (array items) d h = ground (arith, within_items items d)
  within null d h = ground arith
  within (boolean b) d h = ground arith
  within (number n) d h = ground arith
  within (string s) d h = ground arith

  within_fields :
      (fs : Fields) (d : ℕ) → d ≤ 8 → check_fields fs (d + 1) ≡ ok tt → depth_fields fs + d ≤ 8
  within_fields end d k h = omega arith
  within_fields (field n v fs) d k h = ground (arith, within v (d + 1), within_fields fs d)

  within_items :
      (vs : Items) (d : ℕ) → d ≤ 8 → check_items vs (d + 1) ≡ ok tt → depth_items vs + d ≤ 8
  within_items nil d k h = omega arith
  within_items (cons v vs) d k h = ground (arith, within v (d + 1), within_items vs d)

-- A value that passes is nested at most eight deep.
pub validate_ubus_input-depth : (v : Value) → validate_ubus_input v ≡ ok tt → depth v ≤ 8
unfolding validate_ubus_input
validate_ubus_input-depth (object fields) h = ground (arith, within (object fields) 0)
validate_ubus_input-depth (array items) h = ground (arith, within (array items) 0)
validate_ubus_input-depth null h = ground arith
validate_ubus_input-depth (boolean b) h = ground arith
validate_ubus_input-depth (number n) h = ground arith
validate_ubus_input-depth (string s) h = ground arith
