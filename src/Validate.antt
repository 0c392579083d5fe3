-- ===== src/Validate.antt =====
-- agent/src/validate.rs: the limits on a JSON value from a client.
mod Depth
mod Tests
use mu5250_wireguard.Json.{
  Value, Items, Fields, null, boolean, number, string, array, object, nil, cons, end, field,
}
use mu5250_wireguard.Base.{
  ◌>>=◌, ℕ, zero, suc, ◌+◌, ◌-◌, ◌*◌, ◌/◌, ◌%◌, ◌^◌, ◌≤◌, ◌<◌, ◌≡◌, ◌≢◌, ◌↔◌, ◌⊎◌, inl, inr, ◌∙◌,
  refl, sym, ap, subst, Bool, true, false, not, ◌&&◌, ◌||◌, Option, none, some, List, [], ◌∷◌, ◌++◌,
  map, ◌==◌, if◌then◌else◌, arith, Text, codes, text_eq, Result, ok, err, leb, ltb, length, any,
  all, find, retain, All, Bool-cases, Option-cases, Result-cases,
}
use mu5250_wireguard.Base.{
  ℕ, zero, suc, ◌+◌, ◌-◌, ◌*◌, ◌/◌, ◌%◌, ◌^◌, ◌≤◌, ◌<◌, ◌≡◌, ◌≢◌, ◌↔◌, ◌⊎◌, inl, inr, ◌∙◌, refl,
  sym, ap, subst, Bool, true, false, not, ◌&&◌, ◌||◌, Option, none, some, List, [], ◌∷◌, ◌++◌, map,
  ◌==◌, if◌then◌else◌, arith, Text, codes, text_eq, Result, ok, err, leb, ltb, length, any, all,
  find, retain, All, Bool-cases, Option-cases, Result-cases,
}

pub data Error : Type 0 where
  too_deep too_many_keys array_too_large string_too_long null_value no_container : Error

pub count_items : Items → ℕ
count_items nil = 0
count_items (cons v vs) = count_items vs + 1

pub count_keys : Fields → ℕ
count_keys end = 0
count_keys (field k v fs) = count_keys fs + 1

mutual
  pub check_depth : Value → ℕ → Result Error (Unit {0})
  check_depth (object fields) depth =
      let rest = check_fields fields (depth + 1) in
      if ltb 8 depth
      then err too_deep
      else if ltb 64 (count_keys fields)
      then err too_many_keys
      else rest
  check_depth (array items) depth =
      let rest = check_items items (depth + 1) in
      if ltb 8 depth
      then err too_deep
      else if ltb 256 (count_items items)
      then err array_too_large
      else rest
  check_depth (string s) depth =
      if ltb 8 depth
      then err too_deep
      else if ltb 4096 (length s)
      then err string_too_long
      else ok tt
  check_depth null depth = if ltb 8 depth then err too_deep else ok tt
  check_depth (boolean b) depth = if ltb 8 depth then err too_deep else ok tt
  check_depth (number n) depth = if ltb 8 depth then err too_deep else ok tt

  pub check_fields : Fields → ℕ → Result Error (Unit {0})
  check_fields end depth = ok tt
  check_fields (field k v fs) depth = do _ ← check_depth v depth; check_fields fs depth

  pub check_items : Items → ℕ → Result Error (Unit {0})
  check_items nil depth = ok tt
  check_items (cons v vs) depth = do _ ← check_depth v depth; check_items vs depth

unfoldable pub validate_ubus_input : Value → Result Error (Unit {0})
unfolding check_depth
validate_ubus_input (object fields) = check_depth (object fields) 0
validate_ubus_input (array items) = check_depth (array items) 0
validate_ubus_input null = err null_value
validate_ubus_input _ = err no_container
