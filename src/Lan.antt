-- ===== src/Lan.antt =====
-- agent/src/lan_policy.rs: which devices a gateway feature routes, and how a change of policy is
-- carried out.
pub mod Devices
pub mod Commit
pub mod Watched
mod Tests
use mu5250_wireguard.Base.{
  bool_eq, ℕ, zero, suc, ◌+◌, ◌-◌, ◌*◌, ◌/◌, ◌%◌, ◌^◌, ◌≤◌, ◌<◌, ◌≡◌, ◌≢◌, ◌↔◌, ◌⊎◌, inl, inr, ◌∙◌,
  refl, sym, ap, subst, Bool, true, false, not, ◌&&◌, ◌||◌, Option, none, some, List, [], ◌∷◌, ◌++◌,
  map, ◌==◌, if◌then◌else◌, arith, Text, codes, text_eq, Result, ok, err, leb, ltb, length, any,
  all, find, retain, All, Bool-cases, Option-cases, Result-cases,
}
use mu5250_wireguard.Base.World.{Io, ◌>>=◌, pure, fail, attempt, map_err}
use mu5250_wireguard.Base.Digits.{is_digit, is_hexdigit, lower}
use mu5250_wireguard.Base.Split.{split}

pub data Error : Type 0 where
  too_many_changes invalid_mac invalid_mode invalid_selection : Error

pub record DeviceChoice : Type 0 where
  pub mac : Text
  pub selected : Bool

-- The value of a hexadecimal digit.
pub digit_value : ℕ → ℕ
digit_value b = if is_digit b then b - b'0' else if leb b'a' b then b - b'a' + 10 else b - b'A' + 10

-- `u8::from_str_radix(&s[..2], 16)` of two digits is even.
pub is_unicast : Text → Bool
unfolding digit_value
is_unicast (a ∷ b ∷ s) = (digit_value a * 16 + digit_value b) % 2 == 0
is_unicast _ = false

unfoldable pub mac : Text → Bool
unfolding is_unicast
mac s =
    (length s == 17)
    && (length (split b':' s) == 6)
    && all (λ p. length p == 2 && all is_hexdigit p) (split b':' s)
    && is_unicast s
    && not (text_eq s (codes "00:00:00:00:00:00"))

abbrev pub is_selected_mode : Text → Bool
is_selected_mode mode = text_eq mode (codes "selected")

-- The loop of `apply_devices`.
pub apply_each : Text → List Text → List DeviceChoice → Result Error (List Text)
apply_each mode macs [] = ok macs
apply_each mode macs (c ∷ choices) =
    let m = map lower c.mac in
    let others = retain (λ v. not (text_eq v m)) macs in
    let next = if bool_eq c.selected (is_selected_mode mode) then others ++ m ∷ [] else others in
    let rest = apply_each mode next choices in if not (mac m) then err invalid_mac else rest

unfoldable pub apply_devices : Text → List Text → List DeviceChoice → Result Error (List Text)
apply_devices mode macs choices =
    if ltb 128 (length choices) then err too_many_changes else apply_each mode macs choices

unfoldable pub validate_selection : Text → List Text → Result Error (Unit {0})
validate_selection mode macs =
    if not (text_eq mode (codes "all")) && not (text_eq mode (codes "selected"))
    then err invalid_mode
    else if ltb 128 (length macs) || any (λ s. not (mac s)) macs
    then err invalid_selection
    else ok tt

-- The errors of `commit_change`: the failure alone, with the former policy not restored, and with
-- the guard not released.
pub data Failure (E : Type 0) : Type 0 where
  plain unrestored : E → Failure E
  guard_kept : E → E → Failure E

module _ {W S E : Type 0} (apply persist : S → Io W E (Unit {0}))
    (release : Io W E (Unit {0})) where
  -- What follows a failure, on the outcome of applying the former policy.
  recover : E → Result E (Unit {0}) → Io W (Failure E) (Unit {0})
  recover error (err _) w = (err (unrestored error), w)
  recover error (ok _) w = (map_err (guard_kept error) release >>= λ _. fail (plain error)) w

  decide : S → Result E (Unit {0}) → Io W (Failure E) (Unit {0})
  unfolding recover
  decide old (ok _) w = map_err plain release w
  decide old (err error) w = (attempt (apply old) >>= recover error) w

  unfoldable pub commit_change : S → S → Io W (Failure E) (Unit {0})
  unfolding decide
  commit_change old next = attempt (apply next >>= λ _. persist next) >>= decide old
