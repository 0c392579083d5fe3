-- ===== src/Usb/Modes.antt =====
-- agent/src/usb.rs: the mode that is kept for the next boot, the guard of a switch, the requests
-- for a mode, and what happens at boot.
pub mod Default
use mu5250_wireguard.Base.{
  ℕ, zero, suc, ◌+◌, ◌-◌, ◌*◌, ◌/◌, ◌%◌, ◌^◌, ◌≤◌, ◌<◌, ◌≡◌, ◌≢◌, ◌↔◌, ◌⊎◌, inl, inr, ◌∙◌, refl,
  sym, ap, subst, Bool, true, false, not, ◌&&◌, ◌||◌, Option, none, some, List, [], ◌∷◌, ◌++◌, map,
  ◌==◌, if◌then◌else◌, arith, Text, codes, text_eq, Result, ok, err, leb, ltb, length, any, all,
  find, retain, All, Bool-cases, Option-cases, Result-cases,
}
use mu5250_wireguard.Json.{
  Value, Fields, null, boolean, number, string, array, object, end, field, entry, index, as_str,
}
use mu5250_wireguard.Base.Digits.{trim, lower}

pub data Mode : Type 0 where
  ncm ecm rndis : Mode

abbrev pub mode_text : Mode → Text
mode_text ncm = codes "ncm"
mode_text ecm = codes "ecm"
mode_text rndis = codes "rndis"

abbrev pub mode_key : Text
mode_key = codes "usb_default_mode"

abbrev default_mode : Text → Option Mode
default_mode s =
    if text_eq s (codes "ncm") then some ncm else if text_eq s (codes "ecm") then some ecm else none

unfoldable pub parse_usb_default_mode : Value → Option Mode
parse_usb_default_mode persisted = elim (as_str (index persisted mode_key)) [
  | none ↦ none
  | some s ↦ default_mode (map lower (trim s))
]

-- `value.get(KEY)` as the only entry of an object; the empty object where there is none.
abbrev migrated : Option Value → Value
migrated none = object end
migrated (some v) = object (field mode_key v end)

abbrev pub get : Value → Text → Option Value
get (object fields) key = entry fields key
get _ key = none

abbrev legacy_mode : Option Value → Value
legacy_mode none = object end
legacy_mode (some v) = migrated (get v mode_key)

-- The two files, each as the JSON that it holds, if it can be read as such.
unfoldable pub read_persisted_config : Option Value → Option Value → Value
read_persisted_config (some value) legacy = value
read_persisted_config none legacy = legacy_mode legacy

-- `Map::insert`
unfoldable pub insert : Text → Value → Fields → Fields
insert key v end = field key v end
insert key v (field k w rest) =
    let others = insert key v rest in if text_eq k key then field k v rest else field k w others

abbrev as_fields : Value → Fields
as_fields (object fields) = fields
as_fields _ = end

-- What `set_usb_default_mode` writes.
unfoldable pub set_usb_default_mode : Mode → Value → Value
set_usb_default_mode mode persisted =
    object (insert mode_key (string (mode_text mode)) (as_fields persisted))

-- `SwitchGuard::acquire`, on the flag `USB_BUSY`.
abbrev pub acquire : Bool → Option Bool
acquire true = none
acquire false = some true

abbrev is_confirmed : Value → Bool
is_confirmed (boolean b) = b
is_confirmed _ = false

abbrev pub confirmed : Value → Bool
confirmed parsed = is_confirmed (index parsed (codes "confirm_experimental"))

-- What a request for a mode comes to: a status with no effect, a switch that is scheduled, or a
-- call of the firmware.
pub data Action : Type 0 where
  refuse : ℕ → Action
  schedule : Mode → Action
  firmware : Mode → Action

abbrev if_free : Bool → Action → Action
if_free true a = refuse 409
if_free false a = a

abbrev checked : Bool → Action → Action
checked true a = a
checked false a = refuse 400

-- `usb_mode_set`; `ncm_ready` and `ecm_ready` are the two preflights, `is_ncm` says that the
-- composition has "ncm.0".
unfoldable pub usb_mode_set : (ncm_ready ecm_ready is_ncm busy : Bool) → Option Value → Action
usb_mode_set ncm_ready ecm_ready is_ncm busy none = refuse 400
usb_mode_set ncm_ready ecm_ready is_ncm busy (some parsed) =
    elim (as_str (index parsed (codes "mode"))) [
      | none ↦ refuse 400
      | some mode ↦
          if text_eq mode (codes "ncm")
          then checked (confirmed parsed) (checked ncm_ready (if_free busy (schedule ncm)))
          else if text_eq mode (codes "ecm") && is_ncm
          then checked ecm_ready (if_free busy (schedule ecm))
          else if text_eq mode (codes "ecm")
          then if_free busy (firmware ecm)
          else if text_eq mode (codes "rndis")
          then if_free busy (firmware rndis)
          else refuse 400
    ]

-- `usb_default_set` up to the write: the mode that is kept.
unfoldable pub usb_default_set : (ncm_ready busy : Bool) → Option Value → Action
usb_default_set ncm_ready busy parsed = if_free busy (elim parsed [
  | none ↦ refuse 400
  | some v ↦ elim (as_str (index v (codes "mode"))) [
    | none ↦ refuse 400
    | some mode ↦
        if text_eq mode (codes "ecm")
        then schedule ecm
        else if text_eq mode (codes "ncm")
        then checked (confirmed v) (checked ncm_ready (schedule ncm))
        else refuse 400
  ]
])

unfoldable pub is_power_off_charging_state : Option Text → Bool
is_power_off_charging_state none = false
is_power_off_charging_state (some s) =
    text_eq s (codes "mode_power_off_charger") || text_eq s (codes "mode_power_off_unreal")

abbrev has : List Text → Text → Bool
has functions f = any (λ g. text_eq g f) functions

-- `detect_active_usb_mode`, from the functions of the composition and the interfaces there are.
unfoldable pub detect_active_usb_mode : List Text → (Text → Bool) → Option Mode
detect_active_usb_mode functions interface =
    if has functions (codes "ncm.0")
    then some ncm
    else if has functions (codes "gsi.ecm") || has functions (codes "ecm.ecm")
    then some ecm
    else if has functions (codes "gsi.rndis") || has functions (codes "rndis.rndis")
    then some rndis
    else if interface (codes "ncm0")
    then some ncm
    else if interface (codes "ecm0")
    then some ecm
    else if interface (codes "rndis0")
    then some rndis
    else none

-- Transfer rates are in tenths of Mbit/s.
unfoldable pub usb_speed_label : Text → Option (Text × ℕ)
usb_speed_label speed =
    if text_eq speed (codes "low-speed")
    then some (codes "USB 1.0", 15)
    else if text_eq speed (codes "full-speed")
    then some (codes "USB 1.1", 120)
    else if text_eq speed (codes "high-speed")
    then some (codes "USB 2.0", 4800)
    else if text_eq speed (codes "super-speed")
    then some (codes "USB 3.0", 50000)
    else if text_eq speed (codes "super-speed-plus")
    then some (codes "USB 3.1 Gen2", 100000)
    else none

unfoldable pub supported_modes : Bool → List Mode
supported_modes ncm_function = if ncm_function then rndis ∷ ecm ∷ ncm ∷ [] else rndis ∷ ecm ∷ []
