-- ===== src/Lan/Devices.antt =====
-- agent/src/lan_policy.rs: per-device choices against the routing mode.
use mu5250_wireguard.Base.{
  any-append, bool_eq, text_eq_iff, ◌≡◌, inl, inr, Bool, not, ◌&&◌, List, [], ◌∷◌, ◌++◌, map,
  if◌then◌else◌, arith, Text, codes, text_eq, ok, any, retain, Bool-cases,
}
use mu5250_wireguard.Base.Digits.{lower}
use mu5250_wireguard.Lan.{DeviceChoice, apply_each, apply_devices, is_selected_mode}

-- Is the device routed? In mode "selected" the list names the routed devices, else the others.
pub routed : Text → List Text → Text → Bool
routed mode macs m = bool_eq (any (λ v. text_eq v m) macs) (is_selected_mode mode)

-- The last choice made of a device, or what held before.
pub chosen : Bool → List DeviceChoice → Text → Bool
chosen before [] m = before
chosen before (c ∷ choices) m =
    chosen (if text_eq (map lower c.mac) m then c.selected else before) choices m

any-without :
    (v m : Text) (macs : List Text)
    → any (λ x. text_eq x m) (retain (λ x. not (text_eq x v)) macs)
      ≡ (not (text_eq v m) && any (λ x. text_eq x m) macs)
any-without v m [] = ground arith
any-without v m (x ∷ macs) =
    ground (arith, any-without v m macs, text_eq_iff x v, text_eq_iff v m, text_eq_iff x m)

-- The list after one choice.
abbrev after : Text → List Text → Text → Bool → List Text
after mode macs v selected =
    let others = retain (λ x. not (text_eq x v)) macs in
    if bool_eq selected (is_selected_mode mode) then others ++ v ∷ [] else others

routed-after :
    (mode : Text) (macs : List Text) (v : Text) (selected : Bool) (m : Text)
    → routed mode (after mode macs v selected) m
      ≡ (if text_eq v m then selected else routed mode macs m)
unfolding routed
routed-after mode macs v selected m =
    let others = retain (λ x. not (text_eq x v)) macs in
    let kept = any-without v m macs in
    let more = any-append (λ x. text_eq x m) others (v ∷ []) in
    elim (Bool-cases (text_eq mode (codes "selected"))) [
      | inl e ↦ ground (arith, e, kept, more)
      | inr e ↦ ground (arith, e, kept, more)
    ]

apply_each-routed :
    (mode : Text) (macs : List Text) (choices : List DeviceChoice) {next : List Text} (m : Text)
    → apply_each mode macs choices ≡ ok next
    → routed mode next m ≡ chosen (routed mode macs m) choices m
unfolding apply_each chosen
apply_each-routed mode macs [] m h = ground arith
apply_each-routed mode macs (c ∷ choices) {next} m h =
    let next1 = after mode macs (map lower c.mac) c.selected in
    rw (← routed-after mode macs (map lower c.mac) c.selected m)
      (apply_each-routed mode next1 choices m (ground arith))

-- After per-device choices are taken over in any mode, a device is routed as the last choice made
-- of it says, whichever way the list of the mode is to be read, and a device of which no choice was
-- made is routed as before.
pub apply_devices-routed :
    (mode : Text) (macs : List Text) (choices : List DeviceChoice) {next : List Text} (m : Text)
    → apply_devices mode macs choices ≡ ok next
    → routed mode next m ≡ chosen (routed mode macs m) choices m
unfolding apply_devices
apply_devices-routed mode macs choices {next} m h =
    apply_each-routed mode macs choices m (ground arith)
