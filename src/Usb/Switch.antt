-- ===== src/Usb/Switch.antt =====
-- agent/src/usb.rs: the two switches of the composition, the operations of a restoration on the
-- device, and the enforcement of the kept mode at boot.
pub mod Boot
use mu5250_wireguard.Base.Digits.{trim}
use mu5250_wireguard.Base.{
  is_ok, ◌+◌, Bool, true, false, not, ◌&&◌, Option, none, some, List, [], ◌∷◌, ◌++◌, if◌then◌else◌,
  Text, codes, text_eq, Result, ok, err, any,
}
use mu5250_wireguard.Usb.Gadget.{
  Entry, Readings, RestoreIo, SwitchError, path, udc_path, entry_path, transactional_switch,
  starts_f,
}
use mu5250_wireguard.Usb.Modes.{Mode, ncm, ecm, rndis}
use mu5250_wireguard.Usb.Wait.{Clock, poll}
use mu5250_wireguard.Base.World.{Io, lift, ◌>>=◌}

-- Files, links, the bridge, the controllers and the commands of the device, with its clock.
-- `interface` says which network interfaces there are.
pub record Device (W : Type 0) : Type 0 where
  pub readings : Readings W
  pub clock : Clock W
  pub write : Text → Text → Io W Text (Unit {0})
  pub remove_file : Text → Io W Text (Unit {0})
  pub symlink : Text → Text → Io W Text (Unit {0})
  pub run_command : Text → List Text → Io W Text (Unit {0})
  pub first_udc_name : W → Option Text
  pub interface : W → Text → Bool

abbrev pub ncm_function : Text
ncm_function = codes "functions/ncm.0"

abbrev non_empty : Text → Option Text
non_empty [] = none
non_empty (b ∷ s) = some (b ∷ s)

abbrev trimmed : Result Text Text → Option Text
trimmed (err e) = none
trimmed (ok s) = non_empty (trim s)

abbrev or_else {ℓ} : {A : Type ℓ} → Option A → Option A → Option A
or_else none b = b
or_else (some a) b = some a

abbrev or_empty : Option Text → Text
or_empty none = []
or_empty (some s) = s

abbrev pub is_some {ℓ} : {A : Type ℓ} → Option A → Bool
is_some none = false
is_some (some a) = true

-- `.ok_or_else(...)` on what a wait found; the fuel of a wait is enough for its rounds.
abbrev found_or : {W A : Type 0} → Text → Option (Option A × W) → W → Result Text A × W
found_or message none w = (err message, w)
found_or message (some (none, w')) w = (err message, w')
found_or message (some (some a, w')) w = (ok a, w')

abbrev when_some {ℓ} : {A : Type ℓ} → Bool → A → Option A
when_some true a = some a
when_some false a = none

abbrev file_name : Result Text Text → List Text
file_name (ok target) = target ∷ []
file_name (err e) = []

module _ {W : Type 0} (dev : Device W) where
  pub read_trimmed : W → Text → Option Text
  read_trimmed w p = trimmed (dev.readings.read w p)

  -- The first failure of the conditions of both preflights, on the function of the mode.
  unfoldable pub preflight : Text → Text → W → Result Text (Unit {0})
  preflight function missing w =
      if not (dev.readings.exists w (codes "/sys/kernel/config/usb_gadget/g1"))
      then err (codes "USB gadget configfs is not mounted")
      else if not (dev.readings.exists w function)
      then err missing
      else if not (dev.readings.exists w (path "functions/mass_storage.0"))
      then err (codes "mass_storage.0 function is missing; refusing to build partial composition")
      else if not (is_some (dev.first_udc_name w)) && not (is_some (read_trimmed w udc_path))
      then err (codes "no USB device controller is available")
      else ok tt

  pub remove_each : List Entry → Io W Text (Unit {0})
  remove_each [] w = (ok tt, w)
  remove_each (e ∷ es) w =
      let rest = remove_each es in
      let removed = (dev.remove_file (entry_path e) >>= λ _. rest) w in
      if starts_f e.name && is_ok e.target then removed else rest w

  unfoldable pub remove_config_links : Io W Text (Unit {0})
  unfolding remove_each
  remove_config_links w = (lift (dev.readings.entries w) >>= remove_each) w

  unfoldable pub write_if_exists : Text → Text → Io W Text (Unit {0})
  write_if_exists p v w = if dev.readings.exists w p then dev.write p v w else (ok tt, w)

  abbrev pub bridge_members : W → List Text
  bridge_members w = elim (dev.readings.members w) [ ok ms ↦ ms | err e ↦ [] ]

  unfoldable pub add_bridge_member : Text → Io W Text (Unit {0})
  add_bridge_member name w =
      if any (λ m. text_eq m name) (bridge_members w)
      then (ok tt, w)
      else dev.run_command (codes "brctl") (codes "addif" ∷ codes "br-lan" ∷ name ∷ []) w

  unfoldable pub remove_bridge_member : Text → Io W Text (Unit {0})
  remove_bridge_member name w =
      if any (λ m. text_eq m name) (bridge_members w)
      then dev.run_command (codes "brctl") (codes "delif" ∷ codes "br-lan" ∷ name ∷ []) w
      else (ok tt, w)

  -- 10 s in steps of 250 ms.
  unfoldable pub wait_for : {A : Type 0} → (W → Option A) → Text → Io W Text A
  wait_for found message w =
      found_or message (poll dev.clock 42 found (dev.clock.now w + 10000) w) w

  unfoldable pub wait_for_interface : Text → Text → Io W Text Text
  wait_for_interface name message = wait_for (λ w. when_some (dev.interface w name) name) message

  abbrev real_name : Option Text → Option Text
  real_name none = none
  real_name (some s) = if text_eq s (codes "(unnamed net_device)") then none else some s

  abbrev existing : W → Option Text → Option Text
  existing w none = none
  existing w (some s) = if dev.interface w s then some s else none

  unfoldable pub ncm_interface_name : W → Option Text
  ncm_interface_name w = existing w (real_name (read_trimmed w (path "functions/ncm.0/ifname")))

  -- `current_composition_functions`, of the names of the links' targets.
  pub functions_of : List Entry → List Text
  functions_of [] = []
  functions_of (e ∷ es) =
      let rest = functions_of es in if starts_f e.name then file_name e.target ++ rest else rest

  unfoldable pub current_functions : W → List Text
  unfolding functions_of
  current_functions w = elim (dev.readings.entries w) [ ok es ↦ functions_of es | err e ↦ [] ]

  -- The body of the loop of `wait_for_ncm_interface`.
  unfoldable pub ncm_found : W → Option Text
  ncm_found w = or_else (ncm_interface_name w) (
      if dev.interface w (codes "ncm0")
      then some (codes "ncm0")
      else if any (λ f. text_eq f (codes "ncm.0")) (current_functions w)
          && dev.interface w (codes "usb0")
      then some (codes "usb0")
      else none)

  -- The writes and links that both switches make, by their product, name, function and mode.
  pub compose : Text → Text → Text → Io W Text (Unit {0})
  compose product configuration function = do
    _ ← write_if_exists (path "idVendor") (codes "0x19d2")
    _ ← write_if_exists (path "idProduct") product
    _ ← write_if_exists (path "strings/0x409/product") (codes "ZTE Mobile Broadband")
    _ ← write_if_exists (path "configs/c.1/strings/0x409/configuration") configuration
    _ ← write_if_exists (path "bDeviceClass") (codes "0x02")
    _ ← write_if_exists (path "os_desc/use") (codes "1")
    _ ← write_if_exists (path "os_desc/b_vendor_code") (codes "0x04")
    _ ← write_if_exists (path "os_desc/qw_sign") (codes "MSFT100")
    _ ← dev.symlink function (path "configs/c.1/f1")
    dev.symlink (path "functions/mass_storage.0") (path "configs/c.1/f2")

  abbrev controller : W → Text
  controller w = or_empty (or_else (read_trimmed w udc_path) (dev.first_udc_name w))

  abbrev up_and_join : Text → Io W Text (Unit {0})
  up_and_join name = do
    _ ← dev.run_command (codes "ifconfig") (name ∷ codes "up" ∷ [])
    add_bridge_member name

  unfoldable pub switch_to_ncm_now : Io W Text (Unit {0})
  unfolding compose
  switch_to_ncm_now w =
      (do
        _ ← lift (
            preflight (path "functions/ncm.0")
              (codes "NCM configfs function is not available on this firmware") w)
        let udc = controller w
        _ ← dev.write udc_path []
        _ ← remove_config_links
        _ ← compose (codes "0x1406") (codes "NCM_MASS_STORAGE") (path "functions/ncm.0")
        _ ← dev.write udc_path udc
        name ← wait_for ncm_found (codes "NCM interface did not appear after binding")
        up_and_join name)
        w

  pub remove_members : List Text → Io W Text (Unit {0})
  remove_members [] w = (ok tt, w)
  remove_members (m ∷ ms) w = (remove_bridge_member m >>= λ _. remove_members ms) w

  -- `ncm_bridge_candidates`, sorted by `arrange`.
  unfoldable pub ncm_bridge_candidates : W → (List Text → List Text) → List Text
  ncm_bridge_candidates w arrange =
      arrange (elim (real_name (read_trimmed w (path "functions/ncm.0/ifname"))) [
        | none ↦ codes "ncm0" ∷ codes "usb0" ∷ []
        | some s ↦ s ∷ codes "ncm0" ∷ codes "usb0" ∷ []
      ])

  unfoldable pub switch_to_ecm_now : (List Text → List Text) → Io W Text (Unit {0})
  unfolding compose remove_members
  switch_to_ecm_now arrange w =
      (do
        _ ← lift (
            preflight (path "functions/gsi.ecm")
              (codes "GSI ECM configfs function is not available on this firmware") w)
        let udc = controller w
        let members = ncm_bridge_candidates w arrange
        _ ← remove_members members
        _ ← dev.write udc_path []
        _ ← remove_config_links
        _ ← compose (codes "0x1405") (codes "ECM_MASS_STORAGE") (path "functions/gsi.ecm")
        _ ← dev.write udc_path udc
        _ ← wait_for_interface (codes "ecm0") (codes "ECM interface did not appear after binding")
        _ ← up_and_join (codes "ecm0")
        remove_members members)
        w

  -- `RestoreHardware`
  unfoldable pub restore_hardware : RestoreIo W
  restore_hardware = record {
    write = dev.write;
    remove_links = remove_config_links;
    link = dev.symlink;
    members = λ w. (dev.readings.members w, w);
    remove_member = remove_bridge_member;
    restore_member = λ m. do
      name ← wait_for_interface m (codes "restore interface did not appear")
      up_and_join m;
  }

  abbrev switch_to : (List Text → List Text) → Mode → Io W Text (Unit {0})
  switch_to arrange ncm = switch_to_ncm_now
  switch_to arrange ecm = switch_to_ecm_now arrange
  switch_to arrange rndis = switch_to_ecm_now arrange

  -- `transactional_switch`
  unfoldable pub switch_mode : (List Text → List Text) → Mode → Io W SwitchError (Unit {0})
  switch_mode arrange mode =
      transactional_switch dev.readings restore_hardware (switch_to arrange mode)
