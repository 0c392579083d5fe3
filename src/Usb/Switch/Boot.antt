-- ===== src/Usb/Switch/Boot.antt =====
-- agent/src/usb.rs: the enforcement of the kept mode at boot.
use mu5250_wireguard.Base.{
  not, ℕ, ◌+◌, ◌≡◌, ◌≢◌, inl, inr, refl, Bool, true, false, ◌&&◌, ◌||◌, Option, none, some, List,
  [], ◌∷◌, if◌then◌else◌, arith, Text, codes, text_eq, Result, any, Bool-cases, Option-cases,
}
use mu5250_wireguard.Json.{Value}
use mu5250_wireguard.Usb.Gadget.{SwitchError, path, udc_path}
use mu5250_wireguard.Usb.Modes.{
  Mode, ncm, ecm, rndis, parse_usb_default_mode, is_power_off_charging_state,
  detect_active_usb_mode,
}
use mu5250_wireguard.Usb.Wait.{wait_until_ready, Sleeps, Ended, wait_until_ready-ends}
use mu5250_wireguard.Usb.Switch.{
  Device, current_functions, read_trimmed, switch_mode, is_some, bridge_members,
}

-- How the boot ends: nothing done, with one of the two messages, in NCM already, or with a switch.
pub data Boot : Type 0 where
  skipped unready unknown_power already : Boot
  switched : Result SwitchError (Unit {0}) → Boot

abbrev is_nil {ℓ} : {A : Type ℓ} → List A → Bool
is_nil [] = true
is_nil (a ∷ s) = false

abbrev is_ncm : Option Mode → Bool
is_ncm none = false
is_ncm (some ncm) = true
is_ncm (some ecm) = false
is_ncm (some rndis) = false

is_ncm_iff : (m : Option Mode) → is_ncm m ≡ true → m ≡ some ncm
is_ncm_iff none h = absurd (ground arith)
is_ncm_iff (some ncm) h = refl
is_ncm_iff (some ecm) h = absurd (ground arith)
is_ncm_iff (some rndis) h = absurd (ground arith)

module _ {W : Type 0} (dev : Device W) where
  -- The closure of `wait_for_usb_boot_ready`.
  unfoldable pub boot_ready : W → Bool
  boot_ready w =
      dev.readings.exists w (codes "/sys/kernel/config/usb_gadget/g1")
      && dev.readings.exists w (path "configs/c.1")
      && dev.readings.exists w (path "functions/ncm.0")
      && dev.readings.exists w (path "functions/mass_storage.0")
      && (is_some (dev.first_udc_name w) || is_some (read_trimmed dev w udc_path))
      && not (is_nil (current_functions dev w))
      && any (λ m. text_eq m (codes "ecm0") || text_eq m (codes "rndis0")) (bridge_members dev w)

  abbrev pub active_mode : W → Option Mode
  active_mode w = detect_active_usb_mode (current_functions dev w) (dev.interface w)

  module _ (main_state : W → Option Text) (arrange : List Text → List Text) where
    -- The end of the thread, after the wait.
    abbrev switched_at : W → Boot × W
    switched_at w = let r = switch_mode dev arrange ncm w in (switched r.0, r.1)

    abbrev with_power : W → Boot × W
    with_power w =
        if not (is_some (main_state w))
        then (unknown_power, w)
        else if is_power_off_charging_state (main_state w)
        then (skipped, w)
        else if is_ncm (active_mode w)
        then (already, w)
        else switched_at w

    abbrev waited : Option (Bool × W) → W → Boot × W
    waited none w = (unready, w)
    waited (some (false, w')) w = (unready, w')
    waited (some (true, w')) w = with_power w'

    -- 75 s in steps of 250 ms; `busy` is the guard's flag.
    unfoldable pub enforce_usb_mode_on_boot : Value → Bool → W → Boot × W
    enforce_usb_mode_on_boot persisted busy w =
        if not (is_ncm (parse_usb_default_mode persisted))
        then (skipped, w)
        else if is_power_off_charging_state (main_state w)
        then (skipped, w)
        else if busy
        then (skipped, w)
        else waited (wait_until_ready dev.clock 302 75000 250 boot_ready w) w

    after_power :
        (w : W) {r : Result SwitchError (Unit {0})}
        → (with_power w).0 ≡ switched r
        → (s : Text) × (main_state w ≡ some s)
          × (is_power_off_charging_state (some s) ≡ false)
          × (is_ncm (active_mode w) ≡ false)
    after_power w h = elim (Option-cases (main_state w)) [
      | inl e ↦ absurd (ground (arith, e, h))
      | inr (s, e) ↦ elim (Bool-cases (is_power_off_charging_state (some s))) [
        | inl k ↦ absurd (ground (arith, e, k, h))
        | inr k ↦ elim (Bool-cases (is_ncm (active_mode w))) [
          | inl l ↦ absurd (ground (arith, e, k, l, h))
          | inr l ↦ (s, e, k, l)
        ]
      ]
    ]

    when_waited :
        (end : Bool × W) (w : W) (deadline : ℕ) {r : Result SwitchError (Unit {0})}
        → Ended dev.clock boot_ready deadline end
        → (waited (some end) w).0 ≡ switched r
        → (later : W) × (state : Text) × (boot_ready later ≡ true)
          × (main_state later ≡ some state)
          × (is_power_off_charging_state (some state) ≡ false)
          × (active_mode later ≢ some ncm)
    when_waited (false, later) w deadline ended h = absurd (ground arith)
    when_waited (true, later) w deadline ended h =
        let (s, known, on, other) = after_power later h in
        (later, s, ground (arith, ended), known, on, λ e. ground (arith, e, other))

    -- On a clock whose sleeps take their time: the boot switches only where NCM is the kept mode,
    -- no change is in progress, the device was not charging while off at first, and in some later
    -- state that is ready (with the functions, a controller, a composition and its stock interface
    -- in the bridge) the power state is known and is not that, and the mode is not NCM already.
    pub boot_guarded :
        (persisted : Value) (busy : Bool) (w : W) {r : Result SwitchError (Unit {0})}
        → Sleeps dev.clock
        → (enforce_usb_mode_on_boot persisted busy w).0 ≡ switched r
        → (parse_usb_default_mode persisted ≡ some ncm)
          × (busy ≡ false)
          × (is_power_off_charging_state (main_state w) ≡ false)
          × ((later : W) × (state : Text) × (boot_ready later ≡ true)
              × (main_state later ≡ some state)
              × (is_power_off_charging_state (some state) ≡ false)
              × (active_mode later ≢ some ncm))
    unfolding enforce_usb_mode_on_boot
    boot_guarded persisted busy w {r} sleeps h =
        elim (Bool-cases (is_ncm (parse_usb_default_mode persisted))) [
          | inr e ↦ absurd (ground (arith, e))
          | inl e ↦ elim (Bool-cases (is_power_off_charging_state (main_state w))) [
            | inl k ↦ absurd (ground (arith, e, k))
            | inr k ↦ elim (Bool-cases busy) [
              | inl l ↦ absurd (ground (arith, e, k, l))
              | inr l ↦
                  let (end, run, ended) =
                    wait_until_ready-ends dev.clock 75000 250 boot_ready w sleeps (omega arith) in
                  let rest : (waited (some end) w).0 ≡ switched r =
                    rw (← run) (ground (arith, e, k, l, h)) in
                  (
                    is_ncm_iff (parse_usb_default_mode persisted) e,
                    l,
                    k,
                    when_waited end w (dev.clock.now w + 75000) ended rest,
                  )
            ]
          ]
        ]
