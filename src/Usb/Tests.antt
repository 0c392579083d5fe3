-- ===== src/Usb/Tests.antt =====
-- The kept mode, a request, a wait, and a boot that switches.
use mu5250_wireguard.Base.Digits.{trim}
use mu5250_wireguard.Base.{
  ℕ, ◌+◌, ◌≡◌, ◌≢◌, ◌⊎◌, refl, Bool, true, false, Option, some, List, [], ◌∷◌, arith, Text, codes,
  text_eq, ok, err, leb,
}
use mu5250_wireguard.Json.{Value, object, end, field, string, boolean, index, as_str}
use mu5250_wireguard.Usb.Gadget.{Readings, not_captured, capture, transactional_switch}
use mu5250_wireguard.Usb.Modes.{
  ncm, ecm, mode_key, mode_text, parse_usb_default_mode, usb_mode_set, confirmed,
  detect_active_usb_mode, is_power_off_charging_state,
}
use mu5250_wireguard.Usb.Modes.Default.{usb_mode_set_guarded, reaches}
use mu5250_wireguard.Usb.Wait.{Clock, Sleeps, Ended, wait_until_ready, wait_until_ready-ends}
use mu5250_wireguard.Usb.Switch.{Device, switch_mode, current_functions}
use mu5250_wireguard.Usb.Switch.Boot.{
  switched, boot_ready, active_mode, enforce_usb_mode_on_boot, boot_guarded,
}

abbrev kept : Value
kept = object (field (codes "other") (boolean true) (field mode_key (string (codes " ECM")) end))

kept_ecm : parse_usb_default_mode kept ≡ some ecm
unfolding parse_usb_default_mode index trim text_eq
kept_ecm = refl

abbrev request : Value
request = object (
    field (codes "mode") (string (codes "ncm"))
      (field (codes "confirm_experimental") (boolean true) end))

request_taken : reaches (usb_mode_set true true false false (some request)) ≡ some ncm
unfolding usb_mode_set index text_eq
request_taken = refl

usb_mode_set_guarded_example :
    (◌≡◌ {A = Bool} false false)
    × (as_str (index request (codes "mode")) ≡ some (mode_text ncm))
    × ((ncm ≢ ncm) ⊎ ((confirmed request ≡ true) × (◌≡◌ {A = Bool} true true)))
    × ((ncm ≢ ecm) ⊎ (◌≡◌ {A = Bool} false false) ⊎ (◌≡◌ {A = Bool} true true))
usb_mode_set_guarded_example = usb_mode_set_guarded true true false false request ncm request_taken

abbrev clock : Clock ℕ
clock = record { now = λ t. t; sleep = λ d t. t + d }

clock-Sleeps : Sleeps clock
unfolding Sleeps
clock-Sleeps = λ d t. omega arith

abbrev late : ℕ → Bool
late t = leb 3000 t

wait_until_ready-ends_example :
    (r : Bool × ℕ) × (wait_until_ready clock 302 75000 250 late 7 ≡ some r)
    × Ended clock late 75007 r
wait_until_ready-ends_example =
    wait_until_ready-ends clock 75000 250 late 7 clock-Sleeps (omega arith)

-- Everything is there but the file of the controller, so that the capture fails.
abbrev readings : Readings ℕ
readings = record {
  exists = λ t p. true;
  read = λ t p. err (codes "no file");
  entries = λ t.
      ok (record { name = codes "f1"; is_symlink = ok true; target = ok (codes "gsi.ecm") } ∷ []);
  members = λ t. ok (codes "ecm0" ∷ []);
}

abbrev device : Device ℕ
device = record {
  readings = readings;
  clock = clock;
  write = λ p v t. (ok tt, t);
  remove_file = λ p t. (ok tt, t);
  symlink = λ x p t. (ok tt, t);
  run_command = λ c args t. (ok tt, t);
  first_udc_name = λ t. some (codes "a600000.dwc3");
  interface = λ t m. text_eq m (codes "ecm0");
}

abbrev power : ℕ → Option Text
power t = some (codes "mode_power_on")

abbrev same : List Text → List Text
same l = l

abbrev kept_ncm : Value
kept_ncm = object (field mode_key (string (codes "ncm")) end)

boot_switches :
    (enforce_usb_mode_on_boot device power same kept_ncm false 0).0
    ≡ switched (err (not_captured (codes "no file")))
unfolding enforce_usb_mode_on_boot parse_usb_default_mode index trim text_eq
    is_power_off_charging_state wait_until_ready boot_ready current_functions detect_active_usb_mode
    switch_mode transactional_switch capture
boot_switches = refl

boot_guarded_example :
    (parse_usb_default_mode kept_ncm ≡ some ncm)
    × (◌≡◌ {A = Bool} false false)
    × (is_power_off_charging_state (power 0) ≡ false)
    × ((later : ℕ) × (state : Text) × (boot_ready device later ≡ true)
        × (power later ≡ some state)
        × (is_power_off_charging_state (some state) ≡ false)
        × (active_mode device later ≢ some ncm))
boot_guarded_example = boot_guarded device power same kept_ncm false 0 clock-Sleeps boot_switches
