-- ===== src/Lan/Tests.antt =====
-- Device choices, and a change of policy whose application fails once.
use mu5250_wireguard.Base.{
  ℕ, ◌≡◌, refl, Bool, true, false, [], ◌∷◌, ◌==◌, if◌then◌else◌, Text, codes, text_eq, Result, ok,
  err,
}
use mu5250_wireguard.Base.World.{Io}
use mu5250_wireguard.Lan.{apply_each, DeviceChoice, Failure, mac, apply_devices, commit_change}
use mu5250_wireguard.Lan.Devices.{routed, chosen, apply_devices-routed}
use mu5250_wireguard.Base.Split.{split}

macs_checked :
    (mac (codes "02:11:22:33:44:55") ≡ true)
    × (mac (codes "03:11:22:33:44:55") ≡ false)
    × (mac (codes "02:11:22:33:44:5g") ≡ false)
    × (mac (codes "00:00:00:00:00:00") ≡ false)
unfolding mac split text_eq
macs_checked = (refl, refl, refl, refl)

abbrev laptop : Text
laptop = codes "02:11:22:33:44:55"

abbrev phone : Text
phone = codes "02:11:22:33:44:56"

abbrev choice : Text → Bool → DeviceChoice
choice m b = record { mac = m; selected = b }

choices_follow_mode :
    apply_devices (codes "all") (laptop ∷ []) (choice laptop true ∷ choice phone false ∷ [])
    ≡ ok (phone ∷ [])
unfolding apply_devices apply_each mac split text_eq
choices_follow_mode = refl

apply_devices-routed_example :
    routed (codes "all") (phone ∷ []) phone
    ≡ chosen
        (routed (codes "all") (laptop ∷ []) phone)
        (choice laptop true ∷ choice phone false ∷ [])
        phone
apply_devices-routed_example =
    apply_devices-routed (codes "all") (laptop ∷ []) (choice laptop true ∷ choice phone false ∷ [])
      phone choices_follow_mode

-- The policies are numbers; applying `bad` fails.
record Router : Type 0 where
  applied : ℕ
  saved : ℕ
  guarded : Bool

abbrev bad : ℕ
bad = 13

abbrev router_apply : ℕ → Io Router Text (Unit {0})
router_apply n w = (if n == bad then err (codes "refused") else ok tt, record w { applied = n })

abbrev router_persist : ℕ → Io Router Text (Unit {0})
router_persist n w = (ok tt, record w { saved = n })

abbrev router_release : Io Router Text (Unit {0})
router_release w = (ok tt, record w { guarded = false })

abbrev held : Router
held = record { applied = 1; saved = 1; guarded = true }

abbrev change : ℕ → Result (Failure Text) (Unit {0}) × Router
change n = commit_change router_apply router_persist router_release 1 n held
