-- ===== src/AtPort.antt =====
-- agent/src/at_cmd.rs: which serial port answers AT commands, with a back-off between sweeps.
mod Backoff
mod Tests
use mu5250_wireguard.Base.{
  ℕ, zero, suc, ◌+◌, ◌-◌, ◌*◌, ◌/◌, ◌%◌, ◌^◌, ◌≤◌, ◌<◌, ◌≡◌, ◌≢◌, ◌↔◌, ◌⊎◌, inl, inr, ◌∙◌, refl,
  sym, ap, subst, Bool, true, false, not, ◌&&◌, ◌||◌, Option, none, some, List, [], ◌∷◌, ◌++◌, map,
  ◌==◌, if◌then◌else◌, arith, Text, codes, text_eq, Result, ok, err, leb, ltb, length, any, all,
  find, retain, All, Bool-cases, Option-cases, Result-cases,
}

-- Instants are seconds of a monotonic clock.
pub data PortState : Type 0 where
  unknown : PortState
  found : Text → PortState
  not_found : ℕ → PortState

abbrev pub ports : List Text
ports =
    codes "/dev/at_mdm0"
    ∷ codes "/dev/at_mdm1"
    ∷ codes "/dev/at_usb0"
    ∷ codes "/dev/smd7"
    ∷ codes "/dev/smd11"
    ∷ []

abbrev pub probe_backoff : ℕ
probe_backoff = 60

-- What the first `match` of `detect` returns at the time `now`; `none` where a sweep is due.
unfoldable pub known : ℕ → PortState → Option (Option Text)
known now unknown = none
known now (found port) = some (some port)
known now (not_found until) = if ltb now until then some none else none

-- What follows the loop over the ports, by the port that answered.
abbrev probed : Option Text → ℕ → Option Text × PortState × Bool
probed (some port) swept = (some port, found port, true)
probed none swept = (none, not_found (swept + probe_backoff), true)

abbrev settled : Option (Option Text) → Option Text → ℕ → PortState → Option Text × PortState × Bool
settled (some result) port swept state = (result, state, false)
settled none port swept state = probed port swept

-- `answers port` says that the port exists and answers "AT" with "OK"; the sweep ends at `swept`.
-- The last component says whether there was a sweep.
unfoldable pub detect : (Text → Bool) → ℕ → ℕ → PortState → Option Text × PortState × Bool
detect answers now swept state = settled (known now state) (find answers ports) swept state
