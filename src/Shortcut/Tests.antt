-- ===== src/Shortcut/Tests.antt =====
-- Four presses, and a hold of the corner.
use mu5250_wireguard.Base.{ℕ, ◌≤◌, ◌≡◌, refl, true, false, List, [], ◌∷◌}
use mu5250_wireguard.Shortcut.Gesture.{Event, default, event, run, is_release, releases, run-fourth}
use mu5250_wireguard.Shortcut.Corner.{Step, on_event, new, due, report, take_event, place, step}
use mu5250_wireguard.Shortcut.Corner.{event as touch, run as watch}
use mu5250_wireguard.Base.Int.{ℤ, pos, ◌-ℤ◌}

abbrev key : ℕ → ℕ → Event
key value ms = record { kind = 1; code = 116; value = pos value; ms = pos ms }

abbrev presses : List Event
presses =
    key 1 1000 ∷ key 0 1100 ∷ key 1 1300 ∷ key 0 1400 ∷ key 1 1600 ∷ key 0 1700 ∷ key 1 1900 ∷ []

fourth_fires : (event (key 0 2000) (run presses (false, default)).1).0 ≡ true
unfolding event run ◌-ℤ◌
fourth_fires = refl

run-fourth_example : (is_release (key 0 2000) ≡ true) × (3 ≤ releases 0 presses)
run-fourth_example = run-fourth presses (key 0 2000) fourth_fires

abbrev upright : ℤ → ℤ → ℤ × ℤ
upright x y = (x, y)

abbrev touched : List Step
touched =
    on_event (record { kind = 3; code = 57; value = pos 7 }) 10
    ∷ on_event (record { kind = 3; code = 53; value = pos 20 }) 10
    ∷ on_event (record { kind = 3; code = 54; value = pos 30 }) 10
    ∷ on_event (record { kind = 0; code = 0; value = pos 0 }) 11
    ∷ []

hold_fires : (due 2011 (watch upright touched new)).0 ≡ true
unfolding due watch step touch take_event report place
hold_fires = refl
