-- ===== src/Charge/Tests.antt =====
-- The enforcer over a charger whose writes can be made to fail, and the theorems at such inputs.
use mu5250_wireguard.Base.{
  ℕ, zero, suc, ◌≡◌, refl, inr, Text, codes, text_eq, Bool, true, false, Option, none, some, ok,
  err, [], ◌∷◌, arith,
}
use mu5250_wireguard.Base.World.{Io}
use mu5250_wireguard.Json.{Value, string, object, field, end}
use mu5250_wireguard.Charge.{
  Persisted, ChargeUpdate, Snapshot, LimitState, Charger, save_failed, field_required, received,
  timeout, charger_gone, desired, update, reconcile, run, new, text, Received,
}
use mu5250_wireguard.Charge.Invariant.{IsValid, new-IsValid, update-IsValid}
use mu5250_wireguard.Charge.Atomicity.{update_error_unchanged}
use mu5250_wireguard.Charge.Laws.{Laws, update-rolls_back}
use mu5250_wireguard.Charge.Override.{run-update_manual}
use mu5250_wireguard.Charge.Hardware.{Device, DeviceLaws, hardware, hardware-Laws, stopped_by}

-- `saves_to_fail` counts the saves that still fail.
record Fake : Type 0 where
  stopped : Bool
  capacity : ℕ
  saved : Option Persisted
  saves_to_fail : ℕ

abbrev fake_snapshot : Io Fake Text Snapshot
fake_snapshot w =
    (ok (record { stopped = w.stopped; capacity = w.capacity; discharging = false }), w)

abbrev fake_set : Bool → Io Fake Text (Unit {0})
fake_set b w = (ok tt, record w { stopped = b })

abbrev save_after : ℕ → Persisted → Io Fake Text (Unit {0})
save_after zero p w = (ok tt, record w { saved = some p })
save_after (suc n) p w = (err (codes "storage full"), record w { saves_to_fail = n })

abbrev fake_persist : Persisted → Io Fake Text (Unit {0})
fake_persist p w = save_after w.saves_to_fail p w

abbrev fake : Charger Fake
fake = record { snapshot = fake_snapshot; set_stopped = fake_set; persist = fake_persist }

save_after-true :
    (n : ℕ) (p : Persisted) (w : Fake)
    → (save_after n p w).0 ≡ ok tt
    → (save_after n p w).1.saved ≡ some p
save_after-true zero p w h = refl
save_after-true (suc n) p w h = ground arith

save_after-stopped : (n : ℕ) (p : Persisted) (w : Fake) → (save_after n p w).1.stopped ≡ w.stopped
save_after-stopped zero p w = refl
save_after-stopped (suc n) p w = refl

fake-Laws : Laws (λ w. w.stopped) (λ w. w.saved) fake
fake-Laws = record {
  snapshot_true = λ w now read. ground arith;
  snapshot_stopped = λ w. refl;
  snapshot_saved = λ w. refl;
  set_true = λ b w done. refl;
  set_saved = λ b w. refl;
  persist_true = λ p w. save_after-true w.saves_to_fail p w;
  persist_stopped = λ p w. save_after-stopped w.saves_to_fail p w;
}

abbrev policy : Persisted
policy = record { enabled = true; limit = 80; hysteresis = 5 }

abbrev state : LimitState
state = record { policy = policy; manual_override = false; last_error = none }

abbrev world : ℕ → Fake
world n = record { stopped = false; capacity = 90; saved = some policy; saves_to_fail = n }

abbrev nothing : ChargeUpdate
nothing = record {
  charging_stopped = none;
  charge_limit_enabled = none;
  charge_limit = none;
  hysteresis = none;
}

abbrev limit_to : ℕ → ChargeUpdate
limit_to n = record nothing { charge_limit = some n }

abbrev stop : ChargeUpdate
stop = record nothing { charging_stopped = some true }

abbrev unplug : Received
unplug = received (object (field (codes "charger_connect") (string (codes "0")) end))

-- A reconnect event that is lost is repaired by the next timed round.
missed_reconnect :
    ((run fake false [] state (world 0)).1.stopped ≡ true)
    × ((run fake false (unplug ∷ []) state (world 0)).1.stopped ≡ false)
    × ((run fake false (unplug ∷ timeout ∷ []) state (world 0)).1.stopped ≡ true)
unfolding run reconcile desired charger_gone text_eq
missed_reconnect = (refl, refl, refl)

empty_update : (update fake nothing state (world 0)).0 ≡ err field_required
unfolding update
empty_update = refl

new-IsValid_example : IsValid (new (λ t. some policy) (text [])).policy
new-IsValid_example = new-IsValid (λ t. some policy) (text [])

update-IsValid_example : IsValid (update fake (limit_to 101) state (world 0)).1.policy
update-IsValid_example = update-IsValid fake (limit_to 101) state (world 0) (omega arith)

full_disk :
    (update fake (limit_to 70) state (world 1)).0
    ≡ err (save_failed (codes "storage full") (ok tt) (ok tt))
unfolding update desired
full_disk = refl

update_error_unchanged_example :
    ((update fake (limit_to 70) state (world 1)).1.policy ≡ policy)
    × ((update fake (limit_to 70) state (world 1)).1.manual_override ≡ false)
update_error_unchanged_example = update_error_unchanged fake (limit_to 70) state (world 1) full_disk

update-rolls_back_example :
    ((update fake (limit_to 70) state (world 1)).2.stopped ≡ false)
    × ((update fake (limit_to 70) state (world 1)).2.saved ≡ some policy)
update-rolls_back_example =
    update-rolls_back (λ w. w.stopped) (λ w. w.saved) fake fake-Laws (limit_to 70) state (world 1)
      (codes "storage full") (inr full_disk) refl

run-update_manual_example :
    run fake false
      (timeout ∷ [])
      (update fake stop state (world 0)).1
      (update fake stop state (world 0)).2
    ≡ ((update fake stop state (world 0)).1, (update fake stop state (world 0)).2)
unfolding update
run-update_manual_example =
    run-update_manual fake stop state (world 0) (timeout ∷ []) refl refl (refl, tt)

-- A firmware that does as it is told.
record Firmware : Type 0 where
  mode : Value
  saved : Option Persisted

abbrev mode_value : Text → Value
mode_value m = object (field (codes "direct_power_supply_mode") (string m) end)

abbrev obedient : Device Firmware
obedient = record {
  list = λ w. (ok w.mode, w);
  set = λ m w. (ok (object end), record w { mode = mode_value m });
  capacity_file = λ w. some (codes "90\n");
  status_file = λ w. some (codes "Charging\n");
  write_policy = λ p w. (ok tt, record w { saved = some p });
}

obedient-DeviceLaws : DeviceLaws (λ w. w.mode) (λ w. w.saved) obedient
obedient-DeviceLaws = record {
  list_true = λ w v listed. cc;
  list_mode = λ w. refl;
  list_saved = λ w. refl;
  set_saved = λ m w. refl;
  write_true = λ p w done. refl;
  write_mode = λ p w. refl;
}

hardware-Laws_example : Laws (λ w. stopped_by w.mode) (λ w. w.saved) (hardware obedient)
hardware-Laws_example = hardware-Laws (λ w. w.mode) (λ w. w.saved) obedient obedient-DeviceLaws
