-- ===== src/Charge/Hardware.antt =====
-- agent/src/charge_policy.rs, `impl Charger for Hardware`: ubus and sysfs behind the trait.
use mu5250_wireguard.Base.{
  ℕ, zero, suc, ◌≡◌, refl, ap, Text, codes, text_eq, Bool, true, false, Option, none, some, Result,
  ok, err, ok_or, leb, bool_eq, if◌then◌else◌, arith, inl, inr, Result-cases,
}
use mu5250_wireguard.Base.World.{Io, ◌>>=◌, pure, fail, lift}
use mu5250_wireguard.Base.Digits.{trim, parse_u8}
use mu5250_wireguard.Json.{Value, index, as_str}
use mu5250_wireguard.Charge.{Persisted, Snapshot, Charger}
use mu5250_wireguard.Charge.Laws.{Laws}

-- The ubus calls `zwrt_bsp.charger list` and `set`, the two sysfs files of the battery, and
-- `storage::atomic_write` of the serialised policy.
pub record Device (W : Type 0) : Type 0 where
  pub list : Io W Text Value
  pub set : Text → Io W Text Value
  pub capacity_file : W → Option Text
  pub status_file : W → Option Text
  pub write_policy : Persisted → Io W Text (Unit {0})

-- Firmware semantics are inverted: direct supply `enable` means that charging is stopped.
pub decode_mode : Option Text → Result Text Bool
decode_mode none = err (codes "charger control state is unavailable")
decode_mode (some mode) =
    if text_eq mode (codes "enable")
    then ok true
    else if text_eq mode (codes "disable")
    then ok false
    else err (codes "charger control state is unavailable")

abbrev pub mode_of : Value → Result Text Bool
mode_of v = decode_mode (as_str (index v (codes "direct_power_supply_mode")))

abbrev battery : Option Text → Option ℕ
battery none = none
battery (some s) = elim (parse_u8 (trim s)) [
  | none ↦ none
  | some v ↦ if leb v 100 then some v else none
]

abbrev is_discharging : Option Text → Bool
is_discharging none = false
is_discharging (some s) = text_eq (trim s) (codes "Discharging")

module _ {W : Type 0} (dev : Device W) where
  stopped_state : Io W Text Bool
  stopped_state = do value ← dev.list; lift (mode_of value)

  snapshot : Io W Text Snapshot
  unfolding stopped_state
  snapshot = do
    capacity ← λ w.
        (ok_or (battery (dev.capacity_file w)) (codes "battery capacity sensor is unavailable"), w)
    stopped ← stopped_state
    λ w. (
      ok (record {
        stopped = stopped;
        capacity = capacity;
        discharging = is_discharging (dev.status_file w);
      }),
      w,
    )

  -- The rounds that are left of `for _ in 0..3`; the sleep changes nothing.
  confirm : ℕ → Bool → Io W Text (Unit {0})
  confirm zero stopped = fail (codes "charger did not confirm the requested state")
  confirm (suc n) stopped = do
    now ← stopped_state
    if bool_eq now stopped then pure tt else confirm n stopped

  set_stopped : Bool → Io W Text (Unit {0})
  unfolding confirm stopped_state
  set_stopped stopped = do
    _ ← dev.set (if stopped then codes "enable" else codes "disable")
    confirm 3 stopped

  unfoldable pub hardware : Charger W
  unfolding snapshot set_stopped
  hardware = record { snapshot = snapshot; set_stopped = set_stopped; persist = dev.write_policy }

-- The firmware holds one mode, which a listing reports and leaves alone; neither call touches the
-- saved policy, and writing the policy touches only that.
pub record DeviceLaws {W : Type 0} (mode : W → Value) (saved : W → Option Persisted)
    (dev : Device W) : Type 0 where
  pub list_true : (w : W) (v : Value) → (dev.list w).0 ≡ ok v → v ≡ mode w
  pub list_mode : (w : W) → mode (dev.list w).1 ≡ mode w
  pub list_saved : (w : W) → saved (dev.list w).1 ≡ saved w
  pub set_saved : (m : Text) (w : W) → saved (dev.set m w).1 ≡ saved w
  pub write_true :
      (p : Persisted) (w : W)
      → (dev.write_policy p w).0 ≡ ok tt
      → saved (dev.write_policy p w).1 ≡ some p
  pub write_mode : (p : Persisted) (w : W) → mode (dev.write_policy p w).1 ≡ mode w

-- Is charging stopped by the mode of the firmware?
abbrev pub stopped_by : Value → Bool
stopped_by v = elim (mode_of v) [ ok b ↦ b | err _ ↦ false ]

module _ {W : Type 0} (mode : W → Value) (saved : W → Option Persisted) (dev : Device W)
    (laws : DeviceLaws mode saved dev) where
  stopped_state-true : (w : W) (b : Bool) → (stopped_state dev w).0 ≡ ok b → stopped_by (mode w) ≡ b
  unfolding stopped_state
  stopped_state-true w b read = elim (Result-cases (dev.list w).0) [
    | inl (v, listed) ↦ ground (arith, listed, laws.list_true w v listed)
    | inr (e, failed) ↦ ground (arith, failed)
  ]

  stopped_state-mode : (w : W) → mode (stopped_state dev w).1 ≡ mode w
  unfolding stopped_state
  stopped_state-mode w = ground (arith, laws.list_mode w)

  stopped_state-saved : (w : W) → saved (stopped_state dev w).1 ≡ saved w
  unfolding stopped_state
  stopped_state-saved w = ground (arith, laws.list_saved w)

  confirm-true :
      (n : ℕ) (b : Bool) (w : W)
      → (confirm dev n b w).0 ≡ ok tt
      → stopped_by (mode (confirm dev n b w).1) ≡ b
  unfolding confirm
  confirm-true zero b w done = ground arith
  confirm-true (suc n) b w done = elim (Result-cases (stopped_state dev w).0) [
    | inl (now, read) ↦ ground (
      arith,
      read,
      stopped_state-true w now read,
      stopped_state-mode w,
      confirm-true n b (stopped_state dev w).1,
    )
    | inr (e, failed) ↦ ground (arith, failed)
  ]

  confirm-saved : (n : ℕ) (b : Bool) (w : W) → saved (confirm dev n b w).1 ≡ saved w
  unfolding confirm
  confirm-saved zero b w = refl
  confirm-saved (suc n) b w =
      ground (arith, stopped_state-saved w, confirm-saved n b (stopped_state dev w).1)

  snapshot-true :
      (w : W) (now : Snapshot) → (snapshot dev w).0 ≡ ok now → now.stopped ≡ stopped_by (mode w)
  unfolding snapshot
  snapshot-true w now read = elim (Result-cases (stopped_state dev w).0) [
    | inl (b, found) ↦ ground (arith, found, stopped_state-true w b found)
    | inr (e, failed) ↦ ground (arith, failed)
  ]

  set_stopped-true :
      (b : Bool) (w : W)
      → (set_stopped dev b w).0 ≡ ok tt
      → stopped_by (mode (set_stopped dev b w).1) ≡ b
  unfolding set_stopped
  set_stopped-true b w done =
      let w' = (dev.set (if b then codes "enable" else codes "disable") w).1 in
      ground (arith, confirm-true 3 b w')

  set_stopped-saved : (b : Bool) (w : W) → saved (set_stopped dev b w).1 ≡ saved w
  unfolding set_stopped
  set_stopped-saved b w =
      let m = if b then codes "enable" else codes "disable" in
      ground (arith, laws.set_saved m w, confirm-saved 3 b (dev.set m w).1)

  -- Over a firmware that keeps one mode, reported truly by its listing, and a disk that only the
  -- save changes, the `Hardware` implementation keeps every law of the charger: in particular a
  -- write that returns `Ok` is in force.
  pub hardware-Laws : Laws (λ w. stopped_by (mode w)) saved (hardware dev)
  unfolding hardware
  hardware-Laws = record {
    snapshot_true = λ w now read. snapshot-true w now read;
    snapshot_stopped = λ w. ground (arith, stopped_state-mode w);
    snapshot_saved = λ w. ground (arith, stopped_state-saved w);
    set_true = λ b w done. set_stopped-true b w done;
    set_saved = λ b w. set_stopped-saved b w;
    persist_true = laws.write_true;
    persist_stopped = λ p w. ap stopped_by (laws.write_mode p w);
  }
