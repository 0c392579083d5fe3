-- ===== src/Charge.antt =====
-- agent/src/charge_policy.rs: the charge limit.
-- One lock covers each operation, so an operation is a function of the state and the charger.
pub mod Invariant
pub mod Atomicity
pub mod Laws
pub mod Override
pub mod Hardware
mod Tests
use mu5250_wireguard.Base.{
  ℕ, ◌-◌, Text, codes, text_eq, Bool, true, false, not, ◌&&◌, ◌||◌, Option, none, some, Result, ok,
  err, leb, ◌==◌, bool_eq, if◌then◌else◌, List, [], ◌∷◌,
}
use mu5250_wireguard.Json.{Value, number, string, pos_int, index}
use mu5250_wireguard.Base.World.{Io, ◌>>=◌, pure, fail, attempt, map_err}

abbrev pub poll_active_secs : ℕ
poll_active_secs = 60

abbrev pub poll_idle_secs : ℕ
poll_idle_secs = 300

-- `limit` and `hysteresis` are `u8`.
pub record Persisted : Type 0 where
  pub enabled : Bool
  pub limit : ℕ
  pub hysteresis : ℕ

pub record ChargeUpdate : Type 0 where
  pub charging_stopped : Option Bool
  pub charge_limit_enabled : Option Bool
  pub charge_limit : Option ℕ
  pub hysteresis : Option ℕ

pub record Snapshot : Type 0 where
  pub stopped : Bool
  pub capacity : ℕ
  pub discharging : Bool

-- The error messages; `switch_failed` and `save_failed` hold the outcomes of the rollback.
pub data Error : Type 0 where
  field_required out_of_range invalid_saved : Error
  read_failed : Text → Error
  hardware : Text → Error
  switch_failed : Text → Result Text (Unit {0}) → Error
  save_failed : Text → Result Text (Unit {0}) → Result Text (Unit {0}) → Error

pub record LimitState : Type 0 where
  pub policy : Persisted
  pub manual_override : Bool
  pub last_error : Option Error

-- `trait Charger`, over a world that its methods read and change.
pub record Charger (W : Type 0) : Type 0 where
  pub snapshot : Io W Text Snapshot
  pub set_stopped : Bool → Io W Text (Unit {0})
  pub persist : Persisted → Io W Text (Unit {0})

-- `u8::saturating_sub` is the subtraction of ℕ.
unfoldable pub desired : Persisted → Snapshot → Bool
desired policy snapshot =
    if not policy.enabled
    then false
    else if snapshot.discharging && not snapshot.stopped
    then false
    else if leb policy.limit snapshot.capacity
    then true
    else if leb snapshot.capacity (policy.limit - policy.hysteresis)
    then false
    else snapshot.stopped

-- `(50..=100).contains(&limit) && (1..=20).contains(&hysteresis)`
abbrev pub in_range : Persisted → Bool
in_range p = (leb 50 p.limit && leb p.limit 100) && (leb 1 p.hysteresis && leb p.hysteresis 20)

abbrev pub off : Persisted
off = record { enabled = false; limit = 100; hysteresis = 5 }

-- What reading the saved policy gives: its text, no such file, or another error.
pub data Loaded : Type 0 where
  text : Text → Loaded
  not_found : Loaded
  unreadable : Text → Loaded

abbrev started : Persisted → Option Error → LimitState
started p e = record { policy = p; manual_override = false; last_error = e }

abbrev checked : Option Persisted → LimitState
checked none = started off (some invalid_saved)
checked (some p) = if in_range p then started p none else started off (some invalid_saved)

-- `new`; `from_str` is serde_json's reader of a policy.
unfoldable pub new : (Text → Option Persisted) → Loaded → LimitState
new from_str (text t) = checked (from_str t)
new from_str not_found = started off none
new from_str (unreadable e) = started off (some (read_failed e))

abbrev pub unwrap_or {ℓ} : {A : Type ℓ} → Option A → A → A
unwrap_or none d = d
unwrap_or (some a) d = a

abbrev pub is_some {ℓ} : {A : Type ℓ} → Option A → Bool
is_some none = false
is_some (some a) = true

-- The policy that an update asks for.
pub merged : ChargeUpdate → Persisted → Persisted
merged u p = record {
  enabled = unwrap_or u.charge_limit_enabled p.enabled;
  limit = unwrap_or u.charge_limit p.limit;
  hysteresis = unwrap_or u.hysteresis p.hysteresis;
}

-- Does the update change the saved policy?
pub policy_changed : ChargeUpdate → Bool
policy_changed u = is_some u.charge_limit_enabled || is_some u.charge_limit || is_some u.hysteresis

module _ {W : Type 0} (hw : Charger W) where
  -- The closure of `reconcile`; it gives the new `manual_override`.
  reconcile_hardware : Bool → LimitState → Io W Text Bool
  reconcile_hardware unplugged s = do
    snapshot ← hw.snapshot
    let stopped = not unplugged && desired s.policy snapshot
    (if not (bool_eq stopped snapshot.stopped) then hw.set_stopped stopped else pure tt) >>= λ _.
        pure (if unplugged then false else s.manual_override)

  settle : LimitState → Result Text Bool → LimitState
  settle s (ok b) = record s { manual_override = b; last_error = none }
  settle s (err e) = record s { last_error = some (hardware e) }

  unfoldable pub reconcile : Bool → LimitState → W → LimitState × W
  unfolding reconcile_hardware settle
  reconcile unplugged s w =
      if not unplugged && (not s.policy.enabled || s.manual_override)
      then (s, w)
      else (settle s (reconcile_hardware unplugged s w).0, (reconcile_hardware unplugged s w).1)

  -- The closure of `update`. A failed write is rolled back, and the error holds the outcomes.
  save : Persisted → Snapshot → LimitState → Result Text (Unit {0}) → Io W Error (Unit {0})
  save policy before s (ok _) = pure tt
  save policy before s (err error) = do
    hardware_restore ← attempt (hw.set_stopped before.stopped)
    storage_restore ← attempt (hw.persist s.policy)
    fail (save_failed error hardware_restore storage_restore)

  commit : Bool → Persisted → Snapshot → LimitState → Result Text (Unit {0}) → Io W Error (Unit {0})
  unfolding save
  commit changed policy before s (ok _) =
      if changed then (attempt (hw.persist policy) >>= save policy before s) else pure tt
  commit changed policy before s (err error) = do
    rollback ← attempt (hw.set_stopped before.stopped)
    fail (switch_failed error rollback)

  update_hardware : Bool → ChargeUpdate → Persisted → LimitState → Io W Error (Unit {0})
  unfolding commit
  update_hardware changed u policy s = do
    before ← map_err hardware hw.snapshot
    let stopped = unwrap_or u.charging_stopped (desired policy before)
    switched ← attempt (hw.set_stopped stopped)
    commit changed policy before s switched

  concluded : ChargeUpdate → Persisted → LimitState → Result Error (Unit {0}) → LimitState
  concluded u policy s (ok _) = record s {
    policy = policy;
    manual_override =
        unwrap_or u.charging_stopped (if policy_changed u then false else s.manual_override);
    last_error = none;
  }
  concluded u policy s (err e) = record s { last_error = some e }

  unfoldable pub update : ChargeUpdate → LimitState → W → Result Error (Unit {0}) × LimitState × W
  unfolding update_hardware concluded merged policy_changed
  update u s w =
      let policy = merged u s.policy in
      if not (policy_changed u) && not (is_some u.charging_stopped)
      then (err field_required, s, w)
      else if not (in_range policy)
      then (err out_of_range, s, w)
      else (
        (update_hardware (policy_changed u) u policy s w).0,
        concluded u policy s (update_hardware (policy_changed u) u policy s w).0,
        (update_hardware (policy_changed u) u policy s w).1,
      )

-- The wait of the thread between two rounds.
unfoldable pub interval : LimitState → ℕ
interval s = if s.policy.enabled && not s.manual_override then poll_active_secs else poll_idle_secs

-- `event["charger_connect"]` is the number 0 or the text "0".
unfoldable pub charger_gone : Value → Bool
unfolding index
charger_gone event = elim (index event (codes "charger_connect")) [
  | number (pos_int n) ↦ n == 0
  | string s ↦ text_eq s (codes "0")
  | _ ↦ false
]

-- What the wait for an event ends with.
pub data Received : Type 0 where
  received : Value → Received
  timeout disconnected : Received

abbrev pub unplugged_by : Received → Bool
unplugged_by (received event) = charger_gone event
unplugged_by _ = false

-- The thread of `start`, over what each wait ended with.
module _ {W : Type 0} (hw : Charger W) where
  unfoldable pub run : Bool → List Received → LimitState → W → LimitState × W
  run unplugged [] s w = reconcile hw unplugged s w
  run unplugged (r ∷ rest) s w =
      run (unplugged_by r) rest (reconcile hw unplugged s w).0 (reconcile hw unplugged s w).1
