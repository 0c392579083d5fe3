-- ===== src/LanChange/Manager.antt =====
-- agent/src/lan.rs: the manager of a change, over the settings and the recovery record.
use mu5250_wireguard.Base.{
  ℕ, ◌+◌, ◌-◌, ◌/◌, Bool, true, false, not, ◌&&◌, ◌||◌, Option, none, some, ◌++◌, if◌then◌else◌,
  Text, codes, text_eq, Result, ok, err, leb, u64,
}
use mu5250_wireguard.Base.{ensure, ◌>>=◌}
use mu5250_wireguard.Base.World.{Io}
use mu5250_wireguard.LanChange.Settings.{LanSettings, settings_eq, Invalid, validate_lan_settings}

-- The listener's address.
pub record Binding : Type 0 where
  pub address : Text
  pub generation : ℕ
  pub fixed : Bool

unfoldable pub listener : Text → Text
listener ip = ip ++ codes ":9090"

unfoldable pub set : Text → Binding → Binding
set ip b =
    if b.fixed
    then b
    else if text_eq b.address (listener ip)
    then b
    else record b { address = listener ip; generation = u64 (b.generation + 1) }

pub record Journal : Type 0 where
  pub previous : LanSettings
  pub proposed : LanSettings
  pub token : Text

pub record Pending : Type 0 where
  pub journal : Journal
  pub deadline : ℕ
  pub applied : Bool

pub data Error : Type 0 where
  -- An error of the backend, and of the source of the token.
  backend no_token : Text → Error
  invalid : Invalid → Error
  change_pending fixed_address not_confirmed no_change bad_confirmation no_match : Error
  unclear not_restored : Text → Error

pub record State : Type 0 where
  pub pending : Option Pending
  pub confirmed : Option Journal
  pub error : Option Error

-- `trait Backend`: the settings of the device and the record of a change.
pub record Backend (W : Type 0) : Type 0 where
  pub read : W → Result Text LanSettings
  pub apply : LanSettings → Io W Text (Unit {0})
  pub load : W → Result Text (Option Journal)
  pub save : Journal → Io W Text (Unit {0})
  pub clear : Io W Text (Unit {0})

-- The manager with its listener and the device.
pub record Manager (W : Type 0) : Type 0 where
  pub state : State
  pub binding : Binding
  pub world : W

-- The response of `begin`: nothing to change, or the address and the token.
pub data Response : Type 0 where
  unchanged : Response
  changed : Text → Text → Response

-- 120 s, in milliseconds.
abbrev pub confirm_time : ℕ
confirm_time = 120000

-- `?` with the conversion of an error.
abbrev pub lift_err {ℓ} : {A : Type ℓ} {E F : Type 0} → (E → F) → Result E A → Result F A
lift_err f (ok a) = ok a
lift_err f (err e) = err (f e)

abbrev pub is_some {ℓ} : {A : Type ℓ} → Option A → Bool
is_some none = false
is_some (some a) = true

module _ {W : Type 0} (io : Backend W) where
  abbrev pub failed : Manager W → Error → Manager W
  failed m e = record m { state = record m.state { error = some e } }

  abbrev pub at : Manager W → W → Manager W
  at m w = record m { world = w }

  abbrev pub bound : Manager W → Text → Manager W
  bound m ip = record m { binding = set ip m.binding }

  abbrev pub forget : Manager W → Manager W
  forget m = record m { state = record m.state { pending = none } }

  -- `rollback_locked`: the end, by the outcome of clearing the record.
  abbrev pub cleared : Result Text (Unit {0}) → Manager W → Manager W
  cleared (ok _) m = forget m
  cleared (err e) m = failed m (unclear e)

  -- By the outcome of applying the previous settings.
  abbrev pub restored : Result Text (Unit {0}) → Journal → Manager W → Manager W
  restored (ok _) j m = let r = io.clear m.world in cleared r.0 (at (bound m j.previous.ipaddr) r.1)
  restored (err e) j m = failed m (not_restored e)

  abbrev pub roll_back : Option Pending → Manager W → Manager W
  roll_back none m = m
  roll_back (some p) m =
      let r = io.apply p.journal.previous m.world in restored r.0 p.journal (at m r.1)

  unfoldable pub rollback_locked : Manager W → Manager W
  rollback_locked m = roll_back m.state.pending m

  abbrev pub applied_again :
      Result Text (Unit {0}) → Journal → Manager W → Result Error (Unit {0}) × Manager W
  applied_again (err e) j m = (err (backend e), m)
  applied_again (ok _) j m =
      let r = io.clear m.world in (lift_err backend r.0, at (bound m j.previous.ipaddr) r.1)

  abbrev pub checked :
      Result Invalid (Unit {0}) → Journal → Manager W → Result Error (Unit {0}) × Manager W
  checked (err e) j m = (err (invalid e), m)
  checked (ok _) j m = let r = io.apply j.previous m.world in applied_again r.0 j (at m r.1)

  abbrev pub with_record : Option Journal → Manager W → Result Error (Unit {0}) × Manager W
  with_record none m = (ok tt, m)
  with_record (some j) m = checked (validate_lan_settings j.previous) j m

  abbrev pub recovered : Result Error (Unit {0}) × Manager W → Manager W
  recovered (ok _, m) = record m { state = record m.state { pending = none; error = none } }
  recovered (err e, m) = failed m e

  abbrev pub loaded : Result Text (Option Journal) → Manager W → Result Error (Unit {0}) × Manager W
  loaded (err e) m = (err (backend e), m)
  loaded (ok j) m = with_record j m

  unfoldable pub recover : Manager W → Manager W
  recover m = recovered (loaded (io.load m.world) m)

  -- `self.backend.load()?.is_some()`
  abbrev pub is_recorded : W → Result Error Bool
  is_recorded w = elim (io.load w) [ err e ↦ err (backend e) | ok j ↦ ok (is_some j) ]

  -- What `begin` decides before it saves: the settings in force, where there is something to do.
  unfoldable pub admitted : LanSettings → Manager W → Result Error (Option LanSettings)
  admitted proposed m = do
    recorded ← if is_some m.state.pending then ok true else is_recorded m.world
    _ ← ensure (not recorded) change_pending
    _ ← lift_err invalid (validate_lan_settings proposed)
    previous ← lift_err backend (io.read m.world)
    _ ← lift_err invalid (validate_lan_settings previous)
    if settings_eq previous proposed
        then ok none
        else (ensure (not (m.binding.fixed && not (text_eq previous.ipaddr proposed.ipaddr)))
              fixed_address
            >>= λ _. ok (some previous))

  abbrev pub recorded_at :
      ℕ → Journal → Result Text (Unit {0}) → Manager W → Result Error Response × Manager W
  recorded_at now j (err e) m = (err (backend e), m)
  recorded_at now j (ok _) m = (
    ok (changed j.proposed.ipaddr j.token),
    record m {
      state = record m.state {
        confirmed = none;
        pending = some (record { journal = j; deadline = now + confirm_time; applied = false });
      };
    },
  )

  abbrev pub started :
      Result Text Text
      → ℕ
      → LanSettings
      → Result Error (Option LanSettings)
      → Manager W
      → Result Error Response × Manager W
  started token now proposed (err e) m = (err e, m)
  started token now proposed (ok none) m = (ok unchanged, m)
  started (err e) now proposed (ok (some previous)) m = (err (no_token e), m)
  started (ok t) now proposed (ok (some previous)) m =
      let j : Journal = record { previous = previous; proposed = proposed; token = t } in
      let r = io.save j m.world in recorded_at now j r.0 (at m r.1)

  -- `token` is what the random source gives.
  unfoldable pub begin :
      Result Text Text → ℕ → LanSettings → Manager W → Result Error Response × Manager W
  begin token now proposed m = started token now proposed (admitted proposed m) m

  abbrev pub applied : Pending → Result Text (Unit {0}) → Manager W → Manager W
  applied p (ok _) m =
      let b = bound m p.journal.proposed.ipaddr in
      record b { state = record b.state { pending = some (record p { applied = true }) } }
  applied p (err e) m = rollback_locked (failed m (backend e))

  abbrev pub apply_change : Option Pending → Manager W → Manager W
  apply_change none m = m
  apply_change (some p) m = let r = io.apply p.journal.proposed m.world in applied p r.0 (at m r.1)

  unfoldable pub apply_pending : Manager W → Manager W
  apply_pending m = apply_change m.state.pending m

  -- Whether the thread goes on waiting, and the manager.
  abbrev pub expire_change : ℕ → Option Pending → Manager W → Bool × Manager W
  expire_change now none m = (false, m)
  expire_change now (some p) m =
      if leb p.deadline now then (false, rollback_locked (failed m not_confirmed)) else (true, m)

  unfoldable pub expire : ℕ → Manager W → Bool × Manager W
  expire now m = expire_change now m.state.pending m

  abbrev pub acknowledged :
      Journal → Result Text (Unit {0}) → Manager W → Result Error (Unit {0}) × Manager W
  acknowledged j (err e) m = (err (backend e), m)
  acknowledged j (ok _) m =
      (ok tt, record m { state = record { pending = none; confirmed = some j; error = none } })

  -- The settings of the device are those proposed.
  unfoldable pub is_in_force : LanSettings → W → Result Error Bool
  is_in_force proposed w = elim (io.read w) [
    | err e ↦ err (backend e)
    | ok s ↦ ok (settings_eq s proposed)
  ]

  abbrev pub confirm_matching :
      Journal → Result Error Bool → Manager W → Result Error (Unit {0}) × Manager W
  confirm_matching j (err e) m = (err e, m)
  confirm_matching j (ok false) m = (err no_match, m)
  confirm_matching j (ok true) m = let r = io.clear m.world in acknowledged j r.0 (at m r.1)

  abbrev pub confirm_change : Text → ℕ → Pending → Manager W → Result Error (Unit {0}) × Manager W
  confirm_change token now p m =
      if not p.applied || leb p.deadline now || not (text_eq token p.journal.token)
      then (err bad_confirmation, m)
      else confirm_matching p.journal (is_in_force p.journal.proposed m.world) m

  -- The retry of a confirmation whose answer was lost.
  abbrev pub repeated : Text → Option Journal → W → Result Error (Unit {0})
  repeated token none w = err no_change
  repeated token (some j) w =
      let matching = is_in_force j.proposed w in
      if text_eq token j.token
      then elim matching [ err e ↦ err e | ok true ↦ ok tt | ok false ↦ err no_change ]
      else err no_change

  abbrev pub confirmed_by :
      Text → ℕ → Option Pending → Manager W → Result Error (Unit {0}) × Manager W
  confirmed_by token now none m = (repeated token m.state.confirmed m.world, m)
  confirmed_by token now (some p) m = confirm_change token now p m

  unfoldable pub confirm : Text → ℕ → Manager W → Result Error (Unit {0}) × Manager W
  confirm token now m = confirmed_by token now m.state.pending m

  -- `status`: is a change pending, the last error, and the seconds that remain.
  unfoldable pub status : ℕ → State → Bool × Option Error × Option ℕ
  status now s = (is_some s.pending, s.error, remaining s.pending)
    where
      remaining : Option Pending → Option ℕ
      remaining none = none
      remaining (some p) = some ((p.deadline - now) / 1000)

-- The operations of the manager, and their effect.
pub data Request : Type 0 where
  recovering : Request
  beginning : Result Text Text → ℕ → LanSettings → Request
  applying : Request
  expiring : ℕ → Request
  confirming : Text → ℕ → Request

unfoldable pub run : {W : Type 0} → Backend W → Request → Manager W → Manager W
run io recovering m = recover io m
run io (beginning token now proposed) m = (begin io token now proposed m).1
run io applying m = apply_pending io m
run io (expiring now) m = (expire io now m).1
run io (confirming token now) m = (confirm io token now m).1
