-- ===== src/Charge/Atomicity.antt =====
-- agent/src/charge_policy.rs: an update that fails changes neither the policy nor the override.
use mu5250_wireguard.Base.{◌≡◌, err, arith}
use mu5250_wireguard.Charge.{LimitState, Charger, ChargeUpdate, Error, update}

module _ {W : Type 0} (hw : Charger W) where
  -- An update that returns an error, on any branch and over any charger, leaves the policy and the
  -- manual override as they were.
  pub update_error_unchanged :
      (u : ChargeUpdate) (s : LimitState) (w : W) {e : Error}
      → (update hw u s w).0 ≡ err e
      → ((update hw u s w).1.policy ≡ s.policy)
        × ((update hw u s w).1.manual_override ≡ s.manual_override)
  unfolding update
  update_error_unchanged u s w h = ground arith
