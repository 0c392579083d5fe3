-- ===== src/Charge/Invariant.antt =====
-- agent/src/charge_policy.rs: the ranges of the policy, and the decision `desired`.
use mu5250_wireguard.Base.{◌≤◌, ◌≡◌, Text, Bool, Option, arith}
use mu5250_wireguard.Charge.{
  Persisted, LimitState, Charger, ChargeUpdate, Loaded, text, not_found, unreadable, new, reconcile,
  update,
}

pub record IsValid (p : Persisted) : Type 0 where
  pub limit_low : 50 ≤ p.limit
  pub limit_high : p.limit ≤ 100
  pub hysteresis_low : 1 ≤ p.hysteresis
  pub hysteresis_high : p.hysteresis ≤ 20

-- Whatever was saved, a new enforcer has a policy in range.
pub new-IsValid :
    (from_str : Text → Option Persisted) (l : Loaded) → IsValid (new from_str l).policy
unfolding new
new-IsValid from_str (text t) = ground arith
new-IsValid from_str not_found = ground arith
new-IsValid from_str (unreadable e) = ground arith

module _ {W : Type 0} (hw : Charger W) where
  pub reconcile-policy :
      (unplugged : Bool) (s : LimitState) (w : W) → (reconcile hw unplugged s w).0.policy ≡ s.policy
  unfolding reconcile
  reconcile-policy unplugged s w = ground arith

  -- From a policy in range (limit 50 to 100, hysteresis 1 to 20) every update, failing or not,
  -- leaves a policy in range.
  pub update-IsValid :
      (u : ChargeUpdate) (s : LimitState) (w : W)
      → IsValid s.policy
      → IsValid (update hw u s w).1.policy
  unfolding update
  update-IsValid u s w h = ground arith
