-- ===== src/Charge/Override.antt =====
-- agent/src/charge_policy.rs: a manual command against the periodic enforcement, and `desired`.
use mu5250_wireguard.Base.{
  ◌≡◌, Bool, true, false, List, [], ◌∷◌, All, some, none, ok, arith, Bool-cases, inl, inr,
}
use mu5250_wireguard.Charge.{
  Persisted, Snapshot, LimitState, Charger, ChargeUpdate, Received, desired, reconcile, update,
  unplugged_by, run,
}

-- The decision from a snapshot is also the decision once it has been carried out, at the same
-- charge and discharge state, so a settled charger does not flap.
pub desired-settles :
    (p : Persisted) (now : Snapshot)
    → desired p (record now { stopped = desired p now }) ≡ desired p now
unfolding desired
desired-settles p now = ground arith

module _ {W : Type 0} (hw : Charger W) where
  reconcile-idle :
      (s : LimitState) (w : W) → s.manual_override ≡ true → reconcile hw false s w ≡ (s, w)
  unfolding reconcile
  reconcile-idle s w m = rw m (elim (Bool-cases s.policy.enabled) [ inl e ↦ rw e | inr e ↦ rw e ])

  run-idle :
      (events : List Received) (s : LimitState) (w : W)
      → s.manual_override ≡ true
      → All (λ r. unplugged_by r ≡ false) events
      → run hw false events s w ≡ (s, w)
  unfolding run
  run-idle [] s w m h = reconcile-idle s w m
  run-idle (r ∷ rest) s w m (h, hs) = rw (h, reconcile-idle s w m) (run-idle rest s w m hs)

  update-override :
      (u : ChargeUpdate) (s : LimitState) (w : W) (b : Bool)
      → u.charging_stopped ≡ some b
      → (update hw u s w).0 ≡ ok tt
      → (update hw u s w).1.manual_override ≡ b
  unfolding update
  update-override u s w b c done = ground arith

  -- After an update that asks to stop charging succeeds, the enforcement thread, woken by any
  -- events of which none says that the charger is gone, changes neither its state nor the world.
  pub run-update_manual :
      (u : ChargeUpdate) (s : LimitState) (w : W) (events : List Received)
      → u.charging_stopped ≡ some true
      → (update hw u s w).0 ≡ ok tt
      → All (λ r. unplugged_by r ≡ false) events
      → run hw false events (update hw u s w).1 (update hw u s w).2
        ≡ ((update hw u s w).1, (update hw u s w).2)
  run-update_manual u s w events c done quiet =
      run-idle events _ _ (update-override u s w true c done) quiet

  -- Unplugging ends the override, if the hardware answers.
  pub reconcile-unplugged :
      (s : LimitState) (w : W)
      → (reconcile hw true s w).0.last_error ≡ none
      → (reconcile hw true s w).0.manual_override ≡ false
  unfolding reconcile
  reconcile-unplugged s w done = ground arith
