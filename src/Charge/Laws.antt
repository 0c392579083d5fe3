-- ===== src/Charge/Laws.antt =====
-- What `trait Charger` promises, and what the enforcer then does to the hardware.
use mu5250_wireguard.Base.{
  ◌≡◌, Text, Bool, not, ◌&&◌, Option, none, some, ok, err, arith, false, ◌||◌, ◌⊎◌, inl, inr,
  Result-cases, if◌then◌else◌,
}
use mu5250_wireguard.Charge.{
  Persisted, Snapshot, LimitState, Charger, ChargeUpdate, switch_failed, save_failed, desired,
  merged, policy_changed, unwrap_or, update, reconcile,
}

-- `stopped` is the state of the charging hardware and `saved` the policy on disk. A method that
-- returns `Ok` has done its work, and touches only its own part; one that fails may have done it.
pub record Laws {W : Type 0} (stopped : W → Bool) (saved : W → Option Persisted) (hw : Charger W)
    : Type 0 where
  pub snapshot_true :
      (w : W) (now : Snapshot) → (hw.snapshot w).0 ≡ ok now → now.stopped ≡ stopped w
  pub snapshot_stopped : (w : W) → stopped (hw.snapshot w).1 ≡ stopped w
  pub snapshot_saved : (w : W) → saved (hw.snapshot w).1 ≡ saved w
  pub set_true :
      (b : Bool) (w : W) → (hw.set_stopped b w).0 ≡ ok tt → stopped (hw.set_stopped b w).1 ≡ b
  pub set_saved : (b : Bool) (w : W) → saved (hw.set_stopped b w).1 ≡ saved w
  pub persist_true :
      (p : Persisted) (w : W) → (hw.persist p w).0 ≡ ok tt → saved (hw.persist p w).1 ≡ some p
  pub persist_stopped : (p : Persisted) (w : W) → stopped (hw.persist p w).1 ≡ stopped w

module _ {W : Type 0} (stopped : W → Bool) (saved : W → Option Persisted) (hw : Charger W)
    (laws : Laws stopped saved hw) where
  -- Over a charger that keeps its laws: a round that is not skipped, reads the snapshot `now` and
  -- ends with no error leaves charging stopped exactly if the charger was not unplugged and the
  -- policy decides so from `now`.
  pub reconcile-applies :
      (unplugged : Bool) (s : LimitState) (w : W) (now : Snapshot)
      → (not unplugged && (not s.policy.enabled || s.manual_override)) ≡ false
      → (hw.snapshot w).0 ≡ ok now
      → (reconcile hw unplugged s w).0.last_error ≡ none
      → stopped (reconcile hw unplugged s w).1 ≡ (not unplugged && desired s.policy now)
  unfolding reconcile
  reconcile-applies unplugged s w now active read done = ground (
    arith,
    laws.snapshot_true w now,
    laws.snapshot_stopped w,
    laws.set_true (not unplugged && desired s.policy now) (hw.snapshot w).1,
  )

  -- Over a charger that keeps its laws: an update that succeeds, from the snapshot `now`, leaves
  -- charging in the state the update asks for or, if it asks for none, in the one the new policy
  -- decides from `now`; and the policy is the old one with the given fields replaced.
  pub update-applies :
      (u : ChargeUpdate) (s : LimitState) (w : W) (now : Snapshot)
      → (hw.snapshot w).0 ≡ ok now
      → (update hw u s w).0 ≡ ok tt
      → (stopped (update hw u s w).2
          ≡ unwrap_or u.charging_stopped (desired (merged u s.policy) now))
        × ((update hw u s w).1.policy ≡ merged u s.policy)
  unfolding update
  update-applies u s w now read done =
      let target = unwrap_or u.charging_stopped (desired (merged u s.policy) now) in
      let w1 = (hw.snapshot w).1 in
      let w2 = (hw.set_stopped target w1).1 in
      ground (arith, laws.set_true target w1, laws.persist_stopped (merged u s.policy) w2)

  -- Over a charger that keeps its laws: after an update that succeeds the disk holds the new
  -- policy if the update gave a policy field, and what it held before if not.
  pub update-saves :
      (u : ChargeUpdate) (s : LimitState) (w : W)
      → (update hw u s w).0 ≡ ok tt
      → saved (update hw u s w).2
        ≡ (if policy_changed u then some (update hw u s w).1.policy else saved w)
  unfolding update
  update-saves u s w done = elim (Result-cases (hw.snapshot w).0) [
    | inl (now, read) ↦
        let target = unwrap_or u.charging_stopped (desired (merged u s.policy) now) in
        let w1 = (hw.snapshot w).1 in
        let w2 = (hw.set_stopped target w1).1 in
        ground (
          arith,
          read,
          laws.snapshot_saved w,
          laws.set_saved target w1,
          laws.persist_true (merged u s.policy) w2,
        )
    | inr (e, failed) ↦ ground (arith, failed)
  ]

  -- Over a charger that keeps its laws and a disk that holds the current policy: an update that
  -- fails on a write, and whose error reports each step of its rollback as done, leaves the
  -- charging state and the policy on disk as they were.
  pub update-rolls_back :
      (u : ChargeUpdate) (s : LimitState) (w : W) (e : Text)
      → ((update hw u s w).0 ≡ err (switch_failed e (ok tt)))
        ⊎ ((update hw u s w).0 ≡ err (save_failed e (ok tt) (ok tt)))
      → saved w ≡ some s.policy
      → (stopped (update hw u s w).2 ≡ stopped w) × (saved (update hw u s w).2 ≡ saved w)
  unfolding update
  update-rolls_back u s w e failed was = elim (Result-cases (hw.snapshot w).0) [
    | inl (now, read) ↦
        let target = unwrap_or u.charging_stopped (desired (merged u s.policy) now) in
        let w1 = (hw.snapshot w).1 in
        let w2 = (hw.set_stopped target w1).1 in
        let w3 = (hw.persist (merged u s.policy) w2).1 in
        ground (
          arith,
          read,
          laws.snapshot_true w now,
          laws.snapshot_saved w,
          laws.set_saved target w1,
          laws.set_true now.stopped w2,
          laws.set_saved now.stopped w2,
          laws.set_true now.stopped w3,
          laws.persist_true s.policy (hw.set_stopped now.stopped w3).1,
          laws.persist_stopped s.policy (hw.set_stopped now.stopped w3).1,
        )
    | inr (x, unread) ↦ ground (arith, unread)
  ]
