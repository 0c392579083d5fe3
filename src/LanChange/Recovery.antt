-- ===== src/LanChange/Recovery.antt =====
-- agent/src/lan.rs: what a restart, a confirmation and an expiry do to a change.
use mu5250_wireguard.Base.{
  ℕ, ◌≡◌, ◌⊎◌, inl, inr, ◌∙◌, refl, sym, ap, subst, Option, none, some, Text, Result, ok,
  Result-cases, arith, ◌≤◌, true, false, leb, err,
}
use mu5250_wireguard.LanChange.Settings.{validate_lan_settings}
use mu5250_wireguard.LanChange.Manager.{
  Backend, Journal, Pending, Manager, Request, run, recover, rollback_locked, expire, set, unclear,
  not_restored,
}
use mu5250_wireguard.LanChange.Laws.{Laws, Kept, IsRecorded, run-IsRecorded}

-- The managers that requests lead to, from one that has just started over any device.
pub data Reachable {W : Type 0} (io : Backend W) : Manager W → Type 0 where
  start : (m : Manager W) → m.state.pending ≡ none → Reachable io m
  step : {m : Manager W} → Reachable io m → (r : Request) → Reachable io (run io r m)

module _ {W : Type 0} {io : Backend W} (laws : Laws io) where
  -- The invariant of the record holds in every reachable state.
  pub reachable-IsRecorded : {m : Manager W} → Reachable io m → IsRecorded io m
  reachable-IsRecorded (start m h) = subst (λ o. Kept o (io.load m.world)) (sym h) tt
  reachable-IsRecorded (step {m = m} reached r) =
      run-IsRecorded laws r m (reachable-IsRecorded reached)

  record_of :
      (o : Option Pending) (p : Pending) (l : Result Text (Option Journal)) (j : Journal)
      → o ≡ some p
      → l ≡ ok (some j)
      → Kept o l
      → j ≡ p.journal
  record_of o p l j h e k =
      let own = (subst (λ o. Kept o l) h k).1 in
      elim own [ inl same ↦ ground (arith, e, same) | inr gone ↦ absurd (ground (arith, e, gone)) ]

  -- What a recovery without an error has done about a record.
  recovered :
      (j : Journal) (m : Manager W)
      → io.load m.world ≡ ok (some j)
      → (recover io m).state.error ≡ none
      → (io.read (recover io m).world ≡ ok j.previous)
        × (io.load (recover io m).world ≡ ok none)
        × ((recover io m).binding ≡ set j.previous.ipaddr m.binding)
  unfolding recover
  recovered j m l h = elim (Result-cases (validate_lan_settings j.previous)) [
    | inr (e, v) ↦ absurd (ground (arith, l, v, h))
    | inl (a, v) ↦
        let w = (io.apply j.previous m.world).1 in
        elim (Result-cases (io.apply j.previous m.world).0) [
          | inr (e, k) ↦ absurd (ground (arith, l, v, k, h))
          | inl (b, k) ↦ elim (Result-cases (io.clear w).0) [
            | inr (e, n) ↦ absurd (ground (arith, l, v, k, n, h))
            | inl (c, n) ↦
                rw (l, v, k, n)
                  (
                    laws.clear_read w ∙ laws.apply_read j.previous m.world k,
                    laws.clear_load w n,
                    refl,
                  )
          ]
        ]
  ]

  -- Over a device that keeps its laws, take any manager that requests lead to, in which a change is
  -- pending and a record is on disk. If the agent restarts there, as any manager of the same device,
  -- and its recovery reports no error, then the settings before that change are in force again, the
  -- record is gone and the listener is bound to the former address.
  pub restart_restores :
      (m again : Manager W) (p : Pending) (j : Journal)
      → Reachable io m
      → m.state.pending ≡ some p
      → io.load m.world ≡ ok (some j)
      → again.world ≡ m.world
      → (recover io again).state.error ≡ none
      → (io.read (recover io again).world ≡ ok p.journal.previous)
        × (io.load (recover io again).world ≡ ok none)
        × ((recover io again).binding ≡ set p.journal.previous.ipaddr again.binding)
  restart_restores m again p j reached h l same clean =
      let own : j ≡ p.journal =
        record_of m.state.pending p (io.load m.world) j h l (reachable-IsRecorded reached) in
      recovered p.journal again (ap io.load same ∙ l ∙ ap (λ x. ok (some x)) own) clean

  -- Over a device that keeps its laws: at its deadline a change that nobody confirmed stops being
  -- waited for. Either it is then no longer pending, the settings before it are in force, the record
  -- is gone and the listener is bound to the former address; or the same change is still pending,
  -- and the error says that the restoration failed, or that it was the removal of the record, after
  -- the settings before the change were put in force, in each case with what that step said.
  pub expire_restores :
      (now : ℕ) (m : Manager W) (p : Pending)
      → m.state.pending ≡ some p
      → p.deadline ≤ now
      → ((expire io now m).0 ≡ false)
        × ((((expire io now m).1.state.pending ≡ none)
              × (io.read (expire io now m).1.world ≡ ok p.journal.previous)
              × (io.load (expire io now m).1.world ≡ ok none)
              × ((expire io now m).1.binding ≡ set p.journal.previous.ipaddr m.binding))
            ⊎ (((expire io now m).1.state.pending ≡ some p)
                × (e : Text) × ((((expire io now m).1.state.error ≡ some (unclear e))
                      × ((io.clear (io.apply p.journal.previous m.world).1).0 ≡ err e)
                      × (io.read (expire io now m).1.world ≡ ok p.journal.previous))
                    ⊎ (((expire io now m).1.state.error ≡ some (not_restored e))
                        × ((io.apply p.journal.previous m.world).0 ≡ err e)))))
  unfolding expire rollback_locked
  expire_restores now m p h late =
      let w = (io.apply p.journal.previous m.world).1 in
      let due : leb p.deadline now ≡ true = ground arith in
      elim (Result-cases (io.apply p.journal.previous m.world).0) [
        | inr (e, k) ↦ rw (h, due, k) (refl, inr (refl, e, inr (refl, refl)))
        | inl (a, k) ↦ elim (Result-cases (io.clear w).0) [
          | inr (e, n) ↦
              rw (h, due, k, n)
                (
                  refl,
                  inr (
                    refl,
                    e,
                    inl (
                      refl,
                      refl,
                      laws.clear_read w ∙ laws.apply_read p.journal.previous m.world k,
                    ),
                  ),
                )
          | inl (b, n) ↦
              rw (h, due, k, n)
                (
                  refl,
                  inl (
                    refl,
                    laws.clear_read w ∙ laws.apply_read p.journal.previous m.world k,
                    laws.clear_load w n,
                    refl,
                  ),
                )
        ]
      ]
