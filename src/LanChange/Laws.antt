-- ===== src/LanChange/Laws.antt =====
-- agent/src/lan.rs: what the device and the recovery record promise, and that a pending change is
-- never without its own record, unless clearing it has failed.
use mu5250_wireguard.Base.{
  ◌≡◌, ◌⊎◌, inl, inr, ◌∙◌, sym, subst, Option, none, some, Text, Result, ok, err, Result-cases, ℕ,
  refl, Bool, true, false, not, ◌||◌, arith, text_eq, leb, Bool-cases, Option-cases,
}
use mu5250_wireguard.LanChange.Settings.{settings_eq, LanSettings, validate_lan_settings}
use mu5250_wireguard.LanChange.Manager.{
  recovering, beginning, applying, expiring, confirming, confirming, expiring, beginning, at,
  failed, confirm_matching, is_in_force, Request, expire_change, Error, apply_change, confirmed_by,
  run, not_confirmed, backend, rollback_locked, confirm, admitted, apply_pending, expire, begin,
  started, recover, roll_back, Backend, Journal, Pending, Manager,
}

-- Settings that are applied are read back and touch no record. A saved record is loaded, a cleared
-- one is gone, and one whose clearing fails is still there or gone: `durable_remove` can fail
-- after the removal.
pub record Laws {W : Type 0} (io : Backend W) : Type 0 where
  pub apply_read :
      (s : LanSettings) (w : W) → (io.apply s w).0 ≡ ok tt → io.read (io.apply s w).1 ≡ ok s
  pub apply_load : (s : LanSettings) (w : W) → io.load (io.apply s w).1 ≡ io.load w
  pub save_load :
      (j : Journal) (w : W) → (io.save j w).0 ≡ ok tt → io.load (io.save j w).1 ≡ ok (some j)
  pub clear_load : (w : W) → (io.clear w).0 ≡ ok tt → io.load (io.clear w).1 ≡ ok none
  pub clear_failed :
      (w : W) {e : Text}
      → (io.clear w).0 ≡ err e
      → (io.load (io.clear w).1 ≡ io.load w) ⊎ (io.load (io.clear w).1 ≡ ok none)
  pub clear_read : (w : W) → io.read (io.clear w).1 ≡ io.read w

-- What is pending can be restored, and its record is its own or gone.
abbrev pub Kept : Option Pending → Result Text (Option Journal) → Type 0
Kept none l = Unit {0}
Kept (some p) l =
    (validate_lan_settings p.journal.previous ≡ ok tt) × ((l ≡ ok (some p.journal)) ⊎ (l ≡ ok none))

abbrev pub IsRecorded : {W : Type 0} → Backend W → Manager W → Type 0
IsRecorded io m = Kept m.state.pending (io.load m.world)

module _ {W : Type 0} {io : Backend W} (laws : Laws io) where
  -- A failed clearing keeps what holds of the record.
  Kept-clear :
      (o : Option Pending) (w : W) {e : Text}
      → (io.clear w).0 ≡ err e
      → Kept o (io.load w)
      → Kept o (io.load (io.clear w).1)
  Kept-clear none w h k = tt
  Kept-clear (some p) w h k = (
    k.0,
    elim (laws.clear_failed w h) [
      | inl same ↦ elim k.1 [ inl own ↦ inl (same ∙ own) | inr gone ↦ inr (same ∙ gone) ]
      | inr gone ↦ inr gone
    ],
  )

  restored-IsRecorded :
      (p : Pending) (m : Manager W) → IsRecorded io m → IsRecorded io (roll_back io (some p) m)
  restored-IsRecorded p m k =
      let same = laws.apply_load p.journal.previous m.world in
      let k' = subst (Kept m.state.pending) (sym same) k in
      elim (Result-cases (io.apply p.journal.previous m.world).0) [
        | inr (e, h) ↦ rw h k'
        | inl (a, h) ↦
            let w = (io.apply p.journal.previous m.world).1 in
            elim (Result-cases (io.clear w).0) [
              | inl (b, l) ↦ rw (h, l) tt
              | inr (e, l) ↦ rw (h, l) (Kept-clear m.state.pending w l k')
            ]
      ]

  roll_back-IsRecorded :
      (o : Option Pending) (m : Manager W) → IsRecorded io m → IsRecorded io (roll_back io o m)
  roll_back-IsRecorded none m k = k
  roll_back-IsRecorded (some p) m k = restored-IsRecorded p m k

  recover-IsRecorded : (m : Manager W) → IsRecorded io m → IsRecorded io (recover io m)
  unfolding recover
  recover-IsRecorded m k = elim (Result-cases (io.load m.world)) [
    | inr (e, h) ↦ rw h k
    | inl (none, h) ↦ rw h tt
    | inl (some j, h) ↦ elim (Result-cases (validate_lan_settings j.previous)) [
      | inr (e, v) ↦ rw (h, v) k
      | inl (a, v) ↦
          let w = (io.apply j.previous m.world).1 in
          let k' = subst (Kept m.state.pending) (sym (laws.apply_load j.previous m.world)) k in
          elim (Result-cases (io.apply j.previous m.world).0) [
            | inr (e, l) ↦ rw (h, v, l) k'
            | inl (b, l) ↦ elim (Result-cases (io.clear w).0) [
              | inl (c, n) ↦ rw (h, v, l, n) tt
              | inr (e, n) ↦ rw (h, v, l, n) (Kept-clear m.state.pending w n k')
            ]
          ]
    ]
  ]

  started-IsRecorded :
      (token : Result Text Text) (now : ℕ) (proposed previous : LanSettings) (m : Manager W)
      → validate_lan_settings previous ≡ ok tt
      → m.state.pending ≡ none
      → IsRecorded io m
      → IsRecorded io (started io token now proposed (ok (some previous)) m).1
  started-IsRecorded (err e) now proposed previous m v h k = k
  started-IsRecorded (ok t) now proposed previous m v h k =
      let j : Journal = record { previous = previous; proposed = proposed; token = t } in
      elim (Result-cases (io.save j m.world).0) [
        | inl (a, l) ↦ rw l (v, inl (laws.save_load j m.world l))
        | inr (e, l) ↦ rw (l, h) tt
      ]

  -- What `begin` admits is valid, and nothing is pending then.
  admitted-valid :
      (proposed : LanSettings) (m : Manager W) {previous : LanSettings}
      → admitted io proposed m ≡ ok (some previous)
      → (m.state.pending ≡ none)
        × (validate_lan_settings previous ≡ ok tt)
        × (validate_lan_settings proposed ≡ ok tt)
        × (io.read m.world ≡ ok previous)
        × (io.load m.world ≡ ok none)
        × (settings_eq previous proposed ≡ false)
  unfolding admitted
  admitted-valid proposed m {previous = previous} h = elim (Option-cases m.state.pending) [
    | inr (p, k) ↦ absurd (ground (arith, k, h))
    | inl k ↦ elim (Result-cases (io.load m.world)) [
      | inr (e, l) ↦ absurd (ground (arith, k, l, h))
      | inl (some j, l) ↦ absurd (ground (arith, k, l, h))
      | inl (none, l) ↦ elim (Result-cases (validate_lan_settings proposed)) [
        | inr (e, v) ↦ absurd (ground (arith, k, l, v, h))
        | inl (a, v) ↦ elim (Result-cases (io.read m.world)) [
          | inr (e, r) ↦ absurd (ground (arith, k, l, v, r, h))
          | inl (s, r) ↦ elim (Result-cases (validate_lan_settings s)) [
            | inr (e, n) ↦ absurd (ground (arith, k, l, v, r, n, h))
            | inl (b, n) ↦ elim (Bool-cases (settings_eq s proposed)) [
              | inl q ↦ absurd (ground (arith, k, l, v, r, n, q, h))
              | inr q ↦
                  let same : s ≡ previous = ground (arith, k, l, v, r, n, q, h) in
                  subst
                    (λ x.
                      (m.state.pending ≡ none)
                      × (validate_lan_settings x ≡ ok tt)
                      × (validate_lan_settings proposed ≡ ok tt)
                      × (io.read m.world ≡ ok x)
                      × (io.load m.world ≡ ok none)
                      × (settings_eq x proposed ≡ false))
                    same (k, n, v, r, l, q)
            ]
          ]
        ]
      ]
    ]
  ]

  begin-IsRecorded :
      (token : Result Text Text) (now : ℕ) (proposed : LanSettings) (m : Manager W)
      → IsRecorded io m
      → IsRecorded io (begin io token now proposed m).1
  unfolding begin
  begin-IsRecorded token now proposed m k = elim (Result-cases (admitted io proposed m)) [
    | inr (e, h) ↦ rw h k
    | inl (none, h) ↦ rw h k
    | inl (some previous, h) ↦
        let facts = admitted-valid proposed m h in
        rw h (started-IsRecorded token now proposed previous m facts.1 facts.0 k)
  ]

  rollback_locked-IsRecorded :
      (m : Manager W) → IsRecorded io m → IsRecorded io (rollback_locked io m)
  unfolding rollback_locked
  rollback_locked-IsRecorded m k = roll_back-IsRecorded m.state.pending m k

  apply_change-IsRecorded :
      (o : Option Pending) (m : Manager W)
      → m.state.pending ≡ o
      → IsRecorded io m
      → IsRecorded io (apply_change io o m)
  apply_change-IsRecorded none m h k = k
  apply_change-IsRecorded (some p) m h k =
      let w = (io.apply p.journal.proposed m.world).1 in
      let k' = subst (Kept m.state.pending) (sym (laws.apply_load p.journal.proposed m.world)) k in
      elim (Result-cases (io.apply p.journal.proposed m.world).0) [
        | inl (a, l) ↦ rw l (subst (λ o. Kept o (io.load w)) h k')
        | inr (e, l) ↦ rw l (rollback_locked-IsRecorded (failed io (at io m w) (backend e)) k')
      ]

  expire_change-IsRecorded :
      (now : ℕ) (o : Option Pending) (m : Manager W)
      → IsRecorded io m
      → IsRecorded io (expire_change io now o m).1
  expire_change-IsRecorded now none m k = k
  expire_change-IsRecorded now (some p) m k = elim (Bool-cases (leb p.deadline now)) [
    | inl l ↦ rw l (rollback_locked-IsRecorded (failed io m not_confirmed) k)
    | inr l ↦ rw l k
  ]

  confirm_matching-IsRecorded :
      (j : Journal) (r : Result Error Bool) (m : Manager W)
      → IsRecorded io m
      → IsRecorded io (confirm_matching io j r m).1
  confirm_matching-IsRecorded j (err e) m k = k
  confirm_matching-IsRecorded j (ok false) m k = k
  confirm_matching-IsRecorded j (ok true) m k = elim (Result-cases (io.clear m.world).0) [
    | inl (a, l) ↦ rw l tt
    | inr (e, l) ↦ rw l (Kept-clear m.state.pending m.world l k)
  ]

  confirm_change-IsRecorded :
      (token : Text) (now : ℕ) (o : Option Pending) (m : Manager W)
      → IsRecorded io m
      → IsRecorded io (confirmed_by io token now o m).1
  confirm_change-IsRecorded token now none m k = k
  confirm_change-IsRecorded token now (some p) m k =
      elim (Bool-cases
        (not p.applied || leb p.deadline now || not (text_eq token p.journal.token))) [
          | inl l ↦ rw l k
          | inr l ↦ rw l (
              confirm_matching-IsRecorded p.journal (is_in_force io p.journal.proposed m.world) m k)
        ]

  -- Every operation, whatever fails in it, keeps the invariant: a pending change could be restored,
  -- and the record on disk is that change's, or gone.
  pub run-IsRecorded : (r : Request) (m : Manager W) → IsRecorded io m → IsRecorded io (run io r m)
  unfolding run apply_pending expire confirm
  run-IsRecorded recovering m k = recover-IsRecorded m k
  run-IsRecorded (beginning token now proposed) m k = begin-IsRecorded token now proposed m k
  run-IsRecorded applying m k = apply_change-IsRecorded m.state.pending m refl k
  run-IsRecorded (expiring now) m k = expire_change-IsRecorded now m.state.pending m k
  run-IsRecorded (confirming token now) m k =
      confirm_change-IsRecorded token now m.state.pending m k
