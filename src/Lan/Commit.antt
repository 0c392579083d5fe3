-- ===== src/Lan/Commit.antt =====
-- agent/src/lan_policy.rs: `commit_change` and the guard that blocks traffic during a change.
use mu5250_wireguard.Base.{◌≡◌, ◌⊎◌, Bool, false, arith, ok, err}
use mu5250_wireguard.Base.World.{Io}
use mu5250_wireguard.Lan.{unrestored, commit_change}

-- `applied` is the policy in force, `saved` the one on disk, `guarded` says that the guard blocks
-- traffic. Only `release` lifts the guard. A save that fails leaves the former file or the
-- new one: it may fail after the new file has taken the place of the former.
pub record Laws {W S E : Type 0} (applied saved : W → S) (guarded : W → Bool)
    (apply persist : S → Io W E (Unit {0})) (release : Io W E (Unit {0})) : Type 0 where
  pub apply_true : (s : S) (w : W) → (apply s w).0 ≡ ok tt → applied (apply s w).1 ≡ s
  pub apply_saved : (s : S) (w : W) → saved (apply s w).1 ≡ saved w
  pub apply_guarded : (s : S) (w : W) → guarded (apply s w).1 ≡ guarded w
  pub persist_true : (s : S) (w : W) → (persist s w).0 ≡ ok tt → saved (persist s w).1 ≡ s
  pub persist_any :
      (s : S) (w : W) → (saved (persist s w).1 ≡ saved w) ⊎ (saved (persist s w).1 ≡ s)
  pub persist_applied : (s : S) (w : W) → applied (persist s w).1 ≡ applied w
  pub persist_guarded : (s : S) (w : W) → guarded (persist s w).1 ≡ guarded w
  pub release_true : (w : W) → (release w).0 ≡ ok tt → guarded (release w).1 ≡ false
  pub release_applied : (w : W) → applied (release w).1 ≡ applied w
  pub release_saved : (w : W) → saved (release w).1 ≡ saved w

module _ {W S E : Type 0} (applied saved : W → S) (guarded : W → Bool)
    (apply persist : S → Io W E (Unit {0})) (release : Io W E (Unit {0}))
    (laws : Laws applied saved guarded apply persist release) where
  -- Over operations that keep their laws: a change that succeeds leaves the new policy in force and
  -- on disk, with the guard lifted.
  pub commit_change-ok :
      (old next : S) (w : W)
      → (commit_change apply persist release old next w).0 ≡ ok tt
      → (applied (commit_change apply persist release old next w).1 ≡ next)
        × (saved (commit_change apply persist release old next w).1 ≡ next)
        × (guarded (commit_change apply persist release old next w).1 ≡ false)
  unfolding commit_change
  commit_change-ok old next w h =
      let w1 = (apply next w).1 in
      let w2 = (persist next w1).1 in
      ground (
        arith,
        laws.apply_true next w,
        laws.persist_true next w1,
        laws.persist_applied next w1,
        laws.release_true w2,
        laws.release_applied w2,
        laws.release_saved w2,
      )

  -- Where the former policy could not be put back, the guard is left as it was.
  pub commit_change-unrestored :
      (old next : S) (w : W) {e : E}
      → (commit_change apply persist release old next w).0 ≡ err (unrestored e)
      → guarded (commit_change apply persist release old next w).1 ≡ guarded w
  unfolding commit_change
  commit_change-unrestored old next w {e} h =
      let w1 = (apply next w).1 in
      let w2 = (persist next w1).1 in
      ground (
        arith,
        laws.apply_guarded next w,
        laws.persist_guarded next w1,
        laws.apply_guarded old w1,
        laws.apply_guarded old w2,
      )
