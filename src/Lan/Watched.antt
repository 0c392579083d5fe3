-- ===== src/Lan/Watched.antt =====
-- agent/src/lan_policy.rs: what `commit_change` does to anything that only saving changes.
use mu5250_wireguard.Base.World.{Io}
use mu5250_wireguard.Base.{◌≡◌, ◌⊎◌, inl, inr, arith, Result, ok, Result-cases}
use mu5250_wireguard.Lan.{commit_change}

module _ {W S E V : Type 0} (view : W → V) (apply persist : S → Io W E (Unit {0}))
    (release : Io W E (Unit {0})) (still : (s : S) (w : W) → view (apply s w).1 ≡ view w)
    (kept : (w : W) → view (release w).1 ≡ view w) where
  -- The step that saves.
  abbrev pub saving : S → W → Result E (Unit {0}) × W
  saving next w = persist next (apply next w).1

  pub commit_change-saved :
      (old next : S) (w : W)
      → (commit_change apply persist release old next w).0 ≡ ok tt
      → ((saving next w).0 ≡ ok tt)
        × (view (commit_change apply persist release old next w).1 ≡ view (saving next w).1)
  unfolding commit_change
  commit_change-saved old next w h =
      let w1 = (apply next w).1 in
      let w2 = (persist next w1).1 in
      ground (arith, still next w, still old w1, still old w2, kept w2)

  pub commit_change-view :
      (old next : S) (w : W)
      → (view (commit_change apply persist release old next w).1 ≡ view w)
        ⊎ (view (commit_change apply persist release old next w).1 ≡ view (saving next w).1)
  unfolding commit_change
  commit_change-view old next w = elim (Result-cases (apply next w).0) [
    | inr (x, failed) ↦
        let w1 = (apply next w).1 in
        let w3 = (apply old w1).1 in
        inl (ground (arith, failed, still next w, still old w1, kept w3))
    | inl (_, done) ↦
        let w1 = (apply next w).1 in
        let w2 = (persist next w1).1 in
        let w3 = (apply old w2).1 in inr (ground (arith, done, still old w2, kept w2, kept w3))
  ]
