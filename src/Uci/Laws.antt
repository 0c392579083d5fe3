-- ===== src/Uci/Laws.antt =====
-- What `trait Backend` promises of the live configuration and of the private stage, key by key.
use mu5250_wireguard.Base.{
  ◌≡◌, ◌≢◌, ◌⊎◌, Option, none, some, List, if◌then◌else◌, Text, text_eq, ok, All,
}
use mu5250_wireguard.Uci.{Change, Backend, config_of}

-- `set` stages and never touches the live configuration; `commit` of a package makes what is staged
-- of it live, keeps or drops it from the stage, and touches no key that is not staged or that
-- belongs to another package; the check compares the live values with the expected ones.
pub record Laws {W : Type 0} (live : W → Text → Text) (staged : W → Text → Option Text)
    (b : Backend W) : Type 0 where
  pub check_true :
      (cs : List Change) (w : W) → (b.check cs w).0 ≡ ok tt → All (λ c. live w c.key ≡ c.before) cs
  pub check_live : (cs : List Change) (w : W) (j : Text) → live (b.check cs w).1 j ≡ live w j
  pub check_staged : (cs : List Change) (w : W) (j : Text) → staged (b.check cs w).1 j ≡ staged w j
  pub set_live : (k v : Text) (w : W) (j : Text) → live (b.set k v w).1 j ≡ live w j
  pub set_true :
      (k v : Text) (w : W) (j : Text)
      → (b.set k v w).0 ≡ ok tt
      → staged (b.set k v w).1 j ≡ (if text_eq k j then some v else staged w j)
  pub commit_true :
      (c : Text) (w : W) (j v : Text)
      → (b.commit c w).0 ≡ ok tt
      → staged w j ≡ some v
      → config_of j ≡ c
      → live (b.commit c w).1 j ≡ v
  pub commit_unstaged :
      (c : Text) (w : W) (j : Text) → staged w j ≡ none → live (b.commit c w).1 j ≡ live w j
  pub commit_other :
      (c : Text) (w : W) (j : Text)
      → config_of j ≢ c
      → (live (b.commit c w).1 j ≡ live w j) × (staged (b.commit c w).1 j ≡ staged w j)
  pub commit_staged :
      (c : Text) (w : W) (j : Text)
      → (staged (b.commit c w).1 j ≡ none) ⊎ (staged (b.commit c w).1 j ≡ staged w j)
  pub apply_live : (w : W) (j : Text) → live (b.apply w).1 j ≡ live w j
  pub apply_staged : (w : W) (j : Text) → staged (b.apply w).1 j ≡ staged w j
